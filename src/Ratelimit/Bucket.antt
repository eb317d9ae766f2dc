-- ===== src/Ratelimit/Bucket.antt =====
-- `TokenBucket` of app/ratelimit.py, and the Lua script of `RedisTokenBucket`. Times are
-- milliseconds. Tokens are counted in units of one 6,000,000th, so that a rate of r requests per
-- minute under a factor of f percent earns exactly r * f units each millisecond: the code's floats
-- become whole numbers, and its rounding is not modelled.
pub mod Rate
pub mod Redis
use email_extractor.Common.{
  ℕ, zero, suc, ◌+◌, ◌*◌, ◌-◌, ◌/◌, min, max, ◌≡◌, Bool, true, false, List, [], ◌∷◌, Option, none,
  some, ltb, leb, if◌then◌else◌,
}

-- One token: 60,000 ms in a minute, times 100 percent.
abbrev pub token_units : ℕ
token_units = 6_000_000

pub record Bucket : Type 0 where
  pub rate_per_minute : ℕ
  pub capacity : ℕ
  pub tokens : ℕ
  pub updated : ℕ
  pub penalty_factor : ℕ
  pub penalty_until : ℕ

-- `TokenBucket(rate_per_minute, capacity)`, built at the time `now`; the capacity is in tokens.
pub new_bucket : ℕ → Option ℕ → ℕ → Bucket
new_bucket rate capacity now =
    let burst : ℕ = elim capacity [ none ↦ max 1 (rate / 50) | some c ↦ c ] in
    record {
      rate_per_minute = rate;
      capacity = burst * token_units;
      tokens = burst * token_units;
      updated = now;
      penalty_factor = 100;
      penalty_until = 0;
    }

-- Units earned each millisecond.
unfoldable pub effective_rate : ℕ → Bucket → ℕ
effective_rate now b =
    b.rate_per_minute * (if ltb now b.penalty_until then b.penalty_factor else 100)

unfoldable pub refill : ℕ → Bucket → Bucket
refill now b = record b {
  tokens = min b.capacity (b.tokens + (now - b.updated) * effective_rate now b);
  updated = now;
}

-- `penalize(fraction, seconds)`, in percent and milliseconds.
pub penalize : ℕ → ℕ → ℕ → Bucket → Bucket
penalize percent millis now b = record b {
  penalty_factor = max 5 (100 - percent);
  penalty_until = now + millis;
}

-- The outcome of one round of the loop in `acquire`: the tokens are taken, or the call sleeps for
-- `wait`, the units that are missing over the units earned each millisecond, at most 5 s.
pub data Round : Type 0 where
  taken : Round
  sleep : (missing rate : ℕ) → Round

unfoldable pub try_acquire : ℕ → ℕ → Bucket → Round × Bucket
try_acquire n now b =
    let b' = refill now b in
    if leb (n * token_units) b'.tokens
    then (taken, record b' { tokens = b'.tokens - n * token_units })
    else (sleep (n * token_units - b'.tokens) (effective_rate now b'), b')

-- `acquire`: the environment gives the times at which the loop runs its rounds. The result tells
-- whether the call returned within them.
pub acquire : ℕ → List ℕ → Bucket → Bool × Bucket
acquire n [] b = (false, b)
acquire n (now ∷ times) b =
    let (round, b') = try_acquire n now b in
    elim round [ taken ↦ (true, b') | sleep _ _ ↦ acquire n times b' ]

-- What `RedisTokenBucket` keeps in Redis: the hash with `t` and `ts` and the time at which it expires, and
-- the penalty key with the time at which that expires. A key that is missing or has expired reads as none.
-- A call has two times, the caller's clock and Redis's, by which keys expire.
pub record Shared : Type 0 where
  pub hash : Option (ℕ × ℕ)
  pub expires : ℕ
  pub penalty : Option (ℕ × ℕ)

-- `tonumber(redis.call('GET', KEYS[2]) or '1')`, in percent
pub factor_at : ℕ → Option (ℕ × ℕ) → ℕ
factor_at now none = 100
factor_at now (some (factor, until)) = if ltb now until then factor else 100

-- `tonumber(b[1]) or cap` and `tonumber(b[2]) or now`
abbrev pub hash_or : ℕ → ℕ → Option (ℕ × ℕ) → ℕ × ℕ
hash_or cap now none = (cap, now)
hash_or cap now (some h) = h

-- `EXPIRE KEYS[1] 3600`, in milliseconds.
abbrev pub bucket_life : ℕ
bucket_life = 3_600_000

-- The hash that Redis still has at a time.
abbrev pub hash_at : ℕ → Shared → Option (ℕ × ℕ)
hash_at at s = if ltb at s.expires then s.hash else none

-- The script `_BUCKET_LUA`, which Redis runs at `at`.
pub bucket_script : (rate cap now at n : ℕ) → Shared → Round × Shared
bucket_script rate cap now at n s =
    let r = rate * factor_at at s.penalty in
    let (t, ts) = hash_or cap now (hash_at at s) in
    let t' = if ltb ts now then min cap (t + (now - ts) * r) else t in
    let ts' = if ltb ts now then now else ts in
    if leb (n * token_units) t'
    then (taken, record s { hash = some (t' - n * token_units, ts'); expires = at + bucket_life })
    else (
      sleep (n * token_units - t') r,
      record s { hash = some (t', ts'); expires = at + bucket_life },
    )

-- `RedisTokenBucket.penalize`: the penalty key is set at `at` with its time to live.
pub penalize_shared : (percent millis at : ℕ) → Shared → Shared
penalize_shared percent millis at s = record s {
  penalty = some (max 5 (100 - percent), at + millis);
}
