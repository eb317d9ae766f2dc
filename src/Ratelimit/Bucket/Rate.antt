-- ===== src/Ratelimit/Bucket/Rate.antt =====
-- The local bucket never hands out more than its rate allows, and a caller that sleeps as long as
-- it is told gets its tokens.
use email_extractor.Common.{ℕ, ◌+◌, ◌*◌, ◌-◌, ◌≤◌, ◌≡◌, List, [], ◌∷◌, Option, arith}
use native.Mathlib.Nat.{mul-le-mul_left}
use email_extractor.Ratelimit.Bucket.{
  Bucket, token_units, new_bucket, effective_rate, refill, penalize, Round, taken, sleep,
  try_acquire,
}

abbrev pub IsValid : Bucket → Type 0
IsValid b = (b.tokens ≤ b.capacity) × (b.penalty_factor ≤ 100)

-- A call on the bucket at a time: one round of `acquire(n)`, or `penalize`.
pub data Call : Type 0 where
  on_acquire : (n now : ℕ) → Call
  on_penalize : (percent millis now : ℕ) → Call

abbrev pub time_of : Call → ℕ
time_of (on_acquire n now) = now
time_of (on_penalize percent millis now) = now

abbrev pub granted : ℕ → Round → ℕ
granted n taken = n
granted n (sleep _ _) = 0

-- The tokens that a series of calls takes, and the bucket after it.
pub serve : Bucket → List Call → ℕ × Bucket
serve b [] = (0, b)
serve b (on_acquire n now ∷ cs) =
    let (round, b') = try_acquire n now b in
    let (total, b'') = serve b' cs in (granted n round + total, b'')
serve b (on_penalize percent millis now ∷ cs) = serve (penalize percent millis now b) cs

-- The monotonic clock: no call comes before the one ahead of it.
abbrev pub InOrder : ℕ → List Call → Type 0
InOrder t [] = Unit
InOrder t (c ∷ cs) = (t ≤ time_of c) × InOrder (time_of c) cs

abbrev pub last_time : ℕ → List Call → ℕ
last_time t [] = t
last_time t (c ∷ cs) = last_time (time_of c) cs

pub mul_factor : (d r f : ℕ) → f ≤ 100 → d * (r * f) ≤ d * (r * 100)
mul_factor d r f h = mul-le-mul_left d (mul-le-mul_left r h)

-- Two spans of time, one after the other.
pub spans : (r a b c : ℕ) → a ≤ b → b ≤ c → (b - a) * r + (c - b) * r ≡ (c - a) * r
spans r a b c h k = grind arith

refill_gain :
    (now : ℕ) (b : Bucket)
    → IsValid b
    → b.updated ≤ now
    → (refill now b).tokens ≤ b.tokens + (now - b.updated) * (b.rate_per_minute * 100)
unfolding refill effective_rate
refill_gain now b v h =
    ground (arith, mul_factor (now - b.updated) b.rate_per_minute b.penalty_factor v.1)

try_acquire_gain :
    (n now : ℕ) (b : Bucket)
    → IsValid b
    → b.updated ≤ now
    → let (round, b') = try_acquire n now b in
      (granted n round * token_units + b'.tokens
        ≤ b.tokens + (now - b.updated) * (b.rate_per_minute * 100))
      × IsValid b'
      × (b'.updated ≡ now)
      × (b'.rate_per_minute ≡ b.rate_per_minute)
unfolding try_acquire refill
try_acquire_gain n now b v h = ground (arith, refill_gain now b v h)

last_time-le : (t : ℕ) (cs : List Call) → InOrder t cs → t ≤ last_time t cs
last_time-le t [] h = omega arith
last_time-le t (c ∷ cs) h = omega (arith, last_time-le (time_of c) cs h.1)

pub combine :
    (g total tok mid end upd upd' now last r r' : ℕ)
    → g * token_units + mid ≤ tok + (now - upd) * (r * 100)
    → total * token_units + end ≤ mid + (last - upd') * (r' * 100)
    → upd' ≡ now
    → r' ≡ r
    → upd ≤ now
    → now ≤ last
    → (g + total) * token_units + end ≤ tok + (last - upd) * (r * 100)
combine g total tok mid end upd upd' now last r r' first rest eu er h k =
    let rest' : total * token_units + end ≤ mid + (last - now) * (r * 100) = rw (← eu, ← er) rest in
    omega (arith, spans (r * 100) upd now last h k)

-- What is granted is paid for by the tokens in the bucket and the rate times the time that went by.
serve_gain :
    (b : Bucket) (t : ℕ) (cs : List Call)
    → IsValid b
    → b.updated ≤ t
    → InOrder t cs
    → (serve b cs).0 * token_units + (serve b cs).1.tokens
      ≤ b.tokens + (last_time t cs - b.updated) * (b.rate_per_minute * 100)
unfolding serve penalize
serve_gain b t [] v h o = omega arith
serve_gain b t (on_acquire n now ∷ cs) v h o =
    let (round, b') = try_acquire n now b in
    let gain = try_acquire_gain n now b v (omega arith) in
    let ih = serve_gain b' now cs gain.1 (omega arith) o.1 in
    combine (granted n round) (serve b' cs).0 b.tokens b'.tokens (serve b' cs).1.tokens b.updated
      b'.updated now (last_time now cs) b.rate_per_minute b'.rate_per_minute gain.0 ih gain.2 gain.3
      (omega arith) (last_time-le now cs o.1)
serve_gain b t (on_penalize percent millis now ∷ cs) v h o =
    serve_gain (penalize percent millis now b) now cs (omega arith) (omega arith) o.1

-- A bucket built at `start` hands out, whatever the calls and whenever the provider is penalised,
-- no more than its burst and the rate times the time since then.
pub rate_bound :
    (rate start : ℕ) (capacity : Option ℕ) (cs : List Call)
    → InOrder start cs
    → (serve (new_bucket rate capacity start) cs).0 * token_units
      ≤ (new_bucket rate capacity start).capacity + (last_time start cs - start) * (rate * 100)
unfolding new_bucket
rate_bound rate start capacity cs o =
    omega
      (arith, serve_gain (new_bucket rate capacity start) start cs (omega arith) (omega arith) o)

-- A call that sleeps for at least `missing / rate`, as `acquire` computes them, gets its tokens on
-- the next round, if the burst is as large as the request, nobody else took tokens meanwhile, and
-- the bucket is not slower when it wakes.
pub acquire-after_sleep :
    (n now wake missing rate : ℕ) (b : Bucket)
    → n * token_units ≤ b.capacity
    → (try_acquire n now b).0 ≡ sleep missing rate
    → missing ≤ (wake - now) * rate
    → rate ≤ effective_rate wake b
    → (try_acquire n wake (try_acquire n now b).1).0 ≡ taken
unfolding try_acquire refill effective_rate
acquire-after_sleep n now wake missing rate b fits slept enough speed =
    ground (arith, mul-le-mul_left (wake - now) speed)
