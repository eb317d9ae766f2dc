-- ===== src/Ratelimit/Bucket/Redis.antt =====
-- The script in Redis does what the local bucket does, call by call.
use email_extractor.Common.{
  ℕ, ap, ◌+◌, ◌*◌, ◌-◌, ◌≤◌, ◌<◌, true, false, ltb, min, ◌≡◌, List, [], ◌∷◌, Option, none, some,
  arith, Bool-cases, inl, inr, max,
}
use native.Mathlib.Nat.{mul-le-mul_right}
use email_extractor.Ratelimit.Bucket.Rate.{
  Call, on_acquire, on_penalize, time_of, granted, spans, mul_factor,
}
use email_extractor.Ratelimit.Bucket.{
  Bucket, effective_rate, refill, try_acquire, Shared, factor_at, hash_or, bucket_script,
  bucket_life, token_units, penalize_shared,
}

-- The keys in Redis that hold the fields of a local bucket, until a time.
abbrev pub mirror : ℕ → Bucket → Shared
mirror expires b = record {
  hash = some (b.tokens, b.updated);
  expires = expires;
  penalty = some (b.penalty_factor, b.penalty_until);
}

-- Where Redis still holds a bucket's fields and the clock has not gone back, the script takes the tokens
-- or waits exactly as the bucket does, and Redis holds the bucket's fields afterwards, for an hour. The
-- caller and Redis read the same clock.
pub bucket_script-mirror :
    (n now expires : ℕ) (b : Bucket)
    → b.tokens ≤ b.capacity
    → b.updated ≤ now
    → now < expires
    → bucket_script b.rate_per_minute b.capacity now now n (mirror expires b)
      ≡ ((try_acquire n now b).0, mirror (now + bucket_life) (try_acquire n now b).1)
unfolding bucket_script factor_at try_acquire refill effective_rate
bucket_script-mirror n now expires b full later live =
    let still : ltb now expires ≡ true = ground arith in
    elim (Bool-cases (ltb b.updated now)) [
      | inl e ↦ rw (still, e) (ground arith)
      | inr e ↦ rw (still, e, same_time (ground arith)) (ground arith)
    ]
  where
    same_time :
        b.updated ≡ now
        → min b.capacity (b.tokens + (now - b.updated) * effective_rate now b) ≡ b.tokens
    same_time e = grind arith

-- The calls of every process on one key, in the order in which Redis runs them, each with the time at
-- which it does: the tokens taken, and the keys afterwards.
pub serve_shared : (rate cap : ℕ) → Shared → List (ℕ × Call) → ℕ × Shared
serve_shared rate cap s [] = (0, s)
serve_shared rate cap s ((at, on_acquire n now) ∷ cs) =
    let (round, s') = bucket_script rate cap now at n s in
    let (total, s'') = serve_shared rate cap s' cs in (granted n round + total, s'')
serve_shared rate cap s ((at, on_penalize percent millis now) ∷ cs) =
    serve_shared rate cap (penalize_shared percent millis at s) cs

-- Each run of the script comes to Redis less than an hour behind the last, which was at `at`.
abbrev pub AreClose : ℕ → List (ℕ × Call) → Type 0
AreClose last [] = Unit
AreClose last ((at, on_acquire n now) ∷ cs) = (at < last + bucket_life) × AreClose at cs
AreClose last ((at, on_penalize percent millis now) ∷ cs) = AreClose last cs

-- The latest time that a process has passed.
abbrev pub latest : ℕ → List (ℕ × Call) → ℕ
latest t [] = t
latest t ((at, c) ∷ cs) = latest (max t (time_of c)) cs

latest-le : (t : ℕ) (cs : List (ℕ × Call)) → t ≤ latest t cs
latest-le t [] = omega arith
latest-le t ((at, c) ∷ cs) = omega (arith, latest-le (max t (time_of c)) cs)

latest_mono : (a b : ℕ) (cs : List (ℕ × Call)) → a ≤ b → latest a cs ≤ latest b cs
latest_mono a b [] h = h
latest_mono a b ((at, c) ∷ cs) h =
    latest_mono (max a (time_of c)) (max b (time_of c)) cs (omega arith)

abbrev pub SlowsOnly : Option (ℕ × ℕ) → Type 0
SlowsOnly none = Unit
SlowsOnly (some (factor, until)) = factor ≤ 100

factor_at-le : (now : ℕ) (p : Option (ℕ × ℕ)) → SlowsOnly p → factor_at now p ≤ 100
unfolding factor_at
factor_at-le now none h = omega arith
factor_at-le now (some (factor, until)) h = ground arith

-- The tokens that a hash holds.
abbrev pub tokens_of : Shared → ℕ
tokens_of s = (hash_or 0 0 s.hash).0

-- One run of the script on a hash that is still there, whatever the caller's clock says.
bucket_script_gain :
    (rate cap now at n t ts expires : ℕ) (p : Option (ℕ × ℕ))
    → SlowsOnly p
    → at < expires
    → let (round, s') =
        bucket_script rate cap now at n
          (record { hash = some (t, ts); expires = expires; penalty = p }) in
      (s' ≡ record {
        hash = some (tokens_of s', max ts now);
        expires = at + bucket_life;
        penalty = p;
      })
      × (granted n round * token_units + tokens_of s' ≤ t + (max ts now - ts) * (rate * 100))
unfolding bucket_script
bucket_script_gain rate cap now at n t ts expires p slow live =
    let still : ltb at expires ≡ true = ground arith in
    rw still (ground (arith, mul_factor (now - ts) rate (factor_at at p) (factor_at-le at p slow)))

serve_shared_gain :
    (rate cap t ts last : ℕ) (p : Option (ℕ × ℕ)) (cs : List (ℕ × Call))
    → SlowsOnly p
    → AreClose last cs
    → (serve_shared rate cap
          (record { hash = some (t, ts); expires = last + bucket_life; penalty = p })
          cs).0
        * token_units
      ≤ t + (latest ts cs - ts) * (rate * 100)
unfolding serve_shared penalize_shared
serve_shared_gain rate cap t ts last p [] slow close = omega arith
serve_shared_gain rate cap t ts last p ((at, on_acquire n now) ∷ cs) slow close =
    let s : Shared = record { hash = some (t, ts); expires = last + bucket_life; penalty = p } in
    let (round, s') = bucket_script rate cap now at n s in
    let gain = bucket_script_gain rate cap now at n t ts (last + bucket_life) p slow close.0 in
    let ih = serve_shared_gain rate cap (tokens_of s') (max ts now) at p cs slow close.1 in
    let same : (serve_shared rate cap s' cs).0
        ≡ (serve_shared rate cap
            (record {
              hash = some (tokens_of s', max ts now);
              expires = at + bucket_life;
              penalty = p;
            })
            cs).0 =
      ap (λ k. (serve_shared rate cap k cs).0) gain.0 in
    omega (
      arith,
      gain.1,
      ih,
      same,
      spans (rate * 100) ts (max ts now) (latest (max ts now) cs) (omega arith)
          (latest-le (max ts now) cs),
    )
serve_shared_gain rate cap t ts last p ((at, on_penalize percent millis now) ∷ cs) slow close =
    let ih =
      serve_shared_gain rate cap t ts last (some (max 5 (100 - percent), at + millis)) cs
        (omega arith) close in
    let longer : latest ts cs - ts ≤ latest (max ts now) cs - ts =
      omega (arith, latest_mono ts (max ts now) cs (omega arith)) in
    omega (arith, ih, mul-le-mul_right (rate * 100) longer)

-- Starting from empty keys, all processes together take no more than the burst and the rate times
-- the time since the first call, in whatever order their calls and penalties reach Redis and
-- however far apart their clocks are, as long as each call for tokens reaches Redis less than an hour
-- behind the last, so that the bucket's hash does not expire.
pub shared_rate_bound :
    (rate cap n start first : ℕ) (cs : List (ℕ × Call))
    → AreClose first cs
    → (serve_shared rate cap
          (record { hash = none; expires = 0; penalty = none })
          ((first, on_acquire n start) ∷ cs)).0
        * token_units
      ≤ cap + (latest start cs - start) * (rate * 100)
unfolding serve_shared bucket_script
shared_rate_bound rate cap n start first cs close =
    let gain =
      serve_shared_gain rate cap cap start first none ((first, on_acquire n start) ∷ cs) tt
        (omega arith, close) in
    let once : max start start ≡ start = omega arith in
    let still : ltb first (first + bucket_life) ≡ true = ground arith in
    let gone : ltb first 0 ≡ false = ground arith in rw gone (rw once at (rw still at gain))
