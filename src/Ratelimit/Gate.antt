-- ===== src/Ratelimit/Gate.antt =====
-- `FetchGate` and its `_Slot` of app/ratelimit.py. A semaphore is its free count. What the
-- environment decides (the times of the rounds, the jitter, whether a wait ends or is cancelled) is
-- an argument of `enter`.
pub mod Slots
use email_extractor.Common.{
  ℕ, zero, suc, ◌+◌, ◌*◌, min, max, ◌≡◌, String, Bool, true, false, List, [], ◌∷◌, Option, none,
  some, ltb, ◌==◌, if◌then◌else◌, get, put, or_else, string_eq,
}
use email_extractor.Ratelimit.Breaker.{Config, Breaker, Verdict, admitted, circuit_open, check}
use email_extractor.Ratelimit.Bucket.{Bucket, acquire}

pub record Gate : Type 0 where
  pub breaker : Breaker
  pub bucket : Option Bucket
  pub free : ℕ
  pub per_domain_limit : ℕ
  pub per_domain : List (String × ℕ)

-- `_domain_sem(domain)`: a domain that has no semaphore gets a new one.
unfoldable pub domain_free : String → Gate → ℕ
domain_free domain g = or_else (get domain g.per_domain) g.per_domain_limit

set_domain : String → ℕ → Gate → Gate
set_domain domain n g = record g { per_domain = put domain n g.per_domain }

without : String → List (String × ℕ) → List (String × ℕ)
without domain [] = []
without domain ((d, n) ∷ l) =
    let rest = without domain l in if string_eq.beq d domain then rest else (d, n) ∷ rest

-- `release_domain`: the semaphore goes if all its places are free.
pub release_domain : String → Gate → Gate
release_domain domain g = elim (get domain g.per_domain) [
  | none ↦ g
  | some n ↦
      if n == g.per_domain_limit then record g { per_domain = without domain g.per_domain } else g
]

-- `_Slot.MAX_BREAKER_WAIT_S`, and the unit of the naps: a 200th of a millisecond, in which the
-- jitter, a fraction j / 200 of the base for j up to 100, is exact.
abbrev pub max_breaker_wait : ℕ
max_breaker_wait = 30_000 * 200

-- One nap: `min(max(e.retry_in, 0.5), 5.0) * (1.0 + random.random() * 0.5)`
pub nap : (retry_in jitter : ℕ) → ℕ
nap retry_in jitter = min (max retry_in 500) 5_000 * (200 + jitter)

-- How the wait for the breaker ends: the call may go on, `CircuitOpen` is raised, or the given
-- rounds did not suffice.
pub data Waited : Type 0 where
  passed refused waiting : Waited

-- The rest of a round, after its check; `again` runs the next one.
next_round :
    (jitter waited : ℕ) → Breaker → (ℕ → Waited × ℕ × Breaker) → Verdict → Waited × ℕ × Breaker
next_round jitter waited b again admitted = (passed, waited, b)
next_round jitter waited b again (circuit_open retry_in) =
    let n = nap retry_in jitter in
    let rest = again (waited + n) in
    if ltb max_breaker_wait (waited + n) then (refused, waited, b) else rest

-- The loop on `breaker.check()`. A round has the time of its check and the jitter of its nap. The
-- middle result is the time slept.
pub await_breaker : Config → List (ℕ × ℕ) → ℕ → Breaker → Waited × ℕ × Breaker
unfolding next_round
await_breaker cfg [] waited b = (waiting, waited, b)
await_breaker cfg ((now, jitter) ∷ rounds) waited b =
    let (verdict, b') = check cfg now b in
    next_round jitter waited b' (λ w. await_breaker cfg rounds w b') verdict

-- What happens to one entry: the rounds of the breaker's loop, whether the waits for the two
-- semaphores end rather than being cancelled, and the times of the bucket's rounds, after which a
-- bucket that has not answered is cancelled.
pub record Course : Type 0 where
  pub rounds : List (ℕ × ℕ)
  pub global_ready : Bool
  pub domain_ready : Bool
  pub bucket_times : List ℕ

pub data Entry : Type 0 where
  entered raised_open cancelled : Entry

-- A semaphore's `acquire`: none if the wait is cancelled.
take_place : Bool → ℕ → Option ℕ
take_place false n = none
take_place true zero = none
take_place true (suc n) = some n

take_tokens : List ℕ → Option Bucket → Bool × Option Bucket
take_tokens times none = (true, none)
take_tokens times (some b) = let (done, b') = acquire 1 times b in (done, some b')

-- The three waits after the breaker, with their `except BaseException` handlers.
enter_bucket : String → Course → Gate → Entry × Gate
enter_bucket domain c g =
    let (done, bucket) = take_tokens c.bucket_times g.bucket in
    let g' = record g { bucket = bucket } in
    if done then (entered, g') else (
      cancelled,
      record (set_domain domain (domain_free domain g' + 1) g') { free = g.free + 1 },
    )

enter_domain : String → Course → Gate → Entry × Gate
enter_domain domain c g = elim (take_place c.domain_ready (domain_free domain g)) [
  | none ↦ (cancelled, record (set_domain domain (domain_free domain g) g) { free = g.free + 1 })
  | some n ↦ enter_bucket domain c (set_domain domain n g)
]

enter_global : String → Course → Gate → Entry × Gate
enter_global domain c g = elim (take_place c.global_ready g.free) [
  | none ↦ (cancelled, g)
  | some n ↦ enter_domain domain c (record g { free = n })
]

enter_waited : String → Course → Waited → Gate → Entry × Gate
enter_waited domain c passed g = enter_global domain c g
enter_waited domain c refused g = (raised_open, g)
enter_waited domain c waiting g = (cancelled, g)

-- `__aenter__`
pub enter : Config → String → Course → Gate → Entry × Gate
enter cfg domain c g =
    let (waited, _, b) = await_breaker cfg c.rounds 0 g.breaker in
    enter_waited domain c waited (record g { breaker = b })

-- `__aexit__`
pub exit : String → Gate → Gate
exit domain g = record (set_domain domain (domain_free domain g + 1) g) { free = g.free + 1 }
