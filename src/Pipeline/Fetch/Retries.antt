-- ===== src/Pipeline/Fetch/Retries.antt =====
-- The retry loop: how often it tries, what it retries, and what it reports to the breaker.
use email_extractor.Common.{
  ℕ, suc, ◌+◌, ◌++◌, ◌≤◌, ◌≡◌, refl, Bool, true, false, not, ◌&&◌, ◌⊎◌, if◌then◌else◌, inl, inr,
  List, [], ◌∷◌, arith, length, Bool-cases,
}
use email_extractor.Pipeline.Fetch.{
  Attempt, served, refused, raised, cancelled, Course, is_retryable, last_attempt, reported,
  attempt_then, attempt_from, attempt_with_retries, retry_delays, pause_after,
}

-- One if the last attempt was refused by the breaker, or cancelled on its way.
abbrev pub unreported : Attempt → ℕ
unreported refused = 1
unreported cancelled = 1
unreported _ = 0

-- An error that the loop retries while it has delays left.
abbrev pub is_transient_failure : Attempt → Bool
is_transient_failure (raised e) = is_retryable e
is_transient_failure _ = false

-- What the retry loop keeps to, with so many delays left: it tries at most once more than there are
-- delays, sleeps between the attempts, reports each attempt exactly once, but for a last one that was
-- refused or cancelled, and ends with an error that it could retry only when the delays are used up, or its
-- sleep is cancelled.
pub record KeepsTo (delays : ℕ) (backed : Bool) (course : Course) : Type 0 where
  pub bounded : course.attempts ≤ suc delays
  pub slept : suc (length course.sleeps) ≡ course.attempts
  pub told :
      length course.reports + (if backed then unreported course.outcome else course.attempts)
      ≡ course.attempts
  pub tried :
      ((is_transient_failure course.outcome && not course.stopped) ≡ false)
      ⊎ (course.attempts ≡ suc delays)

last_attempt-KeepsTo :
    (delays : ℕ) (backed : Bool) (a : Attempt)
    → (is_transient_failure a ≡ false) ⊎ (delays ≡ 0)
    → KeepsTo delays backed (last_attempt backed a)
unfolding last_attempt reported
last_attempt-KeepsTo delays backed a final = record {
  bounded = omega arith;
  slept = refl;
  told = ground arith;
  tried = ground (arith, final);
}

attempt_then-KeepsTo :
    (delays : ℕ) (backed : Bool) (jittered : ℕ → ℕ) (delay : ℕ) (stopped : Bool) (rest : Course)
    (a : Attempt)
    → KeepsTo delays backed rest
    → KeepsTo (suc delays) backed (attempt_then backed jittered delay stopped rest a)
unfolding attempt_then reported last_attempt pause_after
attempt_then-KeepsTo delays backed jittered delay stopped rest (served r) h =
    last_attempt-KeepsTo (suc delays) backed (served r) (inl refl)
attempt_then-KeepsTo delays backed jittered delay stopped rest refused h =
    last_attempt-KeepsTo (suc delays) backed refused (inl refl)
attempt_then-KeepsTo delays backed jittered delay stopped rest cancelled h =
    last_attempt-KeepsTo (suc delays) backed cancelled (inl refl)
attempt_then-KeepsTo delays backed jittered delay stopped rest (raised e) h =
    elim (Bool-cases (is_retryable e)) [
      | inr n ↦ rw n (last_attempt-KeepsTo (suc delays) backed (raised e) (inl n))
      | inl t ↦ rw t (slept_or_stopped stopped)
    ]
  where
    slept_or_stopped :
        (stop : Bool)
        → KeepsTo (suc delays) backed (
            if stop then record (last_attempt backed (raised e)) { stopped = true } else record {
              outcome = rest.outcome;
              stopped = rest.stopped;
              attempts = suc rest.attempts;
              reports = reported backed (raised e) ++ rest.reports;
              sleeps = pause_after jittered delay e ∷ rest.sleeps;
            })
    slept_or_stopped true = record {
      bounded = omega arith;
      slept = refl;
      told = ground arith;
      tried = inl (ground arith);
    }
    slept_or_stopped false = record {
      bounded = omega (arith, h.bounded);
      slept = omega (arith, h.slept);
      told = ground (arith, h.told);
      tried = ground (arith, h.tried);
    }

attempt_from-KeepsTo :
    (backed : Bool) (jittered : ℕ → ℕ) (asleep : ℕ → Bool) (fn : ℕ → Attempt) (k : ℕ)
    (delays : List ℕ)
    → KeepsTo (length delays) backed (attempt_from backed jittered asleep fn k delays)
unfolding attempt_from
attempt_from-KeepsTo backed jittered asleep fn k [] =
    last_attempt-KeepsTo 0 backed (fn k) (inr refl)
attempt_from-KeepsTo backed jittered asleep fn k (delay ∷ later) =
    attempt_then-KeepsTo (length later) backed jittered delay (asleep k)
      (attempt_from backed jittered asleep fn (suc k) later) (fn k)
      (attempt_from-KeepsTo backed jittered asleep fn (suc k) later)

-- A call of the fetcher makes at most three attempts, with one sleep between each two; a provider's
-- breaker hears of every attempt exactly once, but for a last one that it refused or that was cancelled
-- (after which the call ends, also where the breaker had let the attempt pass), and another fetcher's
-- breaker hears of none; and the call ends behind a transient error
-- only after the third attempt, or when its sleep is cancelled.
pub attempt_with_retries-KeepsTo :
    (backed : Bool) (jittered : ℕ → ℕ) (asleep : ℕ → Bool) (fn : ℕ → Attempt)
    → KeepsTo 2 backed (attempt_with_retries backed jittered asleep fn)
unfolding attempt_with_retries
attempt_with_retries-KeepsTo backed jittered asleep fn =
    attempt_from-KeepsTo backed jittered asleep fn 0 retry_delays
