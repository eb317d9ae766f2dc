-- ===== src/Pipeline/Run/Attempts.antt =====
-- How often a domain is attempted, and what the last attempt decides.
use email_extractor.Common.{
  ℕ, zero, suc, ◌+◌, ◌≤◌, ◌≡◌, refl, sym, Bool, false, ◌⊎◌, Option, none, inl, inr, some, arith,
  Text, Bool-cases, Option-cases,
}
use email_extractor.Schemas.{DomainResult}
use email_extractor.Pipeline.Run.{
  Scratch, Found, Ended, Processed, attempt_domain, process_from, process_domain,
}
use email_extractor.Worker.{is_retryable_reason}

-- A result that asks for another attempt.
abbrev pub asks_again : Option DomainResult → Bool
asks_again none = false
asks_again (some r) = is_retryable_reason r.error_reason

-- The result is that of the last attempt made; there are at most so many more; and a result that
-- asks for another attempt is only given when there is none left.
pub record Stops (domain : Text) (extract : Scratch → Found) (run : ℕ → Ended) (attempt left : ℕ)
    (p : Processed) : Type 0 where
  pub bounded : p.attempts ≤ suc left
  pub last :
      (k : ℕ) × (attempt + p.attempts ≡ suc k) × (p.result ≡ attempt_domain domain extract (run k))
  pub exhausted : (asks_again p.result ≡ false) ⊎ (p.attempts ≡ suc left)

process_from-Stops :
    (domain : Text) (extract : Scratch → Found) (run : ℕ → Ended) (attempt left : ℕ)
    → Stops domain extract run attempt left (process_from domain extract run attempt left)
unfolding process_from
process_from-Stops domain extract run attempt zero = record {
  bounded = omega arith;
  last = (attempt, omega arith, refl);
  exhausted = inr refl;
}
process_from-Stops domain extract run attempt (suc left) =
    let again = process_from-Stops domain extract run (suc attempt) left in
    elim (Option-cases (attempt_domain domain extract (run attempt))) [
      | inl e ↦
          rw (e, process_from)
            (record {
              bounded = omega arith;
              last = (attempt, omega arith, sym e);
              exhausted = inl refl;
            })
      | inr (r, e) ↦ elim (Bool-cases (is_retryable_reason r.error_reason)) [
        | inr n ↦
            rw (e, n, process_from)
              (record {
                bounded = omega arith;
                last = (attempt, omega arith, sym e);
                exhausted = inl n;
              })
        | inl n ↦
            rw (e, n, process_from)
              (record {
                bounded = omega (arith, again.bounded);
                last = (again.last.0, omega (arith, again.last.1), again.last.2);
                exhausted = ground (arith, again.exhausted);
              })
      ]
    ]

-- A domain is attempted at most `max_domain_attempts` times; the result is that of the last attempt; and it
-- is `circuit_open`, the reason that asks for another attempt, only when all of them were made.
pub process_domain-Stops :
    (domain : Text) (extract : Scratch → Found) (run : ℕ → Ended)
    → Stops domain extract run 1 2 (process_domain domain extract run)
unfolding process_domain
process_domain-Stops domain extract run = process_from-Stops domain extract run 1 2
