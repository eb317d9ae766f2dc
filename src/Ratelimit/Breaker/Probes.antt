-- ===== src/Ratelimit/Breaker/Probes.antt =====
-- The half-open state: how many calls are admitted, what their results decide, and the escalation
-- of the open window.
use email_extractor.Common.{
  ℕ, suc, ◌+◌, ◌*◌, ◌^◌, ◌≤◌, ◌<◌, min, String, ◌≡◌, ◌≢◌, refl, ap, ◌∙◌, Bool, List, [], ◌∷◌, ◌++◌,
  map, arith, leb, if◌then◌else◌, length, length-append, All,
}
use mathlib.Core.List.{append_assoc}
use native.Mathlib.Nat.{add-zero}
use email_extractor.Ratelimit.Breaker.{
  closed, opened, half_open, Config, Breaker, refresh, check, admitted, circuit_open,
  check_refreshed, recovered, trip, reset, successes, note_reason, record_probe, record_call, Event,
  on_check, on_record, step, run,
}
use email_extractor.Ratelimit.Breaker.Invariant.{IsValid, IsSane}

-- The calls that a series of checks lets through.
pub admissions : Config → Breaker → List ℕ → ℕ
admissions cfg b [] = 0
admissions cfg b (now ∷ times) =
    let (verdict, b') = check cfg now b in
    elim verdict [
      | admitted ↦ suc (admissions cfg b' times)
      | circuit_open _ ↦ admissions cfg b' times
    ]

module _ (cfg : Config) where
  admissions-half_open :
      (b : Breaker) (times : List ℕ)
      → b.state ≡ half_open
      → b.probes_admitted ≤ cfg.probes
      → b.probes_admitted + admissions cfg b times ≤ cfg.probes
  unfolding admissions check refresh check_refreshed
  admissions-half_open b [] e h = omega arith
  admissions-half_open b (now ∷ times) e h = ground (
    arith,
    admissions-half_open b times,
    admissions-half_open (record b { probes_admitted = b.probes_admitted + 1 }) times,
  )

  -- Until a result is recorded, a breaker that is not closed admits at most `probes` calls,
  -- whatever the times of the checks.
  pub admissions-le-probes :
      (b : Breaker) (times : List ℕ)
      → IsValid cfg b
      → b.state ≢ closed
      → admissions cfg b times ≤ cfg.probes
  unfolding admissions check refresh check_refreshed
  admissions-le-probes b [] v h = omega arith
  admissions-le-probes b (now ∷ times) v h =
      let fresh = record b { state = half_open; probe_results = []; probes_admitted = 0 } in
      ground (
        arith,
        admissions-le-probes b times v,
        admissions-half_open b (now ∷ times),
        admissions-half_open fresh times,
        admissions-half_open (record fresh { probes_admitted = 0 + 1 }) times,
      )

  -- A half-open breaker that has admitted all its probes refuses every later check and does not
  -- change, for ever: only a recorded result can move it.
  pub check-exhausted :
      (b : Breaker) (times : List ℕ)
      → b.state ≡ half_open
      → cfg.probes ≤ b.probes_admitted
      → (run cfg b (map on_check times) ≡ b)
        × All (λ now. check cfg now b ≡ (circuit_open 1000, b)) times
  unfolding check refresh check_refreshed run step
  check-exhausted b [] e h = (refl, tt)
  check-exhausted b (now ∷ times) e h =
      let rest = check-exhausted b times e h in
      let here : check cfg now b ≡ (circuit_open 1000, b) = ground arith in
      let stays : step cfg b (on_check now) ≡ b = ap (λ r. r.1) here in
      (ap (λ b'. run cfg b' (map on_check times)) stays ∙ rest.0, (here, rest.1))

  -- However often the window was escalated, a call that comes `max_open_seconds` after the breaker
  -- opened is let through.
  pub check-after_max :
      (b : Breaker) (now : ℕ)
      → IsSane cfg
      → IsValid cfg b
      → b.state ≡ opened
      → b.opened_at + cfg.max_open_seconds ≤ now
      → (check cfg now b).0 ≡ admitted
  unfolding check refresh check_refreshed
  check-after_max b now sane v e h = ground (arith, sane.some_probes)

-- The results of probes, reported one by one.
abbrev pub reports : List (ℕ × Bool × String) → List Event
reports = map (λ r. on_record r.0 r.1 r.2)

abbrev pub oks : List (ℕ × Bool × String) → List Bool
oks = map (λ r. r.1)

module _ (cfg : Config) where
  record_call-half_open :
      (b : Breaker) (now : ℕ) (ok : Bool) (reason : String)
      → b.state ≡ half_open
      → suc (length b.probe_results) < cfg.probes
      → let b' = record_call cfg now ok reason b in
        (b'.state ≡ half_open) × (b'.probe_results ≡ b.probe_results ++ ok ∷ [])
  unfolding record_call refresh note_reason record_probe
  record_call-half_open b now ok reason e h =
      ground (arith, length-append b.probe_results (ok ∷ []))

  record_call-last :
      (b : Breaker) (now : ℕ) (ok : Bool) (reason : String)
      → b.state ≡ half_open
      → suc (length b.probe_results) ≡ cfg.probes
      → (record_call cfg now ok reason b).state ≡ (
          if leb cfg.probes_needed (successes (b.probe_results ++ ok ∷ [])) then closed else opened)
  unfolding record_call refresh note_reason record_probe trip reset
  record_call-last b now ok reason e h = ground (arith, length-append b.probe_results (ok ∷ []))

  -- Once the results of `probes` calls are in, and not before, a half-open breaker closes if at
  -- least `probes_needed` of them succeeded, and opens again otherwise.
  pub reports-decide :
      (b : Breaker) (r : ℕ × Bool × String) (rs : List (ℕ × Bool × String))
      → b.state ≡ half_open
      → length b.probe_results + length (r ∷ rs) ≡ cfg.probes
      → (run cfg b (reports (r ∷ rs))).state ≡ (
          if leb cfg.probes_needed (successes (b.probe_results ++ oks (r ∷ rs)))
          then closed
          else opened)
  unfolding run step
  reports-decide b r [] e h = record_call-last b r.0 r.1 r.2 e (omega arith)
  reports-decide b r (r' ∷ rs) e h =
      let b' = record_call cfg r.0 r.1 r.2 b in
      let more = record_call-half_open b r.0 r.1 r.2 e (omega arith) in
      let grown = length-append b.probe_results (r.1 ∷ []) in
      let ih = reports-decide b' r' rs more.0 (rw more.1 (omega (arith, grown))) in
      let joined : b'.probe_results ++ oks (r' ∷ rs) ≡ b.probe_results ++ oks (r ∷ r' ∷ rs) =
        rw more.1 (append_assoc b.probe_results (r.1 ∷ []) (oks (r' ∷ rs))) in
      rw (← joined) ih

  abbrev pub trips : List ℕ → Breaker → Breaker
  trips [] b = b
  trips (now ∷ times) b = trips times (trip cfg now b)

  -- A breaker that has never closed since it first opened doubles its window each time it opens
  -- again, up to `max_open_seconds`.
  pub open_for-trips :
      (b : Breaker) (times : List ℕ) (now : ℕ)
      → b.closed_at ≡ 0
      → (trip cfg now (trips times b)).open_for
        ≡ min (cfg.open_seconds * 2 ^ (b.consecutive_opens + length times)) cfg.max_open_seconds
  unfolding trip recovered
  open_for-trips b [] now e = ground (arith, add-zero b.consecutive_opens)
  open_for-trips b (t ∷ times) now e =
      let b' = trip cfg t b in
      let opens : b'.consecutive_opens ≡ b.consecutive_opens + 1 = ground arith in
      let sum : b'.consecutive_opens + length times ≡ b.consecutive_opens + suc (length times) =
        omega (arith, opens) in
      rw (← sum) (open_for-trips b' times now e)
