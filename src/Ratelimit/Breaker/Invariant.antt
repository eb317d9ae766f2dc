-- ===== src/Ratelimit/Breaker/Invariant.antt =====
-- The invariant of a breaker over every sequence of calls.
use email_extractor.Common.{
  ℕ, ◌*◌, ◌≤◌, ◌<◌, String, ◌≡◌, refl, Bool, ◌⊎◌, inl, inr, List, [], ◌∷◌, ◌++◌, arith, length,
  Bool-cases,
}
use email_extractor.Ratelimit.Breaker.{
  opened, Config, Breaker, init, is_half_open, refresh, check, trip, reset, trim, failures,
  note_reason, record_probe, record_outcome, record_call, Event, on_check, on_record, on_state,
  step, run,
}

-- A configuration that makes sense: some probes, some samples, and a window that can hold them.
pub record IsSane (cfg : Config) : Type 0 where
  pub some_probes : 0 < cfg.probes
  pub some_samples : 0 < cfg.min_samples

-- The recorded outcomes do not call for opening: too few of them, or a share of failures that is
-- at most the threshold.
abbrev pub IsHealthy : Config → List Bool → Type 0
IsHealthy cfg os =
    (length os < cfg.min_samples)
    ⊎ (failures os * cfg.threshold_den ≤ cfg.threshold_num * length os)

pub record IsValid (cfg : Config) (b : Breaker) : Type 0 where
  pub windowed : length b.outcomes ≤ cfg.window
  pub healthy : IsHealthy cfg b.outcomes
  pub escalated : b.open_for ≤ cfg.max_open_seconds
  pub admitted_few : b.probes_admitted ≤ cfg.probes
  pub undecided : length b.probe_results < cfg.probes
  pub counted : b.state ≡ opened → 0 < b.opened_count

length-trim : (w : ℕ) (os : List Bool) → length (trim w os) ≤ w
unfolding trim
length-trim w [] = omega arith
length-trim w (o ∷ os) = ground (arith, length-trim w os)

module _ (cfg : Config) (sane : IsSane cfg) where
  IsValid-init : IsValid cfg init
  IsValid-init = record {
    windowed = omega arith;
    healthy = inl sane.some_samples;
    escalated = omega arith;
    admitted_few = omega arith;
    undecided = sane.some_probes;
    counted = λ e. cc;
  }

  pub refresh-IsValid : (now : ℕ) (b : Breaker) → IsValid cfg b → IsValid cfg (refresh now b)
  unfolding refresh
  refresh-IsValid now b v = ground (arith, sane.some_probes)

  trip-IsValid : (now : ℕ) (b : Breaker) → IsValid cfg (trip cfg now b)
  unfolding trip
  trip-IsValid now b = record {
    windowed = omega arith;
    healthy = inl sane.some_samples;
    escalated = omega arith;
    admitted_few = omega arith;
    undecided = sane.some_probes;
    counted = λ e. omega arith;
  }

  reset-IsValid : (now : ℕ) (b : Breaker) → IsValid cfg b → IsValid cfg (reset now b)
  unfolding reset
  reset-IsValid now b v = record {
    windowed = omega arith;
    healthy = inl sane.some_samples;
    escalated = v.escalated;
    admitted_few = v.admitted_few;
    undecided = sane.some_probes;
    counted = λ e. cc;
  }

  check-IsValid : (now : ℕ) (b : Breaker) → IsValid cfg b → IsValid cfg (check cfg now b).1
  unfolding check
  check-IsValid now b v = ground (arith, sane.some_probes)

  note_reason-IsValid :
      (ok : Bool) (reason : String) (b : Breaker)
      → IsValid cfg b
      → IsValid cfg (note_reason ok reason b)
  unfolding note_reason
  note_reason-IsValid ok reason b v = ground arith

  record_probe-IsValid :
      (now : ℕ) (ok : Bool) (b : Breaker) → IsValid cfg b → IsValid cfg (record_probe cfg now ok b)
  unfolding record_probe
  record_probe-IsValid now ok b v =
      let b' = record b { probe_results = b.probe_results ++ ok ∷ [] } in
      ground (arith, trip-IsValid now b', reset-IsValid now b v, reset_probes now b ok)
    where
      reset_probes :
          (now : ℕ) (b : Breaker) (ok : Bool)
          → reset now (record b { probe_results = b.probe_results ++ ok ∷ [] }) ≡ reset now b
      reset_probes now b ok = unfold reset in refl

  record_outcome-IsValid :
      (now : ℕ) (ok : Bool) (b : Breaker)
      → IsValid cfg b
      → IsValid cfg (record_outcome cfg now ok b)
  unfolding record_outcome
  record_outcome-IsValid now ok b v =
      let os = trim cfg.window (b.outcomes ++ ok ∷ []) in
      ground (
        arith,
        trip-IsValid now (record b { outcomes = os }),
        length-trim cfg.window (b.outcomes ++ ok ∷ []),
      )

  record_call-IsValid :
      (now : ℕ) (ok : Bool) (reason : String) (b : Breaker)
      → IsValid cfg b
      → IsValid cfg (record_call cfg now ok reason b)
  unfolding record_call
  record_call-IsValid now ok reason b v =
      let b' = refresh now (note_reason ok reason b) in
      let v' = refresh-IsValid now (note_reason ok reason b) (note_reason-IsValid ok reason b v) in
      elim (Bool-cases (is_half_open b'.state)) [
        | inl e ↦ rw e (record_probe-IsValid now ok b' v')
        | inr e ↦ rw e (record_outcome-IsValid now ok b' v')
      ]

  step-IsValid : (b : Breaker) (e : Event) → IsValid cfg b → IsValid cfg (step cfg b e)
  unfolding step
  step-IsValid b (on_check now) v = check-IsValid now b v
  step-IsValid b (on_record now ok reason) v = record_call-IsValid now ok reason b v
  step-IsValid b (on_state now) v = refresh-IsValid now b v

  run_from-IsValid : (b : Breaker) (es : List Event) → IsValid cfg b → IsValid cfg (run cfg b es)
  unfolding run
  run_from-IsValid b [] v = v
  run_from-IsValid b (e ∷ es) v = run_from-IsValid (step cfg b e) es (step-IsValid b e v)

  -- After any calls, with any results at any times, a breaker keeps at most `window` outcomes, whose
  -- share of failures would not open it; its open window is at most `max_open_seconds`; no more
  -- than `probes` calls are admitted as probes; and fewer than `probes` probe results are pending.
  pub run-IsValid : (es : List Event) → IsValid cfg (run cfg init es)
  run-IsValid es = run_from-IsValid init es IsValid-init
