-- ===== src/Ratelimit/Breaker.antt =====
-- `CircuitBreaker` of app/ratelimit.py. Times are milliseconds of the monotonic clock, passed to
-- each call; the threshold 0.30 is a fraction.
pub mod Invariant
pub mod Probes
use email_extractor.Common.{
  ℕ, zero, suc, ◌+◌, ◌*◌, ◌-◌, ◌^◌, min, String, ◌≡◌, Bool, true, false, not, ◌&&◌, List, [], ◌∷◌,
  ◌++◌, Option, none, some, ltb, leb, ◌==◌, if◌then◌else◌, length, count_if, Eq, get, put, or_else,
  string_eq,
}

-- `CircuitBreaker._state`; `open` is a word of the language, so that state is `opened`.
pub data State : Type 0 where
  closed opened half_open : State

-- The dataclass's parameters.
pub record Config : Type 0 where
  pub window : ℕ
  pub threshold_num : ℕ
  pub threshold_den : ℕ
  pub open_seconds : ℕ
  pub max_open_seconds : ℕ
  pub probes : ℕ
  pub probes_needed : ℕ
  pub min_samples : ℕ
  pub recovery_multiple : ℕ

-- Their default values.
abbrev pub defaults : Config
defaults = record {
  window = 200;
  threshold_num = 30;
  threshold_den = 100;
  open_seconds = 60_000;
  max_open_seconds = 300_000;
  probes = 5;
  probes_needed = 3;
  min_samples = 20;
  recovery_multiple = 4;
}

abbrev pub Reasons : Type 0
Reasons = List (String × ℕ)

-- The dataclass's fields with `init=False`. `outcomes` lists the oldest first.
pub record Breaker : Type 0 where
  pub outcomes : List Bool
  pub state : State
  pub opened_at : ℕ
  pub closed_at : ℕ
  pub open_for : ℕ
  pub consecutive_opens : ℕ
  pub probe_results : List Bool
  pub probes_admitted : ℕ
  pub opened_count : ℕ
  pub failure_reasons : Reasons
  pub last_open_reasons : Reasons

abbrev pub init : Breaker
init = record {
  outcomes = [];
  state = closed;
  opened_at = 0;
  closed_at = 0;
  open_for = 0;
  consecutive_opens = 0;
  probe_results = [];
  probes_admitted = 0;
  opened_count = 0;
  failure_reasons = [];
  last_open_reasons = [];
}

abbrev pub is_open : State → Bool
is_open opened = true
is_open _ = false

abbrev pub is_half_open : State → Bool
is_half_open half_open = true
is_half_open _ = false

-- The property `state`, which moves an open breaker whose window has run to half-open. The code
-- tests `now - opened_at >= open_for`.
pub refresh : ℕ → Breaker → Breaker
refresh now b =
    if is_open b.state && leb (b.opened_at + b.open_for) now
    then record b { state = half_open; probe_results = []; probes_admitted = 0 }
    else b

pub seconds_until_close : ℕ → Breaker → ℕ × Breaker
unfolding refresh
seconds_until_close now b =
    let b' = refresh now b in (if is_open b'.state then b'.opened_at + b'.open_for - now else 0, b')

-- What `check` does: it returns, or it raises `CircuitOpen` with `retry_in`.
pub data Verdict : Type 0 where
  admitted : Verdict
  circuit_open : ℕ → Verdict

check_refreshed : Config → ℕ → State → Breaker → Verdict × Breaker
check_refreshed cfg now closed b = (admitted, b)
check_refreshed cfg now opened b = (circuit_open (b.opened_at + b.open_for - now), b)
check_refreshed cfg now half_open b =
    if leb cfg.probes b.probes_admitted
    then (circuit_open 1000, b)
    else (admitted, record b { probes_admitted = b.probes_admitted + 1 })

pub check : Config → ℕ → Breaker → Verdict × Breaker
unfolding refresh check_refreshed
check cfg now b = let b' = refresh now b in check_refreshed cfg now b'.state b'

-- `self._closed_at and now - self._closed_at > self.open_seconds * self.recovery_multiple`
recovered : Config → ℕ → Breaker → Bool
recovered cfg now b =
    not (b.closed_at == 0) && ltb (b.closed_at + cfg.open_seconds * cfg.recovery_multiple) now

-- `_open`
pub trip : Config → ℕ → Breaker → Breaker
trip cfg now b =
    let opens = if recovered cfg now b then 0 else b.consecutive_opens in
    record {
      outcomes = [];
      state = opened;
      opened_at = now;
      closed_at = b.closed_at;
      open_for = min (cfg.open_seconds * 2 ^ opens) cfg.max_open_seconds;
      consecutive_opens = opens + 1;
      probe_results = [];
      probes_admitted = 0;
      opened_count = b.opened_count + 1;
      failure_reasons = [];
      last_open_reasons = b.failure_reasons;
    }

-- `_close`
reset : ℕ → Breaker → Breaker
reset now b = record b { state = closed; closed_at = now; outcomes = []; probe_results = [] }

-- `while len(self._outcomes) > self.window: self._outcomes.popleft()`
trim : ℕ → List Bool → List Bool
trim window [] = []
trim window (o ∷ os) =
    let rest = trim window os in if ltb window (length (o ∷ os)) then rest else o ∷ os

abbrev pub failures : List Bool → ℕ
failures = count_if not

abbrev pub successes : List Bool → ℕ
successes = count_if (λ ok. ok)

-- `failures / len(outcomes) > threshold`, without the division.
abbrev pub too_many : Config → List Bool → Bool
too_many cfg os = ltb (cfg.threshold_num * length os) (failures os * cfg.threshold_den)

note_reason : Bool → String → Breaker → Breaker
note_reason ok reason b =
    if not ok && not (string_eq.beq reason "")
    then record b {
      failure_reasons = put reason (or_else (get reason b.failure_reasons) 0 + 1) b.failure_reasons;
    }
    else b

record_probe : Config → ℕ → Bool → Breaker → Breaker
record_probe cfg now ok b =
    let b' = record b { probe_results = b.probe_results ++ ok ∷ [] } in
    if leb cfg.probes (length b'.probe_results)
    then (if leb cfg.probes_needed (successes b'.probe_results)
        then reset now b'
        else trip cfg now b')
    else b'

record_outcome : Config → ℕ → Bool → Breaker → Breaker
record_outcome cfg now ok b =
    let b' = record b { outcomes = trim cfg.window (b.outcomes ++ ok ∷ []) } in
    if ltb (length b'.outcomes) cfg.min_samples
    then b'
    else if too_many cfg b'.outcomes
    then trip cfg now b'
    else b'

-- `record`, a word of the language.
pub record_call : Config → ℕ → Bool → String → Breaker → Breaker
record_call cfg now ok reason b =
    let b' = refresh now (note_reason ok reason b) in
    if is_half_open b'.state then record_probe cfg now ok b' else record_outcome cfg now ok b'

-- The calls that reach a breaker: `check`, `record`, and a read of `state`.
pub data Event : Type 0 where
  on_check : ℕ → Event
  on_record : ℕ → Bool → String → Event
  on_state : ℕ → Event

pub step : Config → Breaker → Event → Breaker
step cfg b (on_check now) = (check cfg now b).1
step cfg b (on_record now ok reason) = record_call cfg now ok reason b
step cfg b (on_state now) = refresh now b

pub run : Config → Breaker → List Event → Breaker
run cfg b [] = b
run cfg b (e ∷ es) = run cfg (step cfg b e) es
