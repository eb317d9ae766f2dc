-- ===== src/Ratelimit/Tests.antt =====
-- The properties of the rate limiter at concrete inputs.
use email_extractor.Common.{
  ℕ, zero, suc, ◌+◌, ◌*◌, ◌-◌, ◌≤◌, ◌≡◌, refl, map, Bool, true, false, ◌∷◌, [], List, none, some,
  arith, inl, inr, String, sym, Bool-cases, string_eq,
}
use email_extractor.Ratelimit.Breaker.{
  opened, half_open, Breaker, init, defaults, Event, on_record, run,
}
use email_extractor.Ratelimit.Breaker.Invariant.{IsSane, IsValid, run-IsValid}
use email_extractor.Ratelimit.Breaker.Probes.{admissions, admissions-le-probes}
use email_extractor.Ratelimit.Bucket.{Bucket, token_units, new_bucket, try_acquire, bucket_script}
use email_extractor.Ratelimit.Bucket.Rate.{
  Call, time_of, on_acquire, on_penalize, serve, last_time, rate_bound,
}
use email_extractor.Ratelimit.Bucket.Redis.{
  mirror, bucket_script-mirror, serve_shared, latest, shared_rate_bound,
}
use email_extractor.Ratelimit.Gate.{Gate, domain_free, Course, enter}
use email_extractor.Ratelimit.Gate.Slots.{PlaceTaken, Leaves, enter-Leaves}

defaults-IsSane : IsSane defaults
defaults-IsSane = record { some_probes = omega arith; some_samples = omega arith }

-- Twenty failures, which open the breaker.
abbrev failing : List Event
failing =
    on_record 10 false "down"
    ∷ on_record 11 false "down"
    ∷ on_record 12 false "down"
    ∷ on_record 13 false "down"
    ∷ on_record 14 false "down"
    ∷ on_record 15 false "down"
    ∷ on_record 16 false "down"
    ∷ on_record 17 false "down"
    ∷ on_record 18 false "down"
    ∷ on_record 19 false "down"
    ∷ on_record 20 false "down"
    ∷ on_record 21 false "down"
    ∷ on_record 22 false "down"
    ∷ on_record 23 false "down"
    ∷ on_record 24 false "down"
    ∷ on_record 25 false "down"
    ∷ on_record 26 false "down"
    ∷ on_record 27 false "down"
    ∷ on_record 28 false "down"
    ∷ on_record 29 false "down"
    ∷ []

abbrev tripped : Breaker
tripped = record init {
  state = opened;
  opened_at = 29;
  open_for = 60_000;
  consecutive_opens = 1;
  opened_count = 1;
}

tripped-IsValid : IsValid defaults tripped
tripped-IsValid = record {
  windowed = omega arith;
  healthy = inl (omega arith);
  escalated = omega arith;
  admitted_few = omega arith;
  undecided = omega arith;
  counted = λ e. omega arith;
}

run-IsValid_example : IsValid defaults (run defaults init failing)
run-IsValid_example = run-IsValid defaults defaults-IsSane failing

admissions-le-probes_example : admissions defaults tripped (1 ∷ 61_000 ∷ 61_001 ∷ []) ≤ 5
admissions-le-probes_example =
    admissions-le-probes defaults tripped (1 ∷ 61_000 ∷ 61_001 ∷ []) tripped-IsValid (λ e. cc)

abbrev exhausted : Breaker
exhausted = record init { state = half_open; probes_admitted = 5; opened_count = 1 }

abbrev probing : Breaker
probing = record exhausted { probe_results = true ∷ true ∷ [] }

abbrev last_results : List (ℕ × Bool × String)
last_results = (8, false, "down") ∷ (9, true, "") ∷ []

abbrev calls : List Call
calls = on_acquire 1 10 ∷ on_penalize 25 60_000 20 ∷ on_acquire 1 500 ∷ []

rate_bound_example :
    (serve (new_bucket 500 (some 10) 5) calls).0 * token_units
    ≤ (new_bucket 500 (some 10) 5).capacity + (last_time 5 calls - 5) * (500 * 100)
rate_bound_example =
    rate_bound 500 5 (some 10) calls (omega arith, (omega arith, (omega arith, tt)))

-- A bucket of one token that is empty.
abbrev empty_bucket : Bucket
empty_bucket = record {
  rate_per_minute = 600;
  capacity = 6_000_000;
  tokens = 0;
  updated = 100;
  penalty_factor = 100;
  penalty_until = 0;
}

bucket_script-mirror_example :
    bucket_script 600 6_000_000 150 150 1 (mirror 1_000 empty_bucket)
    ≡ ((try_acquire 1 150 empty_bucket).0, mirror 3_600_150 (try_acquire 1 150 empty_bucket).1)
bucket_script-mirror_example =
    bucket_script-mirror 1 150 1_000 empty_bucket (omega arith) (omega arith) (omega arith)

-- The calls as they reach Redis, whose clock is a second ahead.
abbrev shared_calls : List (ℕ × Call)
shared_calls = map (λ c. (1_000 + time_of c, c)) calls

shared_rate_bound_example :
    (serve_shared 500 60_000_000
        (record { hash = none; expires = 0; penalty = none })
        ((1_005, on_acquire 1 5) ∷ shared_calls)).0
      * token_units
    ≤ 60_000_000 + (latest 5 shared_calls - 5) * (500 * 100)
shared_rate_bound_example =
    shared_rate_bound 500 60_000_000 1 5 1_005 shared_calls (omega arith, (omega arith, tt))

abbrev gate : Gate
gate = record {
  breaker = init;
  bucket = none;
  free = 100;
  per_domain_limit = 2;
  per_domain = ("acme.com", 2) ∷ [];
}

abbrev course : Course
course = record {
  rounds = (50, 0) ∷ [];
  global_ready = true;
  domain_ready = true;
  bucket_times = [];
}

enter-Leaves_example : Leaves "acme.com" gate (enter defaults "acme.com" course gate)
enter-Leaves_example = enter-Leaves defaults "acme.com" course gate

-- The gate after that entry.
abbrev busy : Gate
busy = record gate { free = 99; per_domain = ("acme.com", 1) ∷ [] }

busy-PlaceTaken : PlaceTaken "acme.com" gate busy
busy-PlaceTaken = record {
  limit = refl;
  free = refl;
  own = unfold domain_free in refl;
  others = λ d ne. elim (Bool-cases (string_eq.beq "acme.com" d)) [
    | inl e ↦ absurd (ne (sym ((string_eq.beq_iff "acme.com" d).0 e)))
    | inr e ↦ unfold domain_free in rw e
  ];
}

abbrev rounds_of : ℕ → List (ℕ × ℕ)
rounds_of zero = []
rounds_of (suc n) = (n, 0) ∷ rounds_of n
