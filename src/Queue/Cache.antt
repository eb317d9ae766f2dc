-- ===== src/Queue/Cache.antt =====
-- A row that is retried does not get back the failure that it is retried for.
use email_extractor.Common.{
  ℕ, ◌+◌, ◌<◌, ◌≡◌, refl, sym, Bool, true, false, not, ◌&&◌, inl, inr, Bool-cases, Option-cases,
  Option, none, some, List, [], ◌∷◌, arith, ◌==◌, String, Text, eq_text_refl, text_eq, find_first,
  any, All,
}
use email_extractor.Queue.State.{Job, Row, Site, Tables, is_at, update}
use email_extractor.Queue.Claim.{
  Claim, claim, claim_row, claim_from_job, pick_row, pick_jobs, try_jobs, is_available,
}
use email_extractor.Queue.Consistency.Claiming.{first_by_seq_of}
use email_extractor.Queue.Locks.{floor_of, failed_status, cache_usable, cached_result}
use email_extractor.Queue.Finish.{retried_row, is_retryable_row, requeue_failed}

cache_usable-retried :
    (now t later : ℕ) (job : Job) (s : Site)
    → s.finished_at ≡ some t
    → t < now
    → failed_status s.status ≡ true
    → cache_usable later job s.finished_at s.status s.result (some now) ≡ false
unfolding cache_usable floor_of
cache_usable-retried now t later job s done before bad = ground arith

abbrev is_since : ℕ → Option ℕ → Bool
is_since now none = false
is_since now (some t) = t == now

-- A row of the domain that the retry did not send back.
abbrev is_left_behind : (now job_id : ℕ) → Text → Row → Bool
is_left_behind now job_id domain r = is_at job_id domain r && not (is_since now r.requeued_at)

none_left_behind :
    (now job_id : ℕ) (domain : Text) (rows : List Row)
    → All (λ r. is_at job_id domain r ≡ true → is_retryable_row job_id r ≡ true) rows
    → any
        (is_left_behind now job_id domain)
        (update (is_retryable_row job_id) (retried_row now) rows)
      ≡ false
unfolding update retried_row
none_left_behind now job_id domain [] h = refl
none_left_behind now job_id domain (r ∷ rows) h =
    let ih = none_left_behind now job_id domain rows h.1 in
    elim (Bool-cases (is_retryable_row job_id r)) [
      | inl t ↦ rw t (ground (arith, ih))
      | inr f ↦ rw f (elim (Bool-cases (is_at job_id domain r)) [
        | inl at ↦ cc (h.0 at)
        | inr away ↦ ground (arith, ih)
      ])
    ]

pick_row-of :
    (now : ℕ) (locked : Row → Bool) (job_id : ℕ) (db : Tables) (r : Row)
    → pick_row now locked job_id db ≡ some r
    → ((r.job_id == job_id) ≡ true) × ((q : Row → Bool) → q r ≡ true → any q db.rows ≡ true)
unfolding pick_row
pick_row-of now locked job_id db r e =
    let of_job =
      first_by_seq_of (λ r. r.job_id == job_id && is_available now r && not (locked r)) db.rows r
        e in
    (ground (arith, of_job.0), of_job.1)

-- The row that a claim was given.
abbrev IsOf : Tables → Claim → Row → Type 0
IsOf db c r =
    (is_at c.job_id c.domain r ≡ true)
    × (c.not_before ≡ r.requeued_at)
    × ((q : Row → Bool) → q r ≡ true → any q db.rows ≡ true)

-- A claim is of a row of its job.
try_jobs-IsOf :
    (now : ℕ) (locked : Row → Bool) (worker : String) (serial : ℕ) (js : List Job) (db : Tables)
    (c : Claim)
    → (try_jobs now locked worker serial js db).0 ≡ some c
    → (r : Row) × IsOf db c r
unfolding try_jobs claim_from_job claim_row
try_jobs-IsOf now locked worker serial [] db c e = cc
try_jobs-IsOf now locked worker serial (j ∷ js) db c e =
    elim (Option-cases (pick_row now locked j.id db)) [
      | inl n ↦
          try_jobs-IsOf now locked worker (serial + 1) js db c
            (rw (n, claim_from_job, try_jobs) at e)
      | inr (r, p) ↦
          let made : Claim = record {
            job_id = j.id;
            domain = r.domain;
            attempts = r.attempts + 1;
            token = record { worker = worker; serial = serial };
            not_before = r.requeued_at;
          } in
          let given : some made ≡ some c = rw (p, claim_from_job, try_jobs) at e in
          let same : made ≡ c = cc in
          let of_job = pick_row-of now locked j.id db r p in
          (r, rw (sym same) (ground (arith, eq_text_refl r.domain, of_job.0), refl, of_job.1))
    ]

is_since-some : (now : ℕ) (o : Option ℕ) → is_since now o ≡ true → o ≡ some now
is_since-some now none h = cc
is_since-some now (some t) h = ground arith

-- When `requeue_failed` has sent back a job's row for a domain, the next claim of the domain for that job
-- does not get a failure from the shared cache that is older than the retry, whatever the job's settings and
-- whenever it asks. The table's row for the domain is all that is read of the cache then.
pub cached_result-retried :
    (now job_id t at later serial : ℕ) (locked : Row → Bool) (worker : String) (db u : Tables)
    (c : Claim) (job : Job) (s : Site)
    → All (λ r. is_at job_id c.domain r ≡ true → is_retryable_row job_id r ≡ true) db.rows
    → (claim at locked worker serial (requeue_failed now job_id db).1).0 ≡ some c
    → c.job_id ≡ job_id
    → find_first (λ a. text_eq.beq a.domain c.domain) u.sites ≡ some s
    → s.finished_at ≡ some t
    → t < now
    → failed_status s.status ≡ true
    → cached_result later u job c.domain c.not_before ≡ none
unfolding claim requeue_failed cached_result
cached_result-retried now job_id t at later serial locked worker db u c job s all e same found done
      before bad =
    let (r, (at_row, given, somewhere)) =
      try_jobs-IsOf at locked worker serial (pick_jobs at db') db' c e in
    let sent = none_left_behind now job_id c.domain db.rows all in
    let since = since_retry r (rw same at at_row) somewhere sent in
    let usable : cache_usable later job s.finished_at s.status s.result c.not_before ≡ false =
      rw (given, since) (cache_usable-retried now t later job s done before bad) in
    rw (found, cached_result, usable)
  where
    db' : Tables
    db' = (requeue_failed now job_id db).1

    since_retry :
        (r : Row)
        → is_at job_id c.domain r ≡ true
        → ((q : Row → Bool) → q r ≡ true → any q db'.rows ≡ true)
        → any
            (is_left_behind now job_id c.domain)
            (update (is_retryable_row job_id) (retried_row now) db.rows)
          ≡ false
        → r.requeued_at ≡ some now
    since_retry r at_row somewhere sent = elim (Bool-cases (is_since now r.requeued_at)) [
      | inl y ↦ is_since-some now r.requeued_at y
      | inr n ↦ let left = somewhere (is_left_behind now job_id c.domain) (ground arith) in cc
    ]
