-- ===== src/Queue/Consistency/Claiming.antt =====
-- Claiming, locking and requeueing keep the invariant.
use email_extractor.Common.{
  ℕ, ◌+◌, ◌≡◌, ◌≢◌, refl, or_else, Bool, true, false, not, ◌&&◌, ◌||◌, ◌⊎◌, inl, inr, Option, none,
  some, List, [], ◌∷◌, arith, ◌==◌, if◌then◌else◌, String, text_eq, any, select, All-imp, is_some,
  Bool-cases, Option-cases,
}
use email_extractor.Queue.State.{
  JobStatus, Token, Job, Row, Tables, is_queued, is_done_job, is_queued_job, is_pending, is_at,
  update,
}
use email_extractor.Queue.Claim.{
  Claim, is_available, earlier, first_by_seq, pick_row, pick_jobs, claim_row, claim_from_job,
  start_job, try_jobs, claim,
}
use email_extractor.Queue.Locks.{lock_domain, unlock_domain}
use email_extractor.Queue.Finish.{is_claimed_by, requeued_row, requeue}
use email_extractor.Queue.Consistency.{
  IsSound, IsClosed, IsConsistent, rows-IsConsistent, jobs-IsConsistent, any-update, update-All,
}

pub lock_domain-IsConsistent :
    (now : ℕ) (c : Claim) (db : Tables) → IsConsistent db → IsConsistent (lock_domain now c db).1
unfolding lock_domain
lock_domain-IsConsistent now c db h = record { sound = h.sound; closed = h.closed }

pub unlock_domain-IsConsistent :
    (c : Claim) (db : Tables) → IsConsistent db → IsConsistent (unlock_domain c db)
unfolding unlock_domain
unlock_domain-IsConsistent c db h = record { sound = h.sound; closed = h.closed }

pub requeue-IsConsistent :
    (now : ℕ) (c : Claim) (delay : ℕ) (count_attempt : Bool) (db : Tables)
    → IsConsistent db
    → IsConsistent (requeue now c delay count_attempt db)
unfolding requeue
requeue-IsConsistent now c delay count_attempt db h =
    rows-IsConsistent (is_claimed_by c) (requeued_row now delay count_attempt) sound pending db h
  where
    sound :
        (r : Row)
        → is_claimed_by c r ≡ true
        → IsSound r
        → IsSound (requeued_row now delay count_attempt r)
    sound r e s = unfold requeued_row in record { held = refl; tried = λ e. cc }

    pending :
        (k : ℕ) (r : Row)
        → is_claimed_by c r ≡ true
        → is_pending k r ≡ false
        → is_pending k (requeued_row now delay count_attempt r) ≡ false
    pending k r e p = unfold requeued_row in ground arith

earlier-cases : (a : Row) (o : Option Row) {r : Row} → earlier a o ≡ some r → (r ≡ a) ⊎ (o ≡ some r)
unfolding earlier
earlier-cases a none e = inl (ground arith)
earlier-cases a (some s) e = ground arith

-- A row that is picked passes the test, and is one of the rows.
pub first_by_seq_of :
    (p : Row → Bool) (rs : List Row) (r : Row)
    → first_by_seq (select p rs) ≡ some r
    → (p r ≡ true) × ((q : Row → Bool) → q r ≡ true → any q rs ≡ true)
unfolding first_by_seq
first_by_seq_of p [] r e = absurd (ground arith)
first_by_seq_of p (a ∷ rs) r e = elim (Bool-cases (p a)) [
  | inl t ↦ elim (earlier-cases a (first_by_seq (select p rs)) (rw t at e)) [
    | inl same ↦ (rw same t, λ q k. rw (rw same at k))
    | inr later ↦ let ih = first_by_seq_of p rs r later in (ih.0, λ q k. ground (arith, ih.1 q k))
  ]
  | inr t ↦ let ih = first_by_seq_of p rs r (rw t at e) in (ih.0, λ q k. ground (arith, ih.1 q k))
]

-- A row that is picked for a claim is a row of the job that is still to be worked on.
pub pick_row-pending :
    (now : ℕ) (locked : Row → Bool) (job_id : ℕ) (db : Tables) (r : Row)
    → pick_row now locked job_id db ≡ some r
    → (r.job_id ≡ job_id) × (is_queued r.state ≡ true) × (any (is_pending job_id) db.rows ≡ true)
unfolding pick_row
pick_row-pending now locked job_id db r e =
    let test = λ (a : Row). a.job_id == job_id && is_available now a && not (locked a) in
    let found = first_by_seq_of test db.rows r e in
    (
      ground (arith, found.0),
      ground (arith, found.0),
      found.1 (is_pending job_id) (ground (arith, found.0)),
    )

claim_row-IsSound : (now : ℕ) (tok : Token) (r : Row) → IsSound (claim_row now tok r)
unfolding claim_row
claim_row-IsSound now tok r = record { held = refl; tried = λ e. omega arith }

claimed-IsConsistent :
    (now : ℕ) (tok : Token) (r : Row) (db : Tables)
    → any (is_pending r.job_id) db.rows ≡ true
    → IsConsistent db
    → IsConsistent
        (record db { rows = update (is_at r.job_id r.domain) (claim_row now tok) db.rows })
claimed-IsConsistent now tok r db busy h = record {
  sound =
      update-All IsSound (is_at r.job_id r.domain) (claim_row now tok)
        (λ a e s. claim_row-IsSound now tok a) db.rows h.sound;
  closed =
      All-imp (IsClosed db.rows)
        (IsClosed (update (is_at r.job_id r.domain) (claim_row now tok) db.rows)) keeps db.jobs
        h.closed;
}
  where
    other : (k : ℕ) → any (is_pending k) db.rows ≡ false → k ≢ r.job_id
    other k idle e = cc (rw e at idle)

    keeps :
        (j : Job)
        → IsClosed db.rows j
        → IsClosed (update (is_at r.job_id r.domain) (claim_row now tok) db.rows) j
    keeps j c e =
        let ne = other j.id (c e) in
        any-update (is_pending j.id) (is_at r.job_id r.domain) (claim_row now tok)
          (λ a at idle. unfold claim_row in ground (arith, ne)) db.rows (c e)

claim_from_job-IsConsistent :
    (now : ℕ) (locked : Row → Bool) (tok : Token) (job_id : ℕ) (db : Tables)
    → IsConsistent db
    → IsConsistent (claim_from_job now locked tok job_id db).1
unfolding claim_from_job
claim_from_job-IsConsistent now locked tok job_id db h =
    elim (Option-cases (pick_row now locked job_id db)) [
      | inl e ↦ rw (e, claim_from_job) h
      | inr (r, e) ↦
          let picked = pick_row-pending now locked job_id db r e in
          rw (e, claim_from_job) (claimed-IsConsistent now tok r db (rw picked.0 picked.2) h)
    ]

start_job-IsConsistent :
    (now job_id : ℕ) (db : Tables) → IsConsistent db → IsConsistent (start_job now job_id db)
unfolding start_job
start_job-IsConsistent now job_id db h =
    jobs-IsConsistent
      (λ j. j.id == job_id && (is_queued_job j.status || not (is_some j.started_at)))
      (λ j. record j {
        status = if is_queued_job j.status then JobStatus.running else j.status;
        started_at = some (or_else j.started_at now);
      })
      db (λ j e c d. c (still j.status d)) h
  where
    still :
        (s : JobStatus)
        → is_done_job (if is_queued_job s then JobStatus.running else s) ≡ true
        → is_done_job s ≡ true
    still s d = ground arith

try_jobs-IsConsistent :
    (now : ℕ) (locked : Row → Bool) (worker : String) (serial : ℕ) (js : List Job) (db : Tables)
    → IsConsistent db
    → IsConsistent (try_jobs now locked worker serial js db).1
unfolding try_jobs
try_jobs-IsConsistent now locked worker serial [] db h = h
try_jobs-IsConsistent now locked worker serial (j ∷ js) db h =
    let tok : Token = record { worker = worker; serial = serial } in
    let db' = (claim_from_job now locked tok j.id db).1 in
    elim (Option-cases (claim_from_job now locked tok j.id db).0) [
      | inl e ↦ rw (e, try_jobs) (try_jobs-IsConsistent now locked worker (serial + 1) js db h)
      | inr (r, e) ↦
          rw (e, try_jobs)
            (start_job-IsConsistent now j.id db'
              (claim_from_job-IsConsistent now locked tok j.id db h))
    ]

pub claim-IsConsistent :
    (now : ℕ) (locked : Row → Bool) (worker : String) (serial : ℕ) (db : Tables)
    → IsConsistent db
    → IsConsistent (claim now locked worker serial db).1
unfolding claim
claim-IsConsistent now locked worker serial db h =
    try_jobs-IsConsistent now locked worker serial (pick_jobs now db) db h
