-- ===== src/Queue/Consistency/Steps.antt =====
-- Every history of transactions keeps the invariant.
use email_extractor.Common.{
  ℕ, ◌+◌, ◌≡◌, ◌≢◌, refl, Bool, false, Option, List, [], ◌∷◌, ◌++◌, arith, String, Text, any, All,
  All-append, All-both, length,
}
use email_extractor.Schemas.{DomainResult}
use email_extractor.Queue.State.{JobStatus, Token, Row, Tables, is_done_job, is_pending}
use email_extractor.Queue.Claim.{Claim, claim}
use email_extractor.Queue.Locks.{lock_domain, unlock_domain}
use email_extractor.Queue.Finish.{
  requeue, finish, complete_if_finished, complete_finished_jobs, requeue_failed,
}
use email_extractor.Queue.Sweep.{
  transition, pause_active_jobs, heartbeat, reap, release_worker, cancel_job, resume_job,
  resume_paused_for,
}
use email_extractor.Queue.Create.{
  unique_domains, chunks, chunks_from, new_row, number_rows, new_job, insert_rows, create_job,
}
use email_extractor.Queue.Consistency.{IsSound, IsClosed, IsConsistent, any-append}
use email_extractor.Queue.Consistency.Claiming.{
  claim-IsConsistent, lock_domain-IsConsistent, unlock_domain-IsConsistent, requeue-IsConsistent,
}
use email_extractor.Queue.Consistency.Finishing.{
  finish-IsConsistent, complete_if_finished-IsConsistent, complete_finished_jobs-IsConsistent,
  requeue_failed-IsConsistent,
}
use email_extractor.Queue.Consistency.Sweeping.{
  pause_active_jobs-IsConsistent, heartbeat-IsConsistent, reap-IsConsistent,
  release_worker-IsConsistent, transition-IsConsistent, cancel_job-IsConsistent,
  resume_job-IsConsistent, resume_paused_for-IsConsistent,
}

-- An id that no job and no row has: `uuid.uuid4()`.
pub record IsFresh (id : ℕ) (db : Tables) : Type 0 where
  pub no_job : All (λ j. j.id ≢ id) db.jobs
  pub no_row : All (λ r. r.job_id ≢ id) db.rows

number_rows-IsSound : (now id seq : ℕ) (ds : List Text) → All IsSound (number_rows now id seq ds)
unfolding number_rows new_row
number_rows-IsSound now id seq [] = tt
number_rows-IsSound now id seq (d ∷ ds) =
    (record { held = refl; tried = λ e. cc }, number_rows-IsSound now id (seq + 1) ds)

insert_rows-IsSound :
    (now id seq : ℕ) (cs : List (List Text)) → All IsSound (insert_rows now id seq cs)
unfolding insert_rows
insert_rows-IsSound now id seq [] = tt
insert_rows-IsSound now id seq (c ∷ cs) =
    All-append IsSound (number_rows now id seq c) (insert_rows now id (seq + length c) cs)
      (number_rows-IsSound now id seq c) (insert_rows-IsSound now id (seq + length c) cs)

number_rows-others :
    (now id seq k : ℕ) (ds : List Text)
    → k ≢ id
    → any (is_pending k) (number_rows now id seq ds) ≡ false
unfolding number_rows new_row
number_rows-others now id seq k [] ne = refl
number_rows-others now id seq k (d ∷ ds) ne =
    ground (arith, number_rows-others now id (seq + 1) k ds ne)

insert_rows-others :
    (now id seq k : ℕ) (cs : List (List Text))
    → k ≢ id
    → any (is_pending k) (insert_rows now id seq cs) ≡ false
unfolding insert_rows
insert_rows-others now id seq k [] ne = refl
insert_rows-others now id seq k (c ∷ cs) ne =
    any-append (is_pending k) (number_rows now id seq c) (insert_rows now id (seq + length c) cs)
      (number_rows-others now id seq k c ne) (insert_rows-others now id (seq + length c) k cs ne)

no_pending :
    (id : ℕ) (rows : List Row) → All (λ r. r.job_id ≢ id) rows → any (is_pending id) rows ≡ false
no_pending id [] h = refl
no_pending id (r ∷ rs) h = ground (arith, no_pending id rs h.1)

new_job-IsClosed :
    (now id : ℕ) (owner : Option ℕ) (fresh : Bool) (webhook_url : Option Text) (domains : List Text)
    (rows : List Row)
    → All (λ r. r.job_id ≢ id) rows
    → IsClosed
        (rows ++ insert_rows now id 0 (chunks 1000 domains))
        (new_job now id owner fresh webhook_url domains)
unfolding new_job chunks chunks_from insert_rows
new_job-IsClosed now id owner fresh webhook_url [] rows h =
    λ d. any-append (is_pending id) rows [] (no_pending id rows h) refl
new_job-IsClosed now id owner fresh webhook_url (x ∷ xs) rows h = λ d. cc

create_job-IsConsistent :
    (now id : ℕ) (owner : Option ℕ) (fresh : Bool) (webhook_url : Option Text)
    (items : List (Option Text)) (db : Tables)
    → IsFresh id db
    → IsConsistent db
    → IsConsistent (create_job now id owner fresh webhook_url items db)
unfolding create_job
create_job-IsConsistent now id owner fresh webhook_url items db f h = record {
  sound =
      All-append IsSound db.rows added h.sound (insert_rows-IsSound now id 0 (chunks 1000 domains));
  closed =
      All-append (IsClosed (db.rows ++ added)) db.jobs
        (new_job now id owner fresh webhook_url domains ∷ [])
        (All-both (IsClosed db.rows) (λ j. j.id ≢ id) (IsClosed (db.rows ++ added))
          (λ j c ne d.
            any-append (is_pending j.id) db.rows added (c d)
              (insert_rows-others now id 0 j.id (chunks 1000 domains) ne))
          db.jobs h.closed f.no_job)
        (new_job-IsClosed now id owner fresh webhook_url domains db.rows f.no_row, tt);
}
  where
    domains : List Text
    domains = unique_domains items

    added : List Row
    added = insert_rows now id 0 (chunks 1000 domains)

-- A committed transaction of the API or a worker, with any arguments.
pub data Step (db : Tables) : Tables → Type 0 where
  claims :
      (now : ℕ) (locked : Row → Bool) (worker : String) (serial : ℕ)
      → Step db (claim now locked worker serial db).1
  locks : (now : ℕ) (c : Claim) → Step db (lock_domain now c db).1
  unlocks : (c : Claim) → Step db (unlock_domain c db)
  requeues :
      (now : ℕ) (c : Claim) (delay : ℕ) (counted : Bool) → Step db (requeue now c delay counted db)
  finishes :
      (now : ℕ) (c : Claim) (result : DomainResult) (from_cache write_cache : Bool)
      → Step db (finish now c result from_cache write_cache db).2
  completes : (now job_id : ℕ) → Step db (complete_if_finished now job_id db).1
  completes_all : (now : ℕ) → Step db (complete_finished_jobs now db).1
  retries : (now job_id : ℕ) → Step db (requeue_failed now job_id db).1
  pauses : (now : ℕ) (reason : Text) → Step db (pause_active_jobs now reason db)
  beats : (now : ℕ) (toks : List Token) → Step db (heartbeat now toks db)
  reaps : (now : ℕ) → Step db (reap now db).1
  releases : (now : ℕ) (worker : String) → Step db (release_worker now worker db)
  cancels : (now job_id : ℕ) → Step db (cancel_job now job_id db).1
  transits :
      (now job_id : ℕ) (allowed : JobStatus → Bool) (new : JobStatus) (reason : Option Text)
      → is_done_job new ≡ false
      → Step db (transition now job_id allowed new reason db).1
  resumes : (now job_id : ℕ) → Step db (resume_job now job_id db).1
  resumes_for : (now : ℕ) (reason : Text) → Step db (resume_paused_for now reason db).1
  creates :
      (now id : ℕ) (owner : Option ℕ) (fresh : Bool) (webhook_url : Option Text)
      (items : List (Option Text))
      → IsFresh id db
      → Step db (create_job now id owner fresh webhook_url items db)

pub data Reach (db : Tables) : Tables → Type 0 where
  here : Reach db db
  next : {t u : Tables} → Reach db t → Step t u → Reach db u

pub Step-IsConsistent : {db u : Tables} → Step db u → IsConsistent db → IsConsistent u
Step-IsConsistent {db} (claims now locked worker serial) h =
    claim-IsConsistent now locked worker serial db h
Step-IsConsistent {db} (locks now c) h = lock_domain-IsConsistent now c db h
Step-IsConsistent {db} (unlocks c) h = unlock_domain-IsConsistent c db h
Step-IsConsistent {db} (requeues now c delay counted) h =
    requeue-IsConsistent now c delay counted db h
Step-IsConsistent {db} (finishes now c result from_cache write_cache) h =
    finish-IsConsistent now c result from_cache write_cache db h
Step-IsConsistent {db} (completes now job_id) h = complete_if_finished-IsConsistent now job_id db h
Step-IsConsistent {db} (completes_all now) h = complete_finished_jobs-IsConsistent now db h
Step-IsConsistent {db} (retries now job_id) h = requeue_failed-IsConsistent now job_id db h
Step-IsConsistent {db} (pauses now reason) h = pause_active_jobs-IsConsistent now reason db h
Step-IsConsistent {db} (beats now toks) h = heartbeat-IsConsistent now toks db h
Step-IsConsistent {db} (reaps now) h = reap-IsConsistent now db h
Step-IsConsistent {db} (releases now worker) h = release_worker-IsConsistent now worker db h
Step-IsConsistent {db} (cancels now job_id) h = cancel_job-IsConsistent now job_id db h
Step-IsConsistent {db} (transits now job_id allowed new reason live) h =
    transition-IsConsistent now job_id allowed new reason db live h
Step-IsConsistent {db} (resumes now job_id) h = resume_job-IsConsistent now job_id db h
Step-IsConsistent {db} (resumes_for now reason) h = resume_paused_for-IsConsistent now reason db h
Step-IsConsistent {db} (creates now id owner fresh webhook_url items f) h =
    create_job-IsConsistent now id owner fresh webhook_url items db f h

-- From consistent tables, every history of claims, locks, requeues, finishes, sweeps, retries,
-- pauses, resumes, cancels and creations of jobs under fresh ids leads to consistent tables: a row
-- is held by a claim exactly while it runs, a running row has counted a try, and no job is done
-- while one of its rows is queued or running.
pub Reach-IsConsistent : {db u : Tables} → Reach db u → IsConsistent db → IsConsistent u
Reach-IsConsistent here h = h
Reach-IsConsistent (next r s) h = Step-IsConsistent s (Reach-IsConsistent r h)
