-- ===== src/Queue/Consistency/Finishing.antt =====
-- Finishing rows, completing jobs and sending failures back keep the invariant.
use email_extractor.Common.{
  ℕ, ◌≡◌, refl, Bool, true, ◌&&◌, inl, inr, List, arith, ltb, ◌==◌, if◌then◌else◌, text_eq, any,
  count_if, Bool-cases,
}
use email_extractor.Schemas.{DomainResult}
use email_extractor.Queue.State.{Job, Row, Tables, is_done_job, is_pending, update}
use email_extractor.Queue.Claim.{Claim}
use email_extractor.Queue.Finish.{
  is_claimed_by, finished_row, is_completable, completed_job, complete_if_finished,
  complete_finished_jobs, finish, is_retryable_row, retried_row, reopened_job, requeue_failed,
}
use email_extractor.Queue.Consistency.{
  IsSound, IsClosed, IsConsistent, rows-IsConsistent, jobs-IsConsistent, any-update, update-All,
  All-update, update-none,
}
use email_extractor.Queue.Consistency.Claiming.{unlock_domain-IsConsistent}

completed_job-IsClosed :
    (now : ℕ) (rows : List Row) (j : Job)
    → is_completable rows j ≡ true
    → IsClosed rows (completed_job now rows j)
unfolding completed_job is_completable
completed_job-IsClosed now rows j e = λ d. ground arith

pub complete_if_finished-IsConsistent :
    (now job_id : ℕ) (db : Tables)
    → IsConsistent db
    → IsConsistent (complete_if_finished now job_id db).1
unfolding complete_if_finished
complete_if_finished-IsConsistent now job_id db h =
    jobs-IsConsistent (λ j. j.id == job_id && is_completable db.rows j) (completed_job now db.rows)
      db (λ j e c. completed_job-IsClosed now db.rows j (ground arith)) h

pub complete_finished_jobs-IsConsistent :
    (now : ℕ) (db : Tables) → IsConsistent db → IsConsistent (complete_finished_jobs now db).1
unfolding complete_finished_jobs
complete_finished_jobs-IsConsistent now db h =
    jobs-IsConsistent (is_completable db.rows) (completed_job now db.rows) db
      (λ j e c. completed_job-IsClosed now db.rows j e) h

pub finish-IsConsistent :
    (now : ℕ) (c : Claim) (result : DomainResult) (from_cache write_cache : Bool) (db : Tables)
    → IsConsistent db
    → IsConsistent (finish now c result from_cache write_cache db).2
finish-IsConsistent now c result from_cache write_cache db h =
    elim (Bool-cases (any (is_claimed_by c) db.rows)) [
      | inl e ↦
          unfold finish in
          rw (e, finish)
            (complete_if_finished-IsConsistent now c.job_id _
              (record { sound = recorded.sound; closed = recorded.closed }))
      | inr e ↦ unfold finish in rw (e, finish) (unlock_domain-IsConsistent c db h)
    ]
  where
    recorded :
        IsConsistent (record db {
          rows = update (is_claimed_by c) (finished_row now result from_cache) db.rows;
        })
    recorded =
        rows-IsConsistent (is_claimed_by c) (finished_row now result from_cache)
          (λ r e s. unfold finished_row in record { held = refl; tried = λ e. cc })
          (λ k r e p. unfold finished_row in ground arith) db h

retried_row-IsSound : (now : ℕ) (r : Row) → IsSound (retried_row now r)
unfolding retried_row
retried_row-IsSound now r = record { held = refl; tried = λ e. cc }

-- A job that stays done is not the one whose rows are sent back.
reopened-IsClosed :
    (now job_id : ℕ) (rows : List Row) (j : Job)
    → IsClosed rows j
    → IsClosed
        (update (is_retryable_row job_id) (retried_row now) rows)
        (if j.id == job_id && is_done_job j.status then reopened_job now j else j)
reopened-IsClosed now job_id rows j c = elim (Bool-cases (j.id == job_id && is_done_job j.status)) [
  | inl e ↦ rw e (unfold reopened_job in λ d. cc)
  | inr e ↦ rw e (λ d.
      any-update (is_pending j.id) (is_retryable_row job_id) (retried_row now)
        (λ r t idle. unfold retried_row is_retryable_row in ground arith) rows (c d))
]

-- Sending a job's failures back makes rows to work on, and takes the job out of its done state.
pub requeue_failed-IsConsistent :
    (now job_id : ℕ) (db : Tables) → IsConsistent db → IsConsistent (requeue_failed now job_id db).1
unfolding requeue_failed
requeue_failed-IsConsistent now job_id db h =
    let n = count_if (is_retryable_row job_id) db.rows in
    elim (Bool-cases (ltb 0 n)) [
      | inl e ↦ rw e (record {
        sound =
            update-All IsSound (is_retryable_row job_id) (retried_row now)
              (λ r t s. retried_row-IsSound now r) db.rows h.sound;
        closed =
            All-update (IsClosed db.rows)
              (IsClosed (update (is_retryable_row job_id) (retried_row now) db.rows))
              (λ j. j.id == job_id && is_done_job j.status) (reopened_job now)
              (λ j c. reopened-IsClosed now job_id db.rows j c) db.jobs h.closed;
      })
      | inr e ↦
          let same =
            update-none (is_retryable_row job_id) (retried_row now) db.rows (ground arith) in
          rw (e, same) h
    ]
