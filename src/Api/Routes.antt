-- ===== src/Api/Routes.antt =====
-- `_get_job` of app/main.py, and the routes that retry, resume and cancel a job.
use email_extractor.Common.{
  ℕ, Bool, true, false, ◌||◌, Option, none, some, if◌then◌else◌, ◌==◌, find_first,
}
use email_extractor.Queue.Claim.{same_owner}
use email_extractor.Queue.State.{JobStatus, Job, Tables}
use email_extractor.Queue.Finish.{requeue_failed}
use email_extractor.Queue.Sweep.{cancel_job, resume_job}
use email_extractor.Api.{
  ApiError, job_not_found, job_not_retryable, job_not_paused, job_already_finished, Principal,
}

-- `_get_job`: another person's job is answered like one that does not exist.
unfoldable pub get_job : Principal → (job_id : ℕ) → Tables → Option Job
get_job who job_id db = elim (find_first (λ (j : Job). j.id == job_id) db.jobs) [
  | none ↦ none
  | some j ↦ if who.is_admin || same_owner j.owner_id who.user_id then some j else none
]

abbrev pub is_retry_refused : JobStatus → Bool
is_retry_refused JobStatus.paused = true
is_retry_refused JobStatus.cancelled = true
is_retry_refused _ = false

-- An answer: an error, or done.
unfoldable pub answer_if : ApiError → Bool × Tables → Option ApiError × Tables
answer_if e (moved, db) = if moved then (none, db) else (some e, db)

unfoldable pub retry_found : (now job_id : ℕ) → Tables → Option Job → Option ApiError × Tables
retry_found now job_id db none = (some job_not_found, db)
retry_found now job_id db (some j) =
    if is_retry_refused j.status
    then (some job_not_retryable, db)
    else (none, (requeue_failed now job_id db).1)

-- The route `retry_job`.
unfoldable pub retry_route : Principal → (now job_id : ℕ) → Tables → Option ApiError × Tables
unfolding get_job retry_found
retry_route who now job_id db = retry_found now job_id db (get_job who job_id db)

unfoldable pub resume_found : (now job_id : ℕ) → Tables → Option Job → Option ApiError × Tables
unfolding answer_if
resume_found now job_id db none = (some job_not_found, db)
resume_found now job_id db (some j) = answer_if job_not_paused (resume_job now job_id db)

-- The route `resume_job`.
unfoldable pub resume_route : Principal → (now job_id : ℕ) → Tables → Option ApiError × Tables
unfolding get_job resume_found
resume_route who now job_id db = resume_found now job_id db (get_job who job_id db)

unfoldable pub cancel_found : (now job_id : ℕ) → Tables → Option Job → Option ApiError × Tables
unfolding answer_if
cancel_found now job_id db none = (some job_not_found, db)
cancel_found now job_id db (some j) = answer_if job_already_finished (cancel_job now job_id db)

-- The route `cancel_job`.
unfoldable pub cancel_route : Principal → (now job_id : ℕ) → Tables → Option ApiError × Tables
unfolding get_job cancel_found
cancel_route who now job_id db = cancel_found now job_id db (get_job who job_id db)
