-- ===== src/Queue/Consistency/Sweeping.antt =====
-- Pausing, heartbeats, reaping, releasing, resuming, cancelling and creating keep the invariant.
use email_extractor.Common.{
  ℕ, ◌≡◌, refl, Bool, false, ◌&&◌, inl, inr, Option, none, some, List, [], ◌∷◌, arith, ◌==◌, String,
  Text, text_eq, select, Bool-cases,
}
use email_extractor.Queue.State.{
  JobStatus, Token, Job, Tables, is_running, is_active, is_done_job, held_by_any, held_by_worker,
}
use email_extractor.Queue.Sweep.{
  pause_active_jobs, heartbeat, is_silent, reaped_row, reap, released_row, release_worker,
  is_paused, is_unfinished, moved_job, transition, cancel_job, resume_job, is_paused_for,
  complete_each, resume_paused_for,
}
use email_extractor.Queue.Consistency.{IsConsistent, rows-IsConsistent, jobs-IsConsistent}
use email_extractor.Queue.Consistency.Finishing.{complete_if_finished-IsConsistent}

pub pause_active_jobs-IsConsistent :
    (now : ℕ) (reason : Text) (db : Tables)
    → IsConsistent db
    → IsConsistent (pause_active_jobs now reason db)
unfolding pause_active_jobs
pause_active_jobs-IsConsistent now reason db h =
    jobs-IsConsistent (λ j. is_active j.status)
      (λ j. record j {
        status = JobStatus.paused;
        pause_reason = some reason;
        paused_at = some now;
      })
      db (λ j e c d. cc) h

pub heartbeat-IsConsistent :
    (now : ℕ) (toks : List Token) (db : Tables)
    → IsConsistent db
    → IsConsistent (heartbeat now toks db)
unfolding heartbeat
heartbeat-IsConsistent now toks db h =
    let kept =
      rows-IsConsistent (λ r. is_running r.state && held_by_any toks r.claimed_by)
        (λ r. record r { heartbeat_at = some now })
        (λ r e s. record { held = s.held; tried = s.tried }) (λ k r e p. p) db h in
    record { sound = kept.sound; closed = kept.closed }

pub reap-IsConsistent : (now : ℕ) (db : Tables) → IsConsistent db → IsConsistent (reap now db).1
unfolding reap
reap-IsConsistent now db h =
    rows-IsConsistent (is_silent now) (reaped_row now)
      (λ r e s. unfold reaped_row in record { held = refl; tried = λ e. cc })
      (λ k r e p. unfold reaped_row in ground arith) db h

pub release_worker-IsConsistent :
    (now : ℕ) (worker : String) (db : Tables)
    → IsConsistent db
    → IsConsistent (release_worker now worker db)
unfolding release_worker
release_worker-IsConsistent now worker db h =
    let kept =
      rows-IsConsistent (λ r. is_running r.state && held_by_worker worker r.claimed_by)
        (released_row now) (λ r e s. unfold released_row in record { held = refl; tried = λ e. cc })
        (λ k r e p. unfold released_row in ground arith) db h in
    record { sound = kept.sound; closed = kept.closed }

pub transition-IsConsistent :
    (now job_id : ℕ) (allowed : JobStatus → Bool) (new : JobStatus) (reason : Option Text)
    (db : Tables)
    → is_done_job new ≡ false
    → IsConsistent db
    → IsConsistent (transition now job_id allowed new reason db).1
unfolding transition
transition-IsConsistent now job_id allowed new reason db live h =
    jobs-IsConsistent (λ j. j.id == job_id && allowed j.status) (moved_job now new reason) db
      (λ j e c. unfold moved_job in λ d. cc) h

pub cancel_job-IsConsistent :
    (now job_id : ℕ) (db : Tables) → IsConsistent db → IsConsistent (cancel_job now job_id db).1
unfolding cancel_job
cancel_job-IsConsistent now job_id db h =
    transition-IsConsistent now job_id is_unfinished JobStatus.cancelled none db refl h

pub resume_job-IsConsistent :
    (now job_id : ℕ) (db : Tables) → IsConsistent db → IsConsistent (resume_job now job_id db).1
resume_job-IsConsistent now job_id db h =
    let moved = transition-IsConsistent now job_id is_paused JobStatus.running none db refl h in
    elim (Bool-cases (transition now job_id is_paused JobStatus.running none db).0) [
      | inl e ↦
          unfold resume_job in
          rw (e, resume_job) (complete_if_finished-IsConsistent now job_id _ moved)
      | inr e ↦ unfold resume_job in rw (e, resume_job) moved
    ]

complete_each-IsConsistent :
    (now : ℕ) (js : List Job) (db : Tables)
    → IsConsistent db
    → IsConsistent (complete_each now js db)
unfolding complete_each
complete_each-IsConsistent now [] db h = h
complete_each-IsConsistent now (j ∷ js) db h =
    complete_each-IsConsistent now js _ (complete_if_finished-IsConsistent now j.id db h)

pub resume_paused_for-IsConsistent :
    (now : ℕ) (reason : Text) (db : Tables)
    → IsConsistent db
    → IsConsistent (resume_paused_for now reason db).1
unfolding resume_paused_for
resume_paused_for-IsConsistent now reason db h =
    complete_each-IsConsistent now (select (is_paused_for reason) db.jobs) _ (
      jobs-IsConsistent (is_paused_for reason) (λ j. moved_job now JobStatus.running none j) db
        (λ j e c. unfold moved_job in λ d. cc) h)
