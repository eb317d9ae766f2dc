-- ===== src/Queue/Sweep.antt =====
-- What acts on many rows at once: pausing, heartbeats, reaping and clean shutdown in app/queue.py;
-- resuming and cancelling in app/main.py; and the creation of a job in app/jobs.py.
use email_extractor.Common.{
  ℕ, ◌+◌, ◌-◌, max, Bool, true, false, ◌&&◌, ◌||◌, Option, none, some, List, [], ◌∷◌, ltb, ◌==◌,
  if◌then◌else◌, String, Text, text_eq, any, select, count_if, length, or_else,
}
use email_extractor.Queue.State.{
  JobStatus, RowState, Token, Job, Row, Tables, is_running, is_active, held_by_worker, held_by_any,
  update,
}
use email_extractor.Queue.Locks.{lease_s, unlocked}
use email_extractor.Queue.Finish.{complete_if_finished}

-- `pause_active_jobs`
unfoldable pub pause_active_jobs : ℕ → Text → Tables → Tables
pause_active_jobs now reason db = record db {
  jobs =
      update (λ j. is_active j.status)
        (λ j. record j {
          status = JobStatus.paused;
          pause_reason = some reason;
          paused_at = some now;
        })
        db.jobs;
}

-- `heartbeat`; with no tokens both statements change nothing, as the early return does.
unfoldable pub heartbeat : ℕ → List Token → Tables → Tables
heartbeat now toks db = record db {
  rows =
      update (λ r. is_running r.state && held_by_any toks r.claimed_by)
        (λ r. record r { heartbeat_at = some now }) db.rows;
  sites =
      update (λ s. held_by_any toks s.lock_owner)
        (λ s. record s { lock_until = some (now + lease_s) }) db.sites;
}

-- `state = 'running' AND heartbeat_at < now() - lease`
abbrev pub is_silent : ℕ → Row → Bool
is_silent now r =
    is_running r.state && elim r.heartbeat_at [ none ↦ false | some t ↦ ltb (t + lease_s) now ]

unfoldable pub reaped_row : ℕ → Row → Row
reaped_row now r = record r {
  state = RowState.queued;
  claimed_by = none;
  heartbeat_at = none;
  available_at = now;
}

-- `reap`
unfoldable pub reap : ℕ → Tables → ℕ × Tables
reap now db = (
  count_if (is_silent now) db.rows,
  record db { rows = update (is_silent now) (reaped_row now) db.rows },
)

unfoldable pub released_row : ℕ → Row → Row
released_row now r = record r {
  state = RowState.queued;
  claimed_by = none;
  heartbeat_at = none;
  available_at = now;
  attempts = r.attempts - 1;
}

-- `release_worker`
unfoldable pub release_worker : ℕ → String → Tables → Tables
release_worker now worker db = record db {
  rows =
      update (λ r. is_running r.state && held_by_worker worker r.claimed_by) (released_row now)
        db.rows;
  sites = update (λ s. held_by_worker worker s.lock_owner) unlocked db.sites;
}

-- `now() - greatest(paused_at, started_at)` where both are set, else 0.
unfoldable pub pause_length : ℕ → Job → ℕ
pause_length now j = elim j.started_at [
  | none ↦ 0
  | some s ↦ elim j.paused_at [ none ↦ 0 | some p ↦ now - max p s ]
]

abbrev pub is_paused : JobStatus → Bool
is_paused JobStatus.paused = true
is_paused _ = false

abbrev pub is_cancelled : JobStatus → Bool
is_cancelled JobStatus.cancelled = true
is_cancelled _ = false

-- `ACTIVE_STATUSES`, which `cancel_job` allows.
abbrev pub is_unfinished : JobStatus → Bool
is_unfinished s = is_active s || is_paused s

-- What `_transition` writes.
unfoldable pub moved_job : ℕ → JobStatus → Option Text → Job → Job
moved_job now new reason j = record j {
  status = new;
  pause_reason = reason;
  paused_seconds = j.paused_seconds + pause_length now j;
  paused_at = none;
  finished_at = if is_cancelled new then some (or_else j.finished_at now) else j.finished_at;
}

-- `_transition`: whether the job was in one of the allowed statuses, in which case it moves.
unfoldable pub transition :
    ℕ → ℕ → (JobStatus → Bool) → JobStatus → Option Text → Tables → Bool × Tables
transition now job_id allowed new reason db =
    let test = λ (j : Job). j.id == job_id && allowed j.status in
    (any test db.jobs, record db { jobs = update test (moved_job now new reason) db.jobs })

-- `cancel_job`: none is the error that the job is finished.
unfoldable pub cancel_job : ℕ → ℕ → Tables → Bool × Tables
cancel_job now job_id db = transition now job_id is_unfinished JobStatus.cancelled none db

-- `resume_job`; a job whose rows all finished before the pause is completed, in a transaction of its own.
-- The histories have the first transaction, a `transition`, as a step too.
unfoldable pub resume_job : ℕ → ℕ → Tables → Bool × Tables
resume_job now job_id db =
    let (moved, db') = transition now job_id is_paused JobStatus.running none db in
    if moved then (true, (complete_if_finished now job_id db').1) else (false, db')

-- The jobs that stopped for a reason, which `_resume_paused_for` takes up again.
abbrev pub is_paused_for : Text → Job → Bool
is_paused_for reason j =
    is_paused j.status && elim j.pause_reason [ none ↦ false | some r ↦ text_eq.beq r reason ]

unfoldable pub complete_each : ℕ → List Job → Tables → Tables
complete_each now [] db = db
complete_each now (j ∷ js) db = complete_each now js (complete_if_finished now j.id db).1

-- `_resume_paused_for`
unfoldable pub resume_paused_for : ℕ → Text → Tables → ℕ × Tables
resume_paused_for now reason db =
    let picked = select (is_paused_for reason) db.jobs in
    let jobs =
      update (is_paused_for reason) (λ j. moved_job now JobStatus.running none j) db.jobs in
    (length picked, complete_each now picked (record db { jobs = jobs }))
