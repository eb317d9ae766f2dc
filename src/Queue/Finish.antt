-- ===== src/Queue/Finish.antt =====
-- How a claimed row leaves the hands of its claim: `requeue`, `finish`, and what ends a job, in
-- app/queue.py.
use email_extractor.Common.{
  ℕ, ◌+◌, ◌-◌, Bool, true, false, not, ◌&&◌, ◌||◌, Option, none, some, List, [], ◌∷◌, ltb, ◌==◌,
  if◌then◌else◌, Text, txt, text_eq, mem_text, any, count_if, length, is_truthy, get,
}
use email_extractor.Schemas.{DomainResult, is_fetch_failed}
use email_extractor.Queue.State.{
  JobStatus, RowState, Stage, Payload, dumped, stale, Job, Row, Site, Tables, is_running, is_done,
  is_active, is_done_job, held_by, is_at, is_pending, update,
}
use email_extractor.Queue.Claim.{Claim}
use email_extractor.Queue.Locks.{is_locked_by, unlocked, unlock_domain}

-- `job_id = :j AND domain = :d AND state = 'running' AND claimed_by = :token`
abbrev pub is_claimed_by : Claim → Row → Bool
is_claimed_by c r = is_at c.job_id c.domain r && is_running r.state && held_by c.token r.claimed_by

-- What `requeue` writes; a running row has been counted at least once.
unfoldable pub requeued_row : (now delay : ℕ) → Bool → Row → Row
requeued_row now delay count_attempt r = record r {
  state = RowState.queued;
  claimed_by = none;
  heartbeat_at = none;
  available_at = now + delay;
  attempts = if count_attempt then r.attempts else r.attempts - 1;
}

-- `requeue`
unfoldable pub requeue : ℕ → Claim → ℕ → Bool → Tables → Tables
requeue now c delay count_attempt db = record db {
  rows = update (is_claimed_by c) (requeued_row now delay count_attempt) db.rows;
}

-- What `finish` writes to the row.
unfoldable pub finished_row : ℕ → DomainResult → Bool → Row → Row
finished_row now result from_cache r = record r {
  state = RowState.done;
  finished_at = some now;
  claimed_by = none;
  from_cache = from_cache;
  jina_tokens = if from_cache then 0 else result.jina_tokens;
  status = some result.status;
  result = some (dumped result);
  needs_review = result.needs_review;
  typesafe_called = result.typesafe_called && not from_cache;
  has_phone = ltb 0 (length result.phones);
  has_form = is_truthy result.contact_form_url;
  has_linkedin = is_truthy (get (txt "linkedin") result.socials);
}

-- What `finish` writes to the shared cache.
unfoldable pub cached_site : ℕ → DomainResult → Site → Site
cached_site now result s = record s {
  status = some result.status;
  result = some (dumped result);
  stage = Stage.done;
  finished_at = some now;
  attempts = s.attempts + 1;
}

-- `id = :j AND status IN ('queued', 'running') AND NOT EXISTS (a row queued or running)`
unfoldable pub is_completable : List Row → Job → Bool
is_completable rows j = is_active j.status && not (any (is_pending j.id) rows)

-- What marks a job done.
unfoldable pub completed_job : ℕ → List Row → Job → Job
completed_job now rows j = record j {
  status = JobStatus.done;
  finished_at = some now;
  done_count = count_if (λ r. r.job_id == j.id) rows;
}

-- `complete_if_finished`
unfoldable pub complete_if_finished : ℕ → ℕ → Tables → Bool × Tables
complete_if_finished now job_id db =
    let test = λ (j : Job). j.id == job_id && is_completable db.rows j in
    (any test db.jobs, record db { jobs = update test (completed_job now db.rows) db.jobs })

-- `complete_finished_jobs`
unfoldable pub complete_finished_jobs : ℕ → Tables → ℕ × Tables
complete_finished_jobs now db = (
  count_if (is_completable db.rows) db.jobs,
  record db { jobs = update (is_completable db.rows) (completed_job now db.rows) db.jobs },
)

-- `finish`: whether the outcome was recorded, and whether the job is done.
unfoldable pub finish :
    ℕ → Claim → DomainResult → (from_cache write_cache : Bool) → Tables → Bool × Bool × Tables
finish now c result from_cache write_cache db =
    if any (is_claimed_by c) db.rows
    then (let rows = update (is_claimed_by c) (finished_row now result from_cache) db.rows in
        let written =
          if not from_cache && write_cache
          then update (λ s. text_eq.beq s.domain c.domain) (cached_site now result) db.sites
          else db.sites in
        let sites = update (is_locked_by c) unlocked written in
        let (job_done, db') =
          complete_if_finished now c.job_id (record db { rows = rows; sites = sites }) in
        (true, job_done, db'))
    else (false, false, unlock_domain c db)

-- `RETRYABLE_FAILURE_REASONS`
abbrev pub retryable_failure_reasons : List Text
retryable_failure_reasons =
    txt "homepage"
    ∷ txt "dns"
    ∷ txt "circuit_open"
    ∷ txt "domain_timeout"
    ∷ txt "internal_error"
    ∷ txt "private_address"
    ∷ []

-- `result->>'error_reason' = ANY(:reasons) OR result->>'site_status' = 'too_many_attempts'`
unfoldable pub is_retryable_payload : Option Payload → Bool
is_retryable_payload none = false
is_retryable_payload (some stale) = false
is_retryable_payload (some (dumped r)) =
    elim r.error_reason [ none ↦ false | some e ↦ mem_text e retryable_failure_reasons ]
    || elim r.site_status [ none ↦ false | some s ↦ text_eq.beq s (txt "too_many_attempts") ]

-- The rows that `requeue_failed` sends back.
unfoldable pub is_retryable_row : ℕ → Row → Bool
is_retryable_row job_id r =
    r.job_id == job_id
    && is_done r.state
    && elim r.status [ none ↦ false | some s ↦ is_fetch_failed s ]
    && is_retryable_payload r.result

unfoldable pub retried_row : ℕ → Row → Row
retried_row now r = record r {
  state = RowState.queued;
  attempts = 0;
  claimed_by = none;
  heartbeat_at = none;
  available_at = now;
  requeued_at = some now;
}

unfoldable pub reopened_job : ℕ → Job → Job
reopened_job now j = record j {
  status = JobStatus.running;
  paused_seconds = j.paused_seconds + elim j.finished_at [ none ↦ 0 | some t ↦ now - t ];
  finished_at = none;
}

-- `requeue_failed`
unfoldable pub requeue_failed : ℕ → ℕ → Tables → ℕ × Tables
requeue_failed now job_id db =
    let n = count_if (is_retryable_row job_id) db.rows in
    let rows = update (is_retryable_row job_id) (retried_row now) db.rows in
    let jobs = update (λ j. j.id == job_id && is_done_job j.status) (reopened_job now) db.jobs in
    (n, record db { rows = rows; jobs = if ltb 0 n then jobs else db.jobs })
