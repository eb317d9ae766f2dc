-- ===== src/Worker.antt =====
-- app/worker.py: what a worker does with a claimed domain. The pipeline's outcome is an argument;
-- `Pipeline.Run` models where it comes from. Times are seconds.
use email_extractor.Common.{
  ℕ, ◌+◌, Bool, true, false, not, ◌&&◌, ◌||◌, Option, none, some, List, [], ◌∷◌, ◌++◌, ltb, leb,
  ◌==◌, if◌then◌else◌, Text, txt, mem_text, any, find_first,
}
use email_extractor.Schemas.{Status, DomainResult, blank}
use email_extractor.Queue.State.{Job, Tables}
use email_extractor.Queue.Claim.{Claim}
use email_extractor.Queue.Locks.{lock_busy_delay_s, cached_result, lock_domain, unlock_domain}
use email_extractor.Queue.Finish.{requeue, finish}
use email_extractor.Queue.Sweep.{pause_active_jobs}
pub mod Handling
pub mod Announcing
mod Tests

-- The settings that the handler reads, at their defaults, and the module's constants.
abbrev pub max_domain_attempts : ℕ
max_domain_attempts = 3

abbrev pub retry_pass_delay_s : ℕ
retry_pass_delay_s = 600

abbrev pub error_retry_delay_s : ℕ
error_retry_delay_s = 30

abbrev pub max_claims : ℕ
max_claims = max_domain_attempts + 2

-- `RETRYABLE_DOMAIN_REASONS` of app/pipeline/run.py
abbrev pub retryable_domain_reasons : List Text
retryable_domain_reasons = txt "circuit_open" ∷ []

unfoldable pub is_retryable_reason : Option Text → Bool
is_retryable_reason none = false
is_retryable_reason (some reason) = mem_text reason retryable_domain_reasons

-- How `process_domain` ends: with a result, with a provider account error, of which the handler
-- learns whether the key has changed since, with another exception, or with the cancellation of the task.
pub data Outcome : Type 0 where
  finished : DomainResult → Outcome
  account : (key_changed : Bool) → Outcome
  crashed : Outcome
  cancelled : Outcome

-- What is sent to the webhook. The row indexes and the counts, which are read back from the
-- tables, are left out.
pub data Event : Type 0 where
  domain_done : (url : Text) (job_id : ℕ) → DomainResult → Event
  job_done : (url : Text) (job_id : ℕ) → Event

-- The part of `_finish` after the outcome is in the tables.
unfoldable pub announce : Option Job → Claim → DomainResult → (recorded done : Bool) → List Event
announce none c result recorded done = []
announce (some job) c result recorded done = if not recorded then [] else elim job.webhook_url [
  | none ↦ []
  | some [] ↦ []
  | some (x ∷ url) ↦
      domain_done (x ∷ url) c.job_id result
      ∷ (if done then job_done (x ∷ url) c.job_id ∷ [] else [])
]

-- `_finish`
unfoldable pub finish_claim :
    ℕ
    → Option Job
    → Claim
    → DomainResult
    → (from_cache write_cache : Bool) → Tables
    → List Event × Tables
finish_claim now job c result from_cache write_cache db =
    let (recorded, done, db') = finish now c result from_cache write_cache db in
    (announce job c result recorded done, db')

-- The result of a domain whose processing kept dying.
abbrev pub too_many_attempts : Claim → DomainResult
too_many_attempts c = record (blank c.domain Status.fetch_failed) {
  error_reason = some (txt "internal_error");
  site_status = some (txt "too_many_attempts");
}

-- `s.get(Job, job_id)`
abbrev pub get_job : ℕ → Tables → Option Job
get_job job_id db = find_first (λ j. j.id == job_id) db.jobs

-- What comes of the part of `_handle` before the pipeline: the claim is dealt with, or the
-- domain is to be processed.
pub data Prepared : Type 0 where
  ended : List Event → Tables → Prepared
  process : Tables → Prepared

-- `_handle` up to the pipeline, for a job that exists.
unfoldable pub prepare_for : ℕ → Job → Claim → Tables → Prepared
prepare_for now job c db = elim (cached_result now db job c.domain c.not_before) [
  | some cached ↦
      let (events, db') = finish_claim now (some job) c cached true true db in ended events db'
  | none ↦
      if ltb max_claims c.attempts
      then (let (events, db') =
            finish_claim now (some job) c (too_many_attempts c) false false db in
          ended events db')
      else (let (locked, db') = lock_domain now c db in
          if not locked
          then ended [] (requeue now c lock_busy_delay_s false db')
          else elim (cached_result now db' job c.domain c.not_before) [
            | none ↦ process db'
            | some cached ↦
                let (events, db'') =
                  finish_claim now (some job) c cached true true (unlock_domain c db') in
                ended events db''
          ])
]

unfoldable pub prepare : ℕ → Claim → Tables → Prepared
prepare now c db = elim (get_job c.job_id db) [
  | none ↦ ended [] db
  | some job ↦ prepare_for now job c db
]

-- `_handle` after the pipeline, and the handler of `handle` for what it raises; a cancellation passes
-- through and writes nothing.
unfoldable pub conclude : ℕ → (reason : Text) → Claim → Outcome → Tables → List Event × Tables
conclude now reason c cancelled db = ([], db)
conclude now reason c crashed db = ([], requeue now c error_retry_delay_s true (unlock_domain c db))
conclude now reason c (account true) db = ([], requeue now c 0 false (unlock_domain c db))
conclude now reason c (account false) db =
    ([], requeue now c 0 false (unlock_domain c (pause_active_jobs now reason db)))
conclude now reason c (finished result) db =
    if is_retryable_reason result.error_reason && ltb c.attempts max_domain_attempts
    then ([], requeue now c retry_pass_delay_s true (unlock_domain c db))
    else finish_claim now (get_job c.job_id db) c result false true db

-- `handle`: the pipeline runs from `now` to `later`, and `meanwhile` is what others do to the
-- tables in that time. A cancellation is one in the pipeline.
unfoldable pub handle :
    (now later : ℕ)
    → (reason : Text) → Claim
    → Outcome
    → (Tables → Tables)
    → Tables
    → List Event × Tables
handle now later reason c outcome meanwhile db = elim (prepare now c db) [
  | ended events db' ↦ (events, db')
  | process db' ↦ conclude later reason c outcome (meanwhile db')
]
