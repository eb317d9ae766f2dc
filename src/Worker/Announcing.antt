-- ===== src/Worker/Announcing.antt =====
-- What the worker of app/worker.py announces, and what it writes when it no longer owns a row or
-- gives a domain up.
use email_extractor.Common.{
  ℕ, ◌≡◌, refl, Bool, true, false, ◌&&◌, Option, none, some, [], ltb, Text, any, inl, inr,
  Bool-cases,
}
use email_extractor.Schemas.{DomainResult}
use email_extractor.Queue.State.{Job, Tables, update}
use email_extractor.Queue.Claim.{Claim}
use email_extractor.Queue.Locks.{is_locked_by, unlocked, cached_result, unlock_domain}
use email_extractor.Queue.Finish.{
  is_claimed_by, finished_row, requeued_row, requeue, finish, complete_if_finished,
}
use email_extractor.Queue.Sweep.{pause_active_jobs}
use email_extractor.Queue.Ownership.{finish-lost, rows-finish, update-idle}
use email_extractor.Worker.{
  Outcome, finished, account, crashed, cancelled, announce, finish_claim, get_job,
  too_many_attempts, max_claims, prepare_for, prepare, conclude, handle, is_retryable_reason,
  max_domain_attempts,
}

requeue-lost :
    (now : ℕ) (c : Claim) (delay : ℕ) (counted : Bool) (db : Tables)
    → any (is_claimed_by c) db.rows ≡ false
    → (requeue now c delay counted db).rows ≡ db.rows
unfolding requeue
requeue-lost now c delay counted db e =
    update-idle (is_claimed_by c) (requeued_row now delay counted) db.rows e

finish_claim-lost :
    (now : ℕ) (job : Option Job) (c : Claim) (result : DomainResult) (fc wc : Bool) (db : Tables)
    → any (is_claimed_by c) db.rows ≡ false
    → ((finish_claim now job c result fc wc db).0 ≡ [])
      × ((finish_claim now job c result fc wc db).1.rows ≡ db.rows)
unfolding finish_claim announce unlock_domain
finish_claim-lost now none c result fc wc db e =
    rw (finish-lost now c result fc wc db e) (refl, refl)
finish_claim-lost now (some job) c result fc wc db e =
    rw (finish-lost now c result fc wc db e) (refl, refl)

-- A claim that lost its row while the pipeline ran (it was reaped or released) sends nothing to the
-- webhook and changes no row, whatever the outcome.
pub conclude-lost :
    (now : ℕ) (reason : Text) (c : Claim) (outcome : Outcome) (db : Tables)
    → any (is_claimed_by c) db.rows ≡ false
    → ((conclude now reason c outcome db).0 ≡ [])
      × ((conclude now reason c outcome db).1.rows ≡ db.rows)
unfolding conclude unlock_domain pause_active_jobs
conclude-lost now reason c cancelled db e = (refl, refl)
conclude-lost now reason c crashed db e = (refl, requeue-lost now c _ true (unlock_domain c db) e)
conclude-lost now reason c (account true) db e =
    (refl, requeue-lost now c 0 false (unlock_domain c db) e)
conclude-lost now reason c (account false) db e =
    (refl, requeue-lost now c 0 false (unlock_domain c (pause_active_jobs now reason db)) e)
conclude-lost now reason c (finished result) db e =
    elim (Bool-cases
      (is_retryable_reason result.error_reason && ltb c.attempts max_domain_attempts)) [
        | inl t ↦ rw t (refl, requeue-lost now c _ true (unlock_domain c db) e)
        | inr t ↦ rw t (finish_claim-lost now (get_job c.job_id db) c result false true db e)
      ]

-- A result that is not written to the cache changes nothing of it but the claim's own lock.
sites-finish :
    (now : ℕ) (c : Claim) (result : DomainResult) (db : Tables)
    → (finish now c result false false db).2.sites ≡ update (is_locked_by c) unlocked db.sites
unfolding finish complete_if_finished unlock_domain
sites-finish now c result db = elim (Bool-cases (any (is_claimed_by c) db.rows)) [
  | inl e ↦ rw e
  | inr e ↦ rw e
]

-- A domain of an existing job that was claimed more than `MAX_CLAIMS` times and has no usable
-- cached result is finished as failed without running the pipeline, and the failure stays in the job: of the
-- shared cache only the claim's own lock changes.
pub handle-gives_up :
    (now later : ℕ) (reason : Text) (c : Claim) (outcome : Outcome) (meanwhile : Tables → Tables)
    (db : Tables) (job : Job)
    → get_job c.job_id db ≡ some job
    → cached_result now db job c.domain c.not_before ≡ none
    → ltb max_claims c.attempts ≡ true
    → let after = (handle now later reason c outcome meanwhile db).1 in
      (after.rows ≡ update (is_claimed_by c) (finished_row now (too_many_attempts c) false) db.rows)
      × (after.sites ≡ update (is_locked_by c) unlocked db.sites)
unfolding handle prepare prepare_for finish_claim
handle-gives_up now later reason c outcome meanwhile db job found none_cached over =
    rw (found, none_cached, over, handle, prepare, prepare_for)
      (
        rows-finish now c (too_many_attempts c) false false db,
        sites-finish now c (too_many_attempts c) db,
      )
