-- ===== src/Worker/Handling.antt =====
-- Whatever happens to a claimed domain, the handler of app/worker.py gives the row and the domain
-- lock back, or `release_worker` does where its task was cancelled.
use email_extractor.Common.{
  ℕ, ◌≡◌, refl, ◌⊎◌, Bool, true, false, ◌&&◌, inl, inr, Option, none, some, List, [], ◌∷◌, ◌++◌,
  arith, ltb, Text, any, Bool-cases, Option-cases, text_eq,
}
use email_extractor.Schemas.{DomainResult}
use email_extractor.Queue.State.{
  Token, Job, Row, Site, Tables, update, is_running, held_by, held_by_worker,
}
use email_extractor.Queue.Claim.{Claim}
use email_extractor.Queue.Locks.{
  is_locked_by, is_lockable, new_site, cached_result, lock_busy_delay_s, lock_domain, insert_site,
  unlock_domain, unlocked,
}
use email_extractor.Queue.Finish.{is_claimed_by, requeue}
use email_extractor.Queue.Sweep.{pause_active_jobs, release_worker, released_row}
use email_extractor.Queue.Ownership.{
  update-idle, finish-releases, finish-unlocks, requeue-releases, unlock_domain-unlocks,
  sites-requeue,
}
use email_extractor.Worker.{
  Outcome, finished, account, crashed, cancelled, Event, finish_claim, get_job, too_many_attempts,
  max_claims, Prepared, ended, process, prepare_for, prepare, conclude, handle, is_retryable_reason,
  max_domain_attempts, retry_pass_delay_s, error_retry_delay_s,
}

-- The claim holds no row and no domain lock.
pub record IsReleased (c : Claim) (db : Tables) : Type 0 where
  pub row : any (is_claimed_by c) db.rows ≡ false
  pub lock : any (is_locked_by c) db.sites ≡ false

requeued-IsReleased :
    (now : ℕ) (c : Claim) (delay : ℕ) (counted : Bool) (db : Tables)
    → any (is_locked_by c) db.sites ≡ false
    → IsReleased c (requeue now c delay counted db)
requeued-IsReleased now c delay counted db free = record {
  row = requeue-releases now c delay counted db;
  lock = rw (sites-requeue now c delay counted db) free;
}

given_back-IsReleased :
    (now : ℕ) (c : Claim) (delay : ℕ) (counted : Bool) (db : Tables)
    → IsReleased c (requeue now c delay counted (unlock_domain c db))
given_back-IsReleased now c delay counted db =
    requeued-IsReleased now c delay counted (unlock_domain c db) (unlock_domain-unlocks c db)

finish_claim-IsReleased :
    (now : ℕ) (job : Option Job) (c : Claim) (result : DomainResult) (fc wc : Bool) (db : Tables)
    → IsReleased c (finish_claim now job c result fc wc db).1
unfolding finish_claim
finish_claim-IsReleased now job c result fc wc db = record {
  row = finish-releases now c result fc wc db;
  lock = finish-unlocks now c result fc wc db;
}

abbrev pub is_cancelled : Outcome → Bool
is_cancelled cancelled = true
is_cancelled _ = false

-- Whatever the pipeline's outcome, concluding a claim releases it, unless the task is cancelled.
conclude-IsReleased :
    (now : ℕ) (reason : Text) (c : Claim) (outcome : Outcome) (db : Tables)
    → is_cancelled outcome ≡ false
    → IsReleased c (conclude now reason c outcome db).1
unfolding conclude
conclude-IsReleased now reason c cancelled db go = cc
conclude-IsReleased now reason c crashed db go =
    given_back-IsReleased now c error_retry_delay_s true db
conclude-IsReleased now reason c (account true) db go = given_back-IsReleased now c 0 false db
conclude-IsReleased now reason c (account false) db go =
    given_back-IsReleased now c 0 false (pause_active_jobs now reason db)
conclude-IsReleased now reason c (finished result) db go =
    elim (Bool-cases
      (is_retryable_reason result.error_reason && ltb c.attempts max_domain_attempts)) [
        | inl e ↦ rw e (given_back-IsReleased now c retry_pass_delay_s true db)
        | inr e ↦ rw e (finish_claim-IsReleased now (get_job c.job_id db) c result false true db)
      ]

-- A lock that is refused leaves a claim that held no lock without one.
refused-unlocked :
    (now : ℕ) (c : Claim) (db : Tables)
    → any (is_locked_by c) db.sites ≡ false
    → (lock_domain now c db).0 ≡ false
    → any (is_locked_by c) (lock_domain now c db).1.sites ≡ false
unfolding lock_domain new_site insert_site
refused-unlocked now c db free refused =
    rw (update-idle (is_lockable now c.domain) _ (insert_site c.domain db.sites) refused) inserted
  where
    appended :
        (sites : List Site)
        → any (is_locked_by c) sites ≡ false
        → any (is_locked_by c) (sites ++ new_site c.domain ∷ []) ≡ false
    appended [] h = ground arith
    appended (s ∷ sites) h = ground (arith, appended sites)

    inserted : any (is_locked_by c) (insert_site c.domain db.sites) ≡ false
    inserted = elim (Bool-cases (any (λ s. text_eq.beq s.domain c.domain) db.sites)) [
      | inl e ↦ rw e free
      | inr e ↦ rw e (appended db.sites free)
    ]

abbrev ended_by : List Event × Tables → Prepared
ended_by (events, db) = ended events db

-- The ways out of `prepare_for`, one by one.
prepare_for-cases {ℓ} :
    (now : ℕ) (job : Job) (c : Claim) (db : Tables) (P : Prepared → Type ℓ)
    → ((r : DomainResult) → P (ended_by (finish_claim now (some job) c r true true db)))
    → P (ended_by (finish_claim now (some job) c (too_many_attempts c) false false db))
    → ((lock_domain now c db).0 ≡ false
        → P (ended [] (requeue now c lock_busy_delay_s false (lock_domain now c db).1)))
    → ((r : DomainResult)
        → P (
            ended_by (
              finish_claim now
                (some job)
                c
                r
                true
                true
                (unlock_domain c (lock_domain now c db).1))))
    → ((lock_domain now c db).0 ≡ true → P (process (lock_domain now c db).1))
    → P (prepare_for now job c db)
unfolding prepare_for
prepare_for-cases now job c db P cached over busy cached' go =
    elim (Option-cases (cached_result now db job c.domain c.not_before)) [
      | inr (r, e) ↦ rw (e, prepare_for) (cached r)
      | inl e ↦ elim (Bool-cases (ltb max_claims c.attempts)) [
        | inl t ↦ rw (e, t, prepare_for) over
        | inr t ↦ elim (Bool-cases (lock_domain now c db).0) [
          | inr l ↦ rw (e, t, l, prepare_for) (busy l)
          | inl l ↦
              elim (Option-cases
                (cached_result now (lock_domain now c db).1 job c.domain c.not_before)) [
                  | inl n ↦ rw (e, t, l, n, prepare_for) (go l)
                  | inr (r, n) ↦ rw (e, t, l, n, prepare_for) (cached' r)
                ]
        ]
      ]
    ]

not_held :
    (tok : Token) (o : Option Token) → held_by_worker tok.worker o ≡ false → held_by tok o ≡ false
not_held tok none e = refl
not_held tok (some t) e = ground arith

not_claimed :
    (c : Claim) (r : Row)
    → (is_running r.state && held_by_worker c.token.worker r.claimed_by) ≡ false
    → is_claimed_by c r ≡ false
not_claimed c r e = ground (arith, not_held c.token r.claimed_by)

not_locking :
    (c : Claim) (s : Site)
    → held_by_worker c.token.worker s.lock_owner ≡ false
    → is_locked_by c s ≡ false
not_locking c s e = ground (arith, not_held c.token s.lock_owner)

any-update_cleared {ℓ} :
    {A : Type ℓ} (p : A → Bool) (f : A → A) (q : A → Bool)
    → ((a : A) → p a ≡ true → q (f a) ≡ false)
    → ((a : A) → p a ≡ false → q a ≡ false)
    → (xs : List A) → any q (update p f xs) ≡ false
unfolding update
any-update_cleared p f q done other [] = refl
any-update_cleared p f q done other (x ∷ xs) =
    ground (arith, done x, other x, any-update_cleared p f q done other xs)

-- A worker that leaves gives back what its claims hold.
release_worker-IsReleased :
    (now : ℕ) (c : Claim) (db : Tables) → IsReleased c (release_worker now c.token.worker db)
unfolding release_worker released_row unlocked
release_worker-IsReleased now c db = record {
  row =
      any-update_cleared (λ r. is_running r.state && held_by_worker c.token.worker r.claimed_by)
        (released_row now) (is_claimed_by c) (λ r e. ground arith) (λ r e. not_claimed c r e)
        db.rows;
  lock =
      any-update_cleared (λ s. held_by_worker c.token.worker s.lock_owner) unlocked (is_locked_by c)
        (λ s e. ground arith) (λ s e. not_locking c s e) db.sites;
}

-- What `Is` says of a claim that is dealt with before the pipeline, and of the tables that the
-- pipeline starts from.
abbrev Settled {ℓ} : (Tables → Type ℓ) → (Tables → Type ℓ) → Prepared → Type ℓ
Settled Is Goes (ended events db) = Is db
Settled Is Goes (process db) = Goes db

prepare_for-Settled :
    (now : ℕ) (job : Job) (c : Claim) (db : Tables)
    → any (is_locked_by c) db.sites ≡ false
    → Settled (IsReleased c) (λ _. Unit) (prepare_for now job c db)
prepare_for-Settled now job c db free =
    prepare_for-cases now job c db (Settled (IsReleased c) (λ _. Unit))
      (λ r. finish_claim-IsReleased now (some job) c r true true db)
      (finish_claim-IsReleased now (some job) c (too_many_attempts c) false false db)
      (λ refused.
        requeued-IsReleased now c lock_busy_delay_s false (lock_domain now c db).1
          (refused-unlocked now c db free refused))
      (λ r.
        finish_claim-IsReleased now (some job) c r true true
          (unlock_domain c (lock_domain now c db).1))
      (λ _. tt)

handled {ℓ} :
    (now later : ℕ) (reason : Text) (c : Claim) (outcome : Outcome) (meanwhile : Tables → Tables)
    (db : Tables) (job : Job) (Is Goes : Tables → Type ℓ)
    → get_job c.job_id db ≡ some job
    → Settled Is Goes (prepare_for now job c db)
    → ((db' : Tables) → Goes db' → Is (conclude later reason c outcome (meanwhile db')).1)
    → Is (handle now later reason c outcome meanwhile db).1
unfolding handle prepare
handled now later reason c outcome meanwhile db job Is Goes found settled after =
    go (prepare_for now job c db) refl
  where
    go :
        (p : Prepared)
        → prepare_for now job c db ≡ p
        → Is (handle now later reason c outcome meanwhile db).1
    go (ended events db') e = rw (found, e, handle, prepare) (rw e at settled)
    go (process db') e = rw (found, e, handle, prepare) (after db' (rw e at settled))

-- A worker that handles a claim of an existing job gives its row and its domain lock back on every path,
-- whatever the pipeline's outcome and whatever others do to the tables in the meantime, unless its task is
-- cancelled in the pipeline; and after any outcome, a cancellation included, `release_worker`, which a worker
-- that shuts down calls for itself, gives them back. The claim is new, so it holds no lock when its handling
-- starts.
pub handle-IsReleased :
    (now later stop : ℕ) (reason : Text) (c : Claim) (outcome : Outcome)
    (meanwhile : Tables → Tables) (db : Tables) (job : Job)
    → get_job c.job_id db ≡ some job
    → any (is_locked_by c) db.sites ≡ false
    → let after = (handle now later reason c outcome meanwhile db).1 in
      ((is_cancelled outcome ≡ true) ⊎ IsReleased c after)
      × IsReleased c (release_worker stop c.token.worker after)
handle-IsReleased now later stop reason c outcome meanwhile db job found free = (
  elim (Bool-cases (is_cancelled outcome)) [
    | inl t ↦ inl t
    | inr go ↦ inr (
        handled now later reason c outcome meanwhile db job (IsReleased c) (λ _. Unit) found
          (prepare_for-Settled now job c db free)
          (λ db' _. conclude-IsReleased later reason c outcome (meanwhile db') go))
  ],
  release_worker-IsReleased stop c (handle now later reason c outcome meanwhile db).1,
)
