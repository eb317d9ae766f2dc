-- ===== src/Api/Limits/Actions.antt =====
-- People ask for jobs, cancel and resume them, in any order.
use email_extractor.Common.{
  ℕ, ◌≡◌, refl, ◌≤◌, Bool, true, false, not, ◌&&◌, inl, inr, Bool-cases, Option, none, some, List,
  [], all, ◌∷◌, arith, count_if, ◌==◌,
}
use email_extractor.Queue.State.{JobStatus, Job, Tables, update}
use email_extractor.Queue.Finish.{complete_if_finished, completed_job, is_completable}
use email_extractor.Queue.Sweep.{
  is_unfinished, is_paused, moved_job, transition, cancel_job, resume_job,
}
use email_extractor.Api.{
  ApiError, job_already_finished, job_not_paused, Principal, JobRequest, Server, post_job,
  is_unfinished_of, count_unfinished, max_active_jobs,
}
use email_extractor.Api.Routes.{
  answer_if, get_job, cancel_found, resume_found, cancel_route, resume_route,
}
use email_extractor.Api.Limits.{post_job-limited}

count_if-update {ℓ} :
    {A : Type ℓ} (p t : A → Bool) (f : A → A) (xs : List A)
    → ((x : A) → t x ≡ true → p (f x) ≡ true → p x ≡ true)
    → count_if p (update t f xs) ≤ count_if p xs
unfolding update
count_if-update p t f [] k = omega arith
count_if-update p t f (x ∷ xs) k = ground (arith, count_if-update p t f xs k, k x)

cancel_job-limited :
    (now job_id : ℕ) (v : Option ℕ) (db : Tables)
    → count_unfinished v (cancel_job now job_id db).1 ≤ count_unfinished v db
unfolding count_unfinished cancel_job transition is_unfinished_of moved_job
cancel_job-limited now job_id v db =
    count_if-update (is_unfinished_of v) (λ j. j.id == job_id && is_unfinished j.status)
      (moved_job now JobStatus.cancelled none) db.jobs (λ j t e. ground arith)

complete_if_finished-limited :
    (now job_id : ℕ) (v : Option ℕ) (db : Tables)
    → count_unfinished v (complete_if_finished now job_id db).1 ≤ count_unfinished v db
unfolding count_unfinished complete_if_finished is_unfinished_of is_completable completed_job
complete_if_finished-limited now job_id v db =
    count_if-update (is_unfinished_of v) (λ j. j.id == job_id && is_completable db.rows j)
      (completed_job now db.rows) db.jobs (λ j t e. ground arith)

resumed-limited :
    (now job_id : ℕ) (v : Option ℕ) (db : Tables)
    → count_unfinished v (transition now job_id is_paused JobStatus.running none db).1
      ≤ count_unfinished v db
unfolding count_unfinished transition is_unfinished_of moved_job
resumed-limited now job_id v db =
    count_if-update (is_unfinished_of v) (λ j. j.id == job_id && is_paused j.status)
      (moved_job now JobStatus.running none) db.jobs (λ j t e. ground arith)

resume_job-limited :
    (now job_id : ℕ) (v : Option ℕ) (db : Tables)
    → count_unfinished v (resume_job now job_id db).1 ≤ count_unfinished v db
unfolding resume_job
resume_job-limited now job_id v db =
    let moved = transition now job_id is_paused JobStatus.running none db in
    elim (Bool-cases moved.0) [
      | inl t ↦
          rw (t, resume_job)
            (omega (
              arith,
              complete_if_finished-limited now job_id v moved.1,
              resumed-limited now job_id v db,
            ))
      | inr t ↦ rw (t, resume_job) (resumed-limited now job_id v db)
    ]

-- What people ask the API to do with jobs, but for retries.
pub data Action : Type 0 where
  post : JobRequest → Action
  cancel resume : (who : Principal) (now job_id : ℕ) → Action

unfoldable pub act : Action → Server → Server
act (post r) s = (post_job r s).1
act (cancel who now job_id) s = record s { db = (cancel_route who now job_id s.db).1 }
act (resume who now job_id) s = record s { db = (resume_route who now job_id s.db).1 }

unfoldable pub act_all : List Action → Server → Server
act_all [] s = s
act_all (a ∷ rest) s = act_all rest (act a s)

-- An action that is no administrator's new job.
abbrev pub is_limited : Action → Bool
is_limited (post r) = not r.who.is_admin
is_limited (cancel who now job_id) = true
is_limited (resume who now job_id) = true

answer_if-db : (e : ApiError) (moved : Bool × Tables) → (answer_if e moved).1 ≡ moved.1
unfolding answer_if
answer_if-db e (true, db) = refl
answer_if-db e (false, db) = refl

cancel_found-limited :
    (now job_id : ℕ) (v : Option ℕ) (db : Tables) (j : Option Job)
    → count_unfinished v (cancel_found now job_id db j).1 ≤ count_unfinished v db
unfolding cancel_found
cancel_found-limited now job_id v db none = omega arith
cancel_found-limited now job_id v db (some j) =
    rw (answer_if-db job_already_finished (cancel_job now job_id db))
      (cancel_job-limited now job_id v db)

resume_found-limited :
    (now job_id : ℕ) (v : Option ℕ) (db : Tables) (j : Option Job)
    → count_unfinished v (resume_found now job_id db j).1 ≤ count_unfinished v db
unfolding resume_found
resume_found-limited now job_id v db none = omega arith
resume_found-limited now job_id v db (some j) =
    rw (answer_if-db job_not_paused (resume_job now job_id db)) (resume_job-limited now job_id v db)

act-limited :
    (a : Action) (s : Server) (v : Option ℕ)
    → is_limited a ≡ true
    → count_unfinished v s.db ≤ max_active_jobs
    → count_unfinished v (act a s).db ≤ max_active_jobs
unfolding act cancel_route resume_route
act-limited (post r) s v plain h = post_job-limited r s v (ground arith) h
act-limited (cancel who now job_id) s v plain h =
    omega (arith, cancel_found-limited now job_id v s.db (get_job who job_id s.db))
act-limited (resume who now job_id) s v plain h =
    omega (arith, resume_found-limited now job_id v s.db (get_job who job_id s.db))

-- Whatever jobs people ask for, cancel and resume, in whatever order, a person with at most three
-- unfinished jobs before has at most three behind, as long as no administrator asks for a new job.
-- Retries are not among these actions.
pub act_all-limited :
    (v : Option ℕ) (actions : List Action) (s : Server)
    → all is_limited actions ≡ true
    → count_unfinished v s.db ≤ max_active_jobs
    → count_unfinished v (act_all actions s).db ≤ max_active_jobs
unfolding act_all
act_all-limited v [] s plain h = h
act_all-limited v (a ∷ rest) s plain h =
    act_all-limited v rest (act a s) (ground arith) (act-limited a s v (ground arith) h)
