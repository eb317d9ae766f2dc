-- ===== src/Api/Limits.antt =====
-- The limit on a person's unfinished jobs, which `_create_job` counts under the person's lock.
pub mod Actions
use email_extractor.Common.{
  ℕ, ◌≡◌, refl, sym, ap, ◌≤◌, ◌+◌, Bool, true, false, not, ◌&&◌, inl, inr, Bool-cases, Option-cases,
  Option, none, some, is_some, List, [], all, ◌∷◌, ◌++◌, arith, leb, ltb, count_if, if◌then◌else◌,
  ◌==◌,
}
use email_extractor.Queue.State.{JobStatus, Job, Tables, update}
use email_extractor.Queue.Finish.{complete_if_finished, completed_job, is_completable}
use email_extractor.Queue.Sweep.{
  is_unfinished, is_paused, moved_job, transition, cancel_job, resume_job,
}
use email_extractor.Queue.Create.{new_job, create_job, unique_domains}
use email_extractor.Queue.Claim.{same_owner}
use email_extractor.Api.{
  ApiError, job_already_finished, job_not_paused, Principal, JobRequest, Server, Response,
  early_error, late_error, finish_request, add_job, replay_of, post_job, is_unfinished_of,
  count_unfinished, max_active_jobs,
}
use email_extractor.Api.Routes.{
  answer_if, get_job, cancel_found, resume_found, cancel_route, resume_route,
}

count_if-snoc {ℓ} :
    {A : Type ℓ} (p : A → Bool) (xs : List A) (y : A)
    → count_if p (xs ++ y ∷ []) ≡ count_if p xs + (if p y then 1 else 0)
count_if-snoc p [] y = omega arith
count_if-snoc p (x ∷ xs) y = omega (arith, count_if-snoc p xs y)

same_owner-to-eq : (a b : Option ℕ) → same_owner a b ≡ true → a ≡ b
same_owner-to-eq none none e = refl
same_owner-to-eq none (some b) e = cc
same_owner-to-eq (some a) none e = cc
same_owner-to-eq (some a) (some b) e = ap some (ground arith)

-- A new job counts for the person that asks for it alone.
count_unfinished-added :
    (r : JobRequest) (s : Server) (v : Option ℕ)
    → count_unfinished v (add_job r s).1.db
      ≤ count_unfinished v s.db + (if same_owner r.who.user_id v then 1 else 0)
unfolding count_unfinished add_job create_job is_unfinished_of new_job
count_unfinished-added r s v =
    let p = is_unfinished_of v in
    let domains = unique_domains r.items in
    let job = new_job r.now r.new_id r.who.user_id r.fresh r.webhook_url domains in
    ground (arith, count_if-snoc p s.db.jobs job)

-- The guard passes only a person with fewer unfinished jobs than the limit.
late_error-below :
    (r : JobRequest) (db : Tables)
    → r.who.is_admin ≡ false
    → late_error r db ≡ none
    → count_unfinished r.who.user_id db + 1 ≤ max_active_jobs
unfolding late_error
late_error-below r db plain e = ground arith

add_job-limited :
    (r : JobRequest) (s : Server) (v : Option ℕ)
    → r.who.is_admin ≡ false
    → late_error r s.db ≡ none
    → count_unfinished v s.db ≤ max_active_jobs
    → count_unfinished v (add_job r s).1.db ≤ max_active_jobs
add_job-limited r s v plain e h = elim (Bool-cases (same_owner r.who.user_id v)) [
  | inl t ↦
      let same = same_owner-to-eq r.who.user_id v t in
      omega (
        arith,
        rw same at (late_error-below r s.db plain e),
        rw t at (count_unfinished-added r s v),
      )
  | inr t ↦ omega (arith, rw t at (count_unfinished-added r s v))
]

finish_request-limited :
    (r : JobRequest) (s : Server) (v : Option ℕ) (o : Option Response)
    → r.who.is_admin ≡ false
    → count_unfinished v s.db ≤ max_active_jobs
    → count_unfinished v (finish_request r s o).1.db ≤ max_active_jobs
unfolding finish_request
finish_request-limited r s v (some a) plain h = h
finish_request-limited r s v none plain h = elim (Option-cases (late_error r s.db)) [
  | inl n ↦ rw (n, finish_request) (add_job-limited r s v plain n h)
  | inr (a, e) ↦ rw (e, finish_request) h
]

pub post_job-limited :
    (r : JobRequest) (s : Server) (v : Option ℕ)
    → r.who.is_admin ≡ false
    → count_unfinished v s.db ≤ max_active_jobs
    → count_unfinished v (post_job r s).1.db ≤ max_active_jobs
unfolding post_job
post_job-limited r s v plain h = elim (Option-cases (early_error r)) [
  | inl n ↦
      rw (n, post_job) (finish_request-limited r s v (replay_of r s r.idempotency_key) plain h)
  | inr (a, e) ↦ rw (e, post_job) h
]
