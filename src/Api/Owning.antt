-- ===== src/Api/Owning.antt =====
-- `_get_job`: nobody but an administrator learns of another person's job, or changes it.
use email_extractor.Common.{
  ℕ, ◌≡◌, refl, Bool, true, false, not, ◌&&◌, ◌⊎◌, inl, inr, Bool-cases, none, some, List, [], ◌∷◌,
  arith, ◌==◌, all, find_first,
}
use email_extractor.Queue.State.{Job, Tables}
use email_extractor.Queue.Claim.{same_owner}
use email_extractor.Api.{job_not_found, Principal}
use email_extractor.Api.Routes.{
  get_job, retry_found, retry_route, resume_found, resume_route, cancel_found, cancel_route,
}

-- Neither of the person's own nor with that id.
abbrev pub is_foreign : Principal → (job_id : ℕ) → Job → Bool
is_foreign who job_id j = not (j.id == job_id && same_owner j.owner_id who.user_id)

-- The job that is found among foreign ones is none of the person's.
find_first-foreign :
    (who : Principal) (job_id : ℕ) (jobs : List Job)
    → all (is_foreign who job_id) jobs ≡ true
    → (find_first (λ (j : Job). j.id == job_id) jobs ≡ none)
      ⊎ ((j : Job) × (find_first (λ (j : Job). j.id == job_id) jobs ≡ some j)
          × (same_owner j.owner_id who.user_id ≡ false))
find_first-foreign who job_id [] h = inl refl
find_first-foreign who job_id (j ∷ jobs) h = elim (Bool-cases (j.id == job_id)) [
  | inl t ↦ inr (j, rw t refl, ground arith)
  | inr t ↦ rw t (find_first-foreign who job_id jobs (ground arith))
]

get_job-foreign :
    (who : Principal) (job_id : ℕ) (db : Tables)
    → who.is_admin ≡ false
    → all (is_foreign who job_id) db.jobs ≡ true
    → get_job who job_id db ≡ none
unfolding get_job
get_job-foreign who job_id db plain h = elim (find_first-foreign who job_id db.jobs h) [
  | inl n ↦ rw (n, get_job) refl
  | inr (j, f, other) ↦ rw (f, get_job) (rw (plain, other) refl)
]

-- A person who is no administrator, and has no job with the id, gets the answer that there is no such job
-- when retrying, resuming or cancelling it, and changes nothing, whether another person has a job with
-- that id or nobody has.
pub routes-NotFound :
    (who : Principal) (now job_id : ℕ) (db : Tables)
    → who.is_admin ≡ false
    → all (is_foreign who job_id) db.jobs ≡ true
    → (retry_route who now job_id db ≡ (some job_not_found, db))
      × (resume_route who now job_id db ≡ (some job_not_found, db))
      × (cancel_route who now job_id db ≡ (some job_not_found, db))
unfolding retry_route resume_route cancel_route retry_found resume_found cancel_found
routes-NotFound who now job_id db plain h =
    let none_found = get_job-foreign who job_id db plain h in
    (rw (none_found, retry_route), rw (none_found, resume_route), rw (none_found, cancel_route))
