-- ===== src/Queue/Fairness.antt =====
-- `claim` serves the job whose owner has the fewest rows running, and serves one whenever there is one.
use email_extractor.Common.{
  ℕ, ◌+◌, ◌≡◌, ◌≢◌, refl, ◌∙◌, Bool, true, false, ◌&&◌, inl, inr, some, List, [], ◌∷◌, arith, ◌==◌,
  String, any, select, take, All, All-imp, is_some, Bool-cases, Option-cases,
}
use email_extractor.Queue.State.{Token, Job, Row, Tables}
use email_extractor.Queue.Claim.{
  Claim, is_available, is_eligible, goes_before, insert_job, sort_jobs, pick_jobs, earlier,
  first_by_seq, pick_row, claim_row, claim_from_job, try_jobs, claim,
}

module _ (db : Tables) where
  goes_before_total : (a b : Job) → goes_before db a b ≡ false → goes_before db b a ≡ true
  unfolding goes_before
  goes_before_total a b h = ground arith

  goes_before_trans :
      (a b c : Job)
      → goes_before db a b ≡ true
      → goes_before db b c ≡ true
      → goes_before db a c ≡ true
  unfolding goes_before
  goes_before_trans a b c h k = ground arith

  goes_before_refl : (a : Job) → goes_before db a a ≡ true
  unfolding goes_before
  goes_before_refl a = ground arith

  insert_job-All {ℓ} :
      (P : Job → Type ℓ) (a : Job) (js : List Job) → P a → All P js → All P (insert_job db a js)
  unfolding insert_job
  insert_job-All P a [] p h = (p, tt)
  insert_job-All P a (k ∷ ks) p h = elim (Bool-cases (goes_before db a k)) [
    | inl e ↦ rw e (p, h)
    | inr e ↦ rw e (h.0, insert_job-All P a ks p h.1)
  ]

  sort_jobs-All {ℓ} : (P : Job → Type ℓ) (js : List Job) → All P js → All P (sort_jobs db js)
  unfolding sort_jobs
  sort_jobs-All P [] h = tt
  sort_jobs-All P (j ∷ js) h = insert_job-All P j (sort_jobs db js) h.0 (sort_jobs-All P js h.1)

  -- A list is empty, or its first job goes before all of another list.
  abbrev Leads : List Job → List Job → Type 0
  Leads [] js = js ≡ []
  Leads (j ∷ _) js = All (λ k. goes_before db j k ≡ true) js

  insert_job-Leads : (a : Job) (s js : List Job) → Leads s js → Leads (insert_job db a s) (a ∷ js)
  unfolding insert_job
  insert_job-Leads a [] js h = rw h (goes_before_refl a, tt)
  insert_job-Leads a (k ∷ ks) js h = elim (Bool-cases (goes_before db a k)) [
    | inl e ↦ rw e (
      goes_before_refl a,
      All-imp (λ b. goes_before db k b ≡ true) (λ b. goes_before db a b ≡ true)
          (λ b q. goes_before_trans a k b e q) js h,
    )
    | inr e ↦ rw e (goes_before_total a k e, h)
  ]

  sort_jobs-Leads : (js : List Job) → Leads (sort_jobs db js) js
  unfolding sort_jobs
  sort_jobs-Leads [] = refl
  sort_jobs-Leads (j ∷ js) = insert_job-Leads j (sort_jobs db js) js (sort_jobs-Leads js)

select-All {ℓ} : {A : Type ℓ} (p : A → Bool) (xs : List A) → All (λ a. p a ≡ true) (select p xs)
select-All p [] = tt
select-All p (x ∷ xs) = elim (Bool-cases (p x)) [
  | inl e ↦ rw e (e, select-All p xs)
  | inr e ↦ rw e (select-All p xs)
]

first_by_seq-is_some :
    (p : Row → Bool) (rs : List Row) → any p rs ≡ true → is_some (first_by_seq (select p rs)) ≡ true
unfolding first_by_seq earlier
first_by_seq-is_some p [] h = cc
first_by_seq-is_some p (r ∷ rs) h = elim (Bool-cases (p r)) [
  | inl e ↦ elim (Option-cases (first_by_seq (select p rs))) [
    | inl n ↦ rw (e, n)
    | inr (a, n) ↦ rw (e, n) (ground arith)
  ]
  | inr e ↦ rw e (first_by_seq-is_some p rs (rw e at h))
]

abbrev pub unlocked_rows : Row → Bool
unlocked_rows _ = false

any-cong {ℓ} :
    {A : Type ℓ} (p q : A → Bool) → ((a : A) → p a ≡ q a) → (xs : List A) → any p xs ≡ any q xs
any-cong p q same [] = refl
any-cong p q same (x ∷ xs) = rw (same x, any-cong p q same xs)

-- An eligible job has a row to pick when no row is locked.
pick_row-is_some :
    (now : ℕ) (db : Tables) (j : Job)
    → is_eligible now db j ≡ true
    → is_some (pick_row now unlocked_rows j.id db) ≡ true
unfolding pick_row is_eligible
pick_row-is_some now db j h =
    first_by_seq-is_some (λ r. r.job_id == j.id && is_available now r && true) db.rows
      (any-cong (λ r. r.job_id == j.id && is_available now r && true)
          (λ r. r.job_id == j.id && is_available now r) (λ r. ground arith) db.rows
        ∙ ground arith)

claim_from_job-some :
    (now : ℕ) (locked : Row → Bool) (tok : Token) (job_id : ℕ) (db : Tables) (r : Row)
    → pick_row now locked job_id db ≡ some r
    → (claim_from_job now locked tok job_id db).0 ≡ some (claim_row now tok r)
unfolding claim_from_job
claim_from_job-some now locked tok job_id db r e = rw (e, claim_from_job)

-- Trying jobs serves the first of them when it is eligible.
try_jobs-first :
    (now : ℕ) (worker : String) (serial : ℕ) (db : Tables) (j : Job) (js : List Job)
    → is_eligible now db j ≡ true
    → (c : Claim) × ((try_jobs now unlocked_rows worker serial (j ∷ js) db).0 ≡ some c)
      × (c.job_id ≡ j.id)
unfolding try_jobs claim_row
try_jobs-first now worker serial db j js h =
    elim (Option-cases (pick_row now unlocked_rows j.id db)) [
      | inl e ↦ absurd (ground (arith, pick_row-is_some now db j h, e))
      | inr (r, e) ↦
          let tok : Token = record { worker = worker; serial = serial } in
          let c : Claim = record {
            job_id = j.id;
            domain = r.domain;
            attempts = r.attempts + 1;
            token = tok;
            not_before = r.requeued_at;
          } in
          let first = claim_from_job-some now unlocked_rows tok j.id db r e in
          (c, rw (first, try_jobs) refl, refl)
    ]

module _ (now : ℕ) (db : Tables) where
  -- What the job that `claim` serves is: eligible, and before every other eligible one.
  abbrev pub IsServed : Job → Type 0
  IsServed j =
      (is_eligible now db j ≡ true)
      × All (λ k. goes_before db j k ≡ true) (select (is_eligible now db) db.jobs)

  pick_jobs-first :
      any (is_eligible now db) db.jobs ≡ true
      → (j : Job) × (js : List Job) × (pick_jobs now db ≡ j ∷ js) × IsServed j
  unfolding pick_jobs
  pick_jobs-first h =
      first (sort_jobs db (select (is_eligible now db) db.jobs)) refl
        (sort_jobs-Leads db (select (is_eligible now db) db.jobs))
        (sort_jobs-All db (λ j. is_eligible now db j ≡ true) (select (is_eligible now db) db.jobs)
          (select-All (is_eligible now db) db.jobs))
    where
      some_eligible :
          (js : List Job) → any (is_eligible now db) js ≡ true → select (is_eligible now db) js ≢ []
      some_eligible [] t e = cc
      some_eligible (j ∷ js) t e = elim (Bool-cases (is_eligible now db j)) [
        | inl x ↦ cc (rw x at e)
        | inr x ↦ some_eligible js (rw x at t) (rw x at e)
      ]

      first :
          (s : List Job)
          → sort_jobs db (select (is_eligible now db) db.jobs) ≡ s
          → Leads db s (select (is_eligible now db) db.jobs)
          → All (λ j. is_eligible now db j ≡ true) s
          → (j : Job) × (js : List Job) × (take 5
                (sort_jobs db (select (is_eligible now db) db.jobs))
              ≡ j ∷ js)
            × IsServed j
      first [] e lead all = absurd (some_eligible db.jobs h lead)
      first (j ∷ js) e lead all = (j, take 4 js, rw e, (all.0, lead))

  -- When some active job has an available row and no row is locked by another transaction, `claim`
  -- returns a claim, and the job it serves has an available row and stands, among all such jobs,
  -- first by its owner's running rows, then its own running rows, then its age.
  pub claim-fair :
      (worker : String) (serial : ℕ)
      → any (is_eligible now db) db.jobs ≡ true
      → (j : Job) × (c : Claim) × ((claim now unlocked_rows worker serial db).0 ≡ some c)
        × (c.job_id ≡ j.id)
        × IsServed j
  unfolding claim
  claim-fair worker serial h =
      let (j, js, e, served) = pick_jobs-first h in
      let (c, given, same) = try_jobs-first now worker serial db j js served.0 in
      (j, c, rw e given, same, served)
