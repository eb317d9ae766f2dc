-- ===== src/Queue/Exclusion/Keeping.antt =====
-- What the transactions of app/queue.py do to a domain's lock that another claim holds.
use email_extractor.Common.{
  ℕ, ◌+◌, ◌≤◌, ◌≡◌, refl, ◌∙◌, Bool, true, false, inl, inr, none, some, Option-cases, String, List,
  [], ◌∷◌, ◌++◌, arith, if◌then◌else◌, Text, text_eq, eq_text_iff, any, All-append, Bool-cases, not,
  ◌&&◌,
}
use email_extractor.Schemas.{DomainResult}
use email_extractor.Queue.State.{
  Token, Site, Tables, Job, JobStatus, Row, held_by, held_by_any, held_by_worker, update,
}
use email_extractor.Queue.Claim.{Claim, try_jobs, claim_from_job, pick_row, start_job}
use email_extractor.Queue.Locks.{
  lease_s, new_site, insert_site, is_lockable, lock_domain, is_locked_by, unlocked, unlock_domain,
}
use email_extractor.Queue.Finish.{cached_site, finish, is_claimed_by, complete_if_finished}
use email_extractor.Queue.Sweep.{
  heartbeat, release_worker, complete_each, resume_job, transition, is_paused,
}
use email_extractor.Queue.Create.{insert_sites}
use email_extractor.Queue.Consistency.{All-update}
use email_extractor.Queue.Exclusion.{is_site, Holds, any-update_same}

-- What is held in a row of the table.
abbrev IsHeld : Text → Token → ℕ → Site → Type 0
IsHeld domain tok until s =
    is_site domain s ≡ true → (s.lock_owner ≡ some tok) × (s.lock_until ≡ some until)

Holds-update :
    (domain : Text) (tok : Token) (until until' : ℕ) (p : Site → Bool) (f : Site → Site)
    (sites : List Site)
    → ((s : Site) → is_site domain (f s) ≡ is_site domain s)
    → ((s : Site) → IsHeld domain tok until s → IsHeld domain tok until' (if p s then f s else s))
    → Holds domain tok until sites
    → Holds domain tok until' (update p f sites)
Holds-update domain tok until until' p f sites same keep h = record {
  present = any-update_same (is_site domain) p f same sites ∙ h.present;
  held = All-update (IsHeld domain tok until) (IsHeld domain tok until') p f keep sites h.held;
}

any-append_left {ℓ} :
    {A : Type ℓ} (p : A → Bool) (xs ys : List A) → any p xs ≡ true → any p (xs ++ ys) ≡ true
any-append_left p [] ys h = cc
any-append_left p (x ∷ xs) ys h = ground (arith, any-append_left p xs ys)

Holds-insert_site :
    (domain d : Text) (tok : Token) (until : ℕ) (sites : List Site)
    → Holds domain tok until sites
    → Holds domain tok until (insert_site d sites)
unfolding insert_site new_site
Holds-insert_site domain d tok until sites h =
    elim (Bool-cases (any (λ s. text_eq.beq s.domain d) sites)) [
      | inl e ↦ rw e h
      | inr f ↦ rw f (record {
        present = any-append_left (is_site domain) sites (new_site d ∷ []) h.present;
        held = All-append (IsHeld domain tok until) sites (new_site d ∷ []) h.held (
          (λ e.
              let same = (eq_text_iff d domain).0 e in
              let here : any (is_site d) sites ≡ true = rw same h.present in cc),
          tt,
        );
      })
    ]

pub Holds-insert_sites :
    (domain : Text) (tok : Token) (until : ℕ) (ds : List Text) (sites : List Site)
    → Holds domain tok until sites
    → Holds domain tok until (insert_sites ds sites)
unfolding insert_sites
Holds-insert_sites domain tok until [] sites h = h
Holds-insert_sites domain tok until (d ∷ ds) sites h =
    Holds-insert_sites domain tok until ds (insert_site d sites)
      (Holds-insert_site domain d tok until sites h)

pub heartbeat-Holds :
    (now until : ℕ) (domain : Text) (tok : Token) (toks : List Token) (db : Tables)
    → Holds domain tok until db.sites
    → Holds domain tok
        (if held_by_any toks (some tok) then now + lease_s else until)
        (heartbeat now toks db).sites
unfolding heartbeat
heartbeat-Holds now until domain tok toks db h =
    Holds-update domain tok until (if held_by_any toks (some tok) then now + lease_s else until)
      (λ s. held_by_any toks s.lock_owner) (λ s. record s { lock_until = some (now + lease_s) })
      db.sites (λ s. refl) keep h
  where
    keep :
        (s : Site)
        → IsHeld domain tok until s
        → IsHeld domain tok (if held_by_any toks (some tok) then now + lease_s else until) (
            if held_by_any toks s.lock_owner
            then record s { lock_until = some (now + lease_s) }
            else s)
    keep s k = elim (Bool-cases (held_by_any toks s.lock_owner)) [
      | inl t ↦ rw t (λ e.
          let own = (k e).0 in
          let live : held_by_any toks (some tok) ≡ true = rw own at t in (own, rw live refl))
      | inr f ↦ rw f (λ e.
          let own = (k e).0 in
          let idle : held_by_any toks (some tok) ≡ false = rw own at f in (own, rw idle ((k e).1)))
    ]

pub lock_domain-keeps :
    (now until : ℕ) (domain : Text) (tok : Token) (d : Claim) (db : Tables)
    → now ≤ until
    → Holds domain tok until db.sites
    → Holds domain tok until (lock_domain now d db).1.sites
unfolding lock_domain
lock_domain-keeps now until domain tok d db soon h =
    Holds-update domain tok until until (is_lockable now d.domain) _ (insert_site d.domain db.sites)
      (λ s. refl)
      (λ s k. elim (Bool-cases (is_lockable now d.domain s)) [
        | inl t ↦ rw t (λ e. absurd (ground (arith, k e)))
        | inr f ↦ rw f k
      ])
      (Holds-insert_site domain d.domain tok until db.sites h)

-- Giving back locks that are others' keeps the lock.
unlocked-keeps :
    (until : ℕ) (domain : Text) (tok : Token) (p : Site → Bool) (sites : List Site)
    → ((s : Site) → s.lock_owner ≡ some tok → p s ≡ false)
    → Holds domain tok until sites
    → Holds domain tok until (update p unlocked sites)
unfolding unlocked
unlocked-keeps until domain tok p sites others h =
    Holds-update domain tok until until p unlocked sites (λ s. refl)
      (λ s k. elim (Bool-cases (p s)) [
        | inl t ↦ rw t (λ e. cc (others s ((k e).0)))
        | inr f ↦ rw f k
      ])
      h

-- A token that is not the claim's does not hold the claim's locks.
not_locked :
    (tok : Token) (d : Claim) (s : Site)
    → held_by d.token (some tok) ≡ false
    → s.lock_owner ≡ some tok
    → is_locked_by d s ≡ false
not_locked tok d s other own = rw own (ground arith)

pub unlock_domain-keeps :
    (until : ℕ) (domain : Text) (tok : Token) (d : Claim) (db : Tables)
    → held_by d.token (some tok) ≡ false
    → Holds domain tok until db.sites
    → Holds domain tok until (unlock_domain d db).sites
unfolding unlock_domain
unlock_domain-keeps until domain tok d db other h =
    unlocked-keeps until domain tok (is_locked_by d) db.sites
      (λ s own. not_locked tok d s other own) h

-- What `finish` writes to the shared cache touches no lock.
cached_site-keeps :
    (now until : ℕ) (domain : Text) (tok : Token) (result : DomainResult) (written : Bool)
    (p : Site → Bool) (sites : List Site)
    → Holds domain tok until sites
    → Holds domain tok until (if written then update p (cached_site now result) sites else sites)
unfolding cached_site
cached_site-keeps now until domain tok result false p sites h = h
cached_site-keeps now until domain tok result true p sites h =
    Holds-update domain tok until until p (cached_site now result) sites (λ s. refl)
      (λ s k. elim (Bool-cases (p s)) [ inl t ↦ rw t k | inr f ↦ rw f k ]) h

pub finish-keeps :
    (now until : ℕ) (domain : Text) (tok : Token) (d : Claim) (result : DomainResult)
    (from_cache write_cache : Bool) (db : Tables)
    → held_by d.token (some tok) ≡ false
    → Holds domain tok until db.sites
    → Holds domain tok until (finish now d result from_cache write_cache db).2.sites
unfolding finish complete_if_finished
finish-keeps now until domain tok d result from_cache write_cache db other h =
    elim (Bool-cases (any (is_claimed_by d) db.rows)) [
      | inr e ↦ rw e (unlock_domain-keeps until domain tok d db other h)
      | inl e ↦ rw e (
          unlocked-keeps until domain tok (is_locked_by d) _ (λ s own. not_locked tok d s other own)
            (cached_site-keeps now until domain tok result (not from_cache && write_cache) _
              db.sites h))
    ]

pub release_worker-keeps :
    (now until : ℕ) (domain : Text) (tok : Token) (worker : String) (db : Tables)
    → held_by_worker worker (some tok) ≡ false
    → Holds domain tok until db.sites
    → Holds domain tok until (release_worker now worker db).sites
unfolding release_worker
release_worker-keeps now until domain tok worker db other h =
    unlocked-keeps until domain tok (λ s. held_by_worker worker s.lock_owner) db.sites
      (λ s own. rw own other) h

sites-claim_from_job :
    (now : ℕ) (locked : Row → Bool) (tok : Token) (job_id : ℕ) (db : Tables)
    → (claim_from_job now locked tok job_id db).1.sites ≡ db.sites
unfolding claim_from_job
sites-claim_from_job now locked tok job_id db =
    elim (Option-cases (pick_row now locked job_id db)) [
      | inl e ↦ rw (e, claim_from_job)
      | inr (r, e) ↦ rw (e, claim_from_job)
    ]

pub sites-try_jobs :
    (now : ℕ) (locked : Row → Bool) (worker : String) (serial : ℕ) (js : List Job) (db : Tables)
    → (try_jobs now locked worker serial js db).1.sites ≡ db.sites
unfolding try_jobs claim_from_job start_job
sites-try_jobs now locked worker serial [] db = refl
sites-try_jobs now locked worker serial (j ∷ js) db =
    elim (Option-cases (pick_row now locked j.id db)) [
      | inl e ↦
          rw (e, claim_from_job, try_jobs) (sites-try_jobs now locked worker (serial + 1) js db)
      | inr (r, e) ↦
          rw (e, claim_from_job, try_jobs)
            (sites-claim_from_job now locked (record { worker = worker; serial = serial }) j.id db)
    ]

pub sites-complete_each :
    (now : ℕ) (js : List Job) (db : Tables) → (complete_each now js db).sites ≡ db.sites
unfolding complete_each complete_if_finished
sites-complete_each now [] db = refl
sites-complete_each now (j ∷ js) db =
    sites-complete_each now js (complete_if_finished now j.id db).1

pub sites-resume_job :
    (now job_id : ℕ) (db : Tables) → (resume_job now job_id db).1.sites ≡ db.sites
unfolding resume_job transition complete_if_finished
sites-resume_job now job_id db =
    elim (Bool-cases (transition now job_id is_paused JobStatus.running none db).0) [
      | inl t ↦ rw (t, resume_job) refl
      | inr f ↦ rw (f, resume_job) refl
    ]
