-- ===== src/Queue/Ownership.antt =====
-- A claim's token guards its row: only the claim that holds a row writes its outcome, and once.
use email_extractor.Common.{
  ℕ, ◌≡◌, refl, sym, ap, ◌∙◌, Bool, false, inl, inr, List, [], ◌∷◌, arith, text_eq, any, Bool-cases,
}
use email_extractor.Schemas.{DomainResult}
use email_extractor.Queue.State.{Site, Tables, update}
use email_extractor.Queue.Claim.{Claim}
use email_extractor.Queue.Locks.{is_locked_by, unlocked, unlock_domain}
use email_extractor.Queue.Finish.{
  is_claimed_by, finished_row, complete_if_finished, finish, requeued_row, requeue,
}

-- A claim that no longer holds its row (it was reaped, released or requeued) records nothing: no
-- row and no job changes, and of the shared cache only the claim's own lock is given back.
pub finish-lost :
    (now : ℕ) (c : Claim) (result : DomainResult) (from_cache write_cache : Bool) (db : Tables)
    → any (is_claimed_by c) db.rows ≡ false
    → finish now c result from_cache write_cache db ≡ (false, false, unlock_domain c db)
unfolding finish
finish-lost now c result from_cache write_cache db e = rw e

any-update_none {ℓ} :
    {A : Type ℓ} (p : A → Bool) (f : A → A)
    → ((a : A) → p (f a) ≡ false)
    → (xs : List A) → any p (update p f xs) ≡ false
unfolding update
any-update_none p f out [] = refl
any-update_none p f out (x ∷ xs) = elim (Bool-cases (p x)) [
  | inl e ↦ rw (e, out x) (any-update_none p f out xs)
  | inr e ↦ rw (e, e) (any-update_none p f out xs)
]

pub update-idle {ℓ} :
    {A : Type ℓ} (p : A → Bool) (f : A → A) (xs : List A) → any p xs ≡ false → update p f xs ≡ xs
unfolding update
update-idle p f [] h = refl
update-idle p f (x ∷ xs) h = ground (arith, update-idle p f xs)

-- What `finish` leaves in the rows, whether it recorded or not.
pub rows-finish :
    (now : ℕ) (c : Claim) (result : DomainResult) (from_cache write_cache : Bool) (db : Tables)
    → (finish now c result from_cache write_cache db).2.rows
      ≡ update (is_claimed_by c) (finished_row now result from_cache) db.rows
unfolding finish complete_if_finished unlock_domain
rows-finish now c result from_cache write_cache db =
    elim (Bool-cases (any (is_claimed_by c) db.rows)) [
      | inl e ↦ rw e
      | inr e ↦
          rw e (sym (update-idle (is_claimed_by c) (finished_row now result from_cache) db.rows e))
    ]

-- After `finish` and after `requeue` no row is held by the claim.
pub finish-releases :
    (now : ℕ) (c : Claim) (result : DomainResult) (from_cache write_cache : Bool) (db : Tables)
    → any (is_claimed_by c) (finish now c result from_cache write_cache db).2.rows ≡ false
finish-releases now c result from_cache write_cache db =
    rw (rows-finish now c result from_cache write_cache db) (
      any-update_none (is_claimed_by c) (finished_row now result from_cache)
        (λ r. unfold finished_row in ground arith) db.rows)

pub requeue-releases :
    (now : ℕ) (c : Claim) (delay : ℕ) (counted : Bool) (db : Tables)
    → any (is_claimed_by c) (requeue now c delay counted db).rows ≡ false
unfolding requeue
requeue-releases now c delay counted db =
    any-update_none (is_claimed_by c) (requeued_row now delay counted)
      (λ r. unfold requeued_row in ground arith) db.rows

-- The outcome of a claim is recorded at most once: whatever was finished first, a second `finish`
-- by the same claim is told that it lost the row, and changes no row.
pub finish-once :
    (now later : ℕ) (c : Claim) (first second : DomainResult) (fc wc fc' wc' : Bool) (db : Tables)
    → let db' = (finish now c first fc wc db).2 in
      ((finish later c second fc' wc' db').0 ≡ false)
      × ((finish later c second fc' wc' db').2.rows ≡ db'.rows)
finish-once now later c first second fc wc fc' wc' db =
    let db' = (finish now c first fc wc db).2 in
    let gone = finish-releases now c first fc wc db in
    (
      ap (λ r. r.0) (finish-lost later c second fc' wc' db' gone),
      rows-finish later c second fc' wc' db'
          ∙ update-idle (is_claimed_by c) (finished_row later second fc') db'.rows gone,
    )

unlocked-free : (c : Claim) (s : Site) → is_locked_by c (unlocked s) ≡ false
unfolding unlocked
unlocked-free c s = ground arith

-- After `unlock_domain` and after `finish`, recorded or not, the claim holds no domain lock.
pub unlock_domain-unlocks :
    (c : Claim) (db : Tables) → any (is_locked_by c) (unlock_domain c db).sites ≡ false
unfolding unlock_domain
unlock_domain-unlocks c db = any-update_none (is_locked_by c) unlocked (unlocked-free c) db.sites

pub finish-unlocks :
    (now : ℕ) (c : Claim) (result : DomainResult) (from_cache write_cache : Bool) (db : Tables)
    → any (is_locked_by c) (finish now c result from_cache write_cache db).2.sites ≡ false
unfolding finish complete_if_finished
finish-unlocks now c result from_cache write_cache db =
    elim (Bool-cases (any (is_claimed_by c) db.rows)) [
      | inl e ↦ rw e (any-update_none (is_locked_by c) unlocked (unlocked-free c) _)
      | inr e ↦ rw e (unlock_domain-unlocks c db)
    ]

-- A requeue touches no lock, and giving a lock back touches no row.
pub sites-requeue :
    (now : ℕ) (c : Claim) (delay : ℕ) (counted : Bool) (db : Tables)
    → (requeue now c delay counted db).sites ≡ db.sites
unfolding requeue
sites-requeue now c delay counted db = refl

pub rows-unlock_domain : (c : Claim) (db : Tables) → (unlock_domain c db).rows ≡ db.rows
unfolding unlock_domain
rows-unlock_domain c db = refl
