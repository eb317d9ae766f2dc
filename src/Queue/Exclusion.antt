-- ===== src/Queue/Exclusion.antt =====
-- The domain locks: two claims never hold the lock of one domain at a time, unless one let its lease
-- run out.
use email_extractor.Common.{
  ℕ, ◌+◌, ◌≤◌, ◌≡◌, refl, ◌∙◌, Bool, true, false, inl, inr, some, List, [], ◌∷◌, ◌++◌, arith, Text,
  text_eq, any, All, count_if, Bool-cases,
}
use email_extractor.Queue.State.{Stage, Token, Site, Tables, update}
use email_extractor.Queue.Claim.{Claim}
use email_extractor.Queue.Locks.{lease_s, new_site, insert_site, is_lockable, lock_domain}
use email_extractor.Queue.Ownership.{update-idle}
use email_extractor.Queue.Consistency.{All-update}
pub mod Keeping
pub mod Histories

abbrev pub is_site : Text → Site → Bool
is_site domain s = text_eq.beq s.domain domain

-- The lock of a domain is held by a token until a time, in every row of the domain, and there is one.
pub record Holds (domain : Text) (tok : Token) (until : ℕ) (sites : List Site) : Type 0 where
  pub present : any (is_site domain) sites ≡ true
  pub held :
      All
        (λ s. is_site domain s ≡ true → (s.lock_owner ≡ some tok) × (s.lock_until ≡ some until))
        sites

held-refuses :
    (now : ℕ) (domain : Text) (tok : Token) (until : ℕ) (sites : List Site)
    → now ≤ until
    → All
        (λ s. is_site domain s ≡ true → (s.lock_owner ≡ some tok) × (s.lock_until ≡ some until))
        sites
    → any (is_lockable now domain) sites ≡ false
held-refuses now domain tok until [] h k = refl
held-refuses now domain tok until (s ∷ sites) h k =
    ground (arith, k.0, held-refuses now domain tok until sites h k.1)

-- While a token holds a domain's lock, every other attempt to take it is refused and changes
-- nothing.
pub lock_domain-refused :
    (now until : ℕ) (tok : Token) (c : Claim) (db : Tables)
    → now ≤ until
    → Holds c.domain tok until db.sites
    → lock_domain now c db ≡ (false, db)
unfolding lock_domain insert_site
lock_domain-refused now until tok c db h k =
    let no = held-refuses now c.domain tok until db.sites h k.held in
    rw (k.present, no, update-idle _ _ db.sites no)

no_site :
    (now : ℕ) (domain : Text) (sites : List Site)
    → count_if (is_site domain) sites ≡ 0
    → All (λ s. is_site domain s ≡ true → is_lockable now domain s ≡ true) sites
      × (any (is_lockable now domain) sites ≡ false)
no_site now domain [] h = (tt, refl)
no_site now domain (s ∷ sites) h =
    let ih = no_site now domain sites (ground arith) in
    let no : is_site domain s ≡ false = ground arith in ((λ e. cc, ih.0), ground (arith, ih.1))

one_site :
    (now : ℕ) (domain : Text) (sites : List Site)
    → count_if (is_site domain) sites ≤ 1
    → any (is_lockable now domain) sites ≡ true
    → All (λ s. is_site domain s ≡ true → is_lockable now domain s ≡ true) sites
one_site now domain [] h k = tt
one_site now domain (s ∷ sites) h k = elim (Bool-cases (is_site domain s)) [
  | inl e ↦
      let none_left = no_site now domain sites (ground arith) in
      (λ _. ground (arith, none_left.1), none_left.0)
  | inr e ↦ (λ t. cc, one_site now domain sites (ground arith) (ground arith))
]

-- What `lock_domain` writes.
abbrev locked_site : ℕ → Token → Site → Site
locked_site now tok s = record s {
  lock_owner = some tok;
  lock_until = some (now + lease_s);
  stage = Stage.fetching;
}

any-of {ℓ} :
    {A : Type ℓ} (p q : A → Bool) (xs : List A)
    → ((a : A) → p a ≡ true → q a ≡ true)
    → any p xs ≡ true
    → any q xs ≡ true
any-of p q [] f h = h
any-of p q (x ∷ xs) f h = ground (arith, f x, any-of p q xs f)

pub any-update_same {ℓ} :
    {A : Type ℓ} (q p : A → Bool) (f : A → A)
    → ((a : A) → q (f a) ≡ q a)
    → (xs : List A) → any q (update p f xs) ≡ any q xs
unfolding update
any-update_same q p f same [] = refl
any-update_same q p f same (x ∷ xs) = ground (arith, same x, any-update_same q p f same xs)

locked_now :
    (now : ℕ) (c : Claim) (sites : List Site)
    → count_if (is_site c.domain) sites ≤ 1
    → any (is_lockable now c.domain) sites ≡ true
    → Holds c.domain c.token
        (now + lease_s)
        (update (is_lockable now c.domain) (locked_site now c.token) sites)
locked_now now c sites h k = record {
  present =
      any-update_same (is_site c.domain) (is_lockable now c.domain) (locked_site now c.token)
        (λ a. refl) sites
      ∙ any-of (is_lockable now c.domain) (is_site c.domain) sites (λ a e. ground arith) k;
  held =
      All-update (λ s. is_site c.domain s ≡ true → is_lockable now c.domain s ≡ true)
        (λ s.
          is_site c.domain s ≡ true
          → (s.lock_owner ≡ some c.token) × (s.lock_until ≡ some (now + lease_s)))
        (is_lockable now c.domain) (locked_site now c.token)
        (λ s all. elim (Bool-cases (is_lockable now c.domain s)) [
          | inl e ↦ rw e (λ _. (refl, refl))
          | inr e ↦ rw e (λ t. ground (arith, all t))
        ])
        sites (one_site now c.domain sites h k);
}

count_if-append {ℓ} :
    {A : Type ℓ} (p : A → Bool) (xs ys : List A)
    → count_if p (xs ++ ys) ≡ count_if p xs + count_if p ys
count_if-append p [] ys = omega arith
count_if-append p (x ∷ xs) ys = ground (arith, count_if-append p xs ys)

any-count {ℓ} : {A : Type ℓ} (p : A → Bool) (xs : List A) → any p xs ≡ false → count_if p xs ≡ 0
any-count p [] h = refl
any-count p (x ∷ xs) h = ground (arith, any-count p xs)

-- A new row is only added where there is none.
count_if-insert_site :
    (domain : Text) (sites : List Site)
    → count_if (is_site domain) sites ≤ 1
    → count_if (is_site domain) (insert_site domain sites) ≤ 1
unfolding insert_site
count_if-insert_site domain sites h = elim (Bool-cases (any (is_site domain) sites)) [
  | inl e ↦ rw e h
  | inr e ↦ rw e (
      ground (
        arith,
        any-count (is_site domain) sites e,
        count_if-append (is_site domain) sites (new_site domain ∷ []),
      ))
]

pub lock_domain-Holds :
    (now : ℕ) (c : Claim) (db : Tables)
    → count_if (is_site c.domain) db.sites ≤ 1
    → (lock_domain now c db).0 ≡ true
    → Holds c.domain c.token (now + lease_s) (lock_domain now c db).1.sites
unfolding lock_domain
lock_domain-Holds now c db one got =
    locked_now now c (insert_site c.domain db.sites) (count_if-insert_site c.domain db.sites one)
      got
