-- ===== src/Queue/Consistency.antt =====
-- What holds of the tables after every transaction: the invariant of the rows and of the jobs.
pub mod Claiming
pub mod Finishing
pub mod Sweeping
pub mod Steps
use email_extractor.Common.{
  ℕ, zero, suc, ◌+◌, ◌-◌, ◌≤◌, ◌≡◌, refl, Bool, true, false, not, ◌&&◌, ◌||◌, ◌⊎◌, inl, inr, Option,
  none, some, List, [], ◌∷◌, ◌++◌, arith, ltb, leb, ◌==◌, if◌then◌else◌, String, Text, any, select,
  count_if, All, All-imp, is_some, Bool-cases, Option-cases,
}
use email_extractor.Schemas.{DomainResult}
use email_extractor.Queue.State.{
  JobStatus, RowState, Token, Job, Row, Tables, is_running, is_queued, is_done, is_active,
  is_done_job, is_pending, is_at, held_by, update,
}
use email_extractor.Queue.Claim.{Claim, claim_row, claim_from_job, start_job, claim}
use email_extractor.Queue.Finish.{
  is_claimed_by, requeued_row, requeue, finished_row, is_completable, completed_job,
  complete_if_finished,
}

-- A row is held by a claim exactly while it is running, and a running row counts at least one try.
pub record IsSound (r : Row) : Type 0 where
  pub held : is_some r.claimed_by ≡ is_running r.state
  pub tried : is_running r.state ≡ true → 1 ≤ r.attempts

-- A job that is done has no row left to work on.
abbrev pub IsClosed : List Row → Job → Type 0
IsClosed rows j = is_done_job j.status ≡ true → any (is_pending j.id) rows ≡ false

pub record IsConsistent (db : Tables) : Type 0 where
  pub sound : All IsSound db.rows
  pub closed : All (IsClosed db.rows) db.jobs

module _ {ℓ κ} {A : Type ℓ} where
  -- An update keeps a property that what it writes has.
  pub update-All :
      (P : A → Type κ) (p : A → Bool) (f : A → A)
      → ((a : A) → p a ≡ true → P a → P (f a))
      → (xs : List A) → All P xs
      → All P (update p f xs)
  unfolding update
  update-All P p f keep [] h = tt
  update-All P p f keep (x ∷ xs) h = elim (Bool-cases (p x)) [
    | inl e ↦ rw e (keep x e h.0, update-All P p f keep xs h.1)
    | inr e ↦ rw e (h.0, update-All P p f keep xs h.1)
  ]

pub All-update {ℓ κ ι} :
    {A : Type ℓ} (P : A → Type κ) (Q : A → Type ι) (p : A → Bool) (f : A → A)
    → ((a : A) → P a → Q (if p a then f a else a))
    → (xs : List A) → All P xs
    → All Q (update p f xs)
unfolding update
All-update P Q p f keep [] h = tt
All-update P Q p f keep (x ∷ xs) h = (keep x h.0, All-update P Q p f keep xs h.1)

module _ {ℓ} {A : Type ℓ} where
  -- An update that leaves a test's answer alone, or only takes items out of it.
  pub any-update :
      (q p : A → Bool) (f : A → A)
      → ((a : A) → p a ≡ true → q a ≡ false → q (f a) ≡ false)
      → (xs : List A) → any q xs ≡ false
      → any q (update p f xs) ≡ false
  unfolding update
  any-update q p f keep [] h = refl
  any-update q p f keep (x ∷ xs) h = ground (arith, keep x, any-update q p f keep xs)

module _ {ℓ} {A : Type ℓ} where
  -- Where no item passes the test, an update changes nothing.
  pub update-none :
      (p : A → Bool) (f : A → A) (xs : List A) → count_if p xs ≡ 0 → update p f xs ≡ xs
  unfolding update
  update-none p f [] h = refl
  update-none p f (x ∷ xs) h = ground (arith, update-none p f xs)

  pub any-append :
      (q : A → Bool) (xs ys : List A)
      → any q xs ≡ false
      → any q ys ≡ false
      → any q (xs ++ ys) ≡ false
  any-append q [] ys h k = k
  any-append q (x ∷ xs) ys h k = ground (arith, any-append q xs ys)

-- An update of the rows that adds no row to what is still to be worked on.
module _ (p : Row → Bool) (f : Row → Row) where
  pub rows-IsConsistent :
      ((r : Row) → p r ≡ true → IsSound r → IsSound (f r))
      → ((k : ℕ) (r : Row) → p r ≡ true → is_pending k r ≡ false → is_pending k (f r) ≡ false)
      → (db : Tables) → IsConsistent db
      → IsConsistent (record db { rows = update p f db.rows })
  rows-IsConsistent sound pending db h = record {
    sound = update-All IsSound p f sound db.rows h.sound;
    closed = All-imp (IsClosed db.rows) (IsClosed (update p f db.rows)) keeps db.jobs h.closed;
  }
    where
      keeps : (j : Job) → IsClosed db.rows j → IsClosed (update p f db.rows) j
      keeps j c e = any-update (is_pending j.id) p f (pending j.id) db.rows (c e)

-- An update of the jobs that closes only what has no row left.
pub jobs-IsConsistent :
    (p : Job → Bool) (f : Job → Job) (db : Tables)
    → ((j : Job) → p j ≡ true → IsClosed db.rows j → IsClosed db.rows (f j))
    → IsConsistent db
    → IsConsistent (record db { jobs = update p f db.jobs })
jobs-IsConsistent p f db keep h = record {
  sound = h.sound;
  closed = update-All (IsClosed db.rows) p f keep db.jobs h.closed;
}
