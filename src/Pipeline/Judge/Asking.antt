-- ===== src/Pipeline/Judge/Asking.antt =====
-- The judge is asked about at most `MAX_JUDGE_CANDIDATES` addresses, and never twice about one.
use email_extractor.Common.{
  ℕ, zero, suc, ◌≤◌, ◌≡◌, false, inl, inr, List, [], ◌∷◌, arith, Text, text_eq, mem_text, Distinct,
  mem_text-none, length, All, All-imp, Bool-cases,
}
use email_extractor.Pipeline.Candidate.{RankedEmail, lower}
use email_extractor.Pipeline.Judge.{email_of, pick_emails, max_judge_candidates}

mem_text-weaken :
    (e key : Text) (seen : List Text) → mem_text e (key ∷ seen) ≡ false → mem_text e seen ≡ false
unfolding mem_text
mem_text-weaken e key seen h = ground arith

mem_text-head :
    (e key : Text) (seen : List Text)
    → mem_text e (key ∷ seen) ≡ false
    → mem_text e (key ∷ []) ≡ false
unfolding mem_text
mem_text-head e key seen h = ground arith

pick_emails-fresh :
    (room : ℕ) (seen : List Text) (rs : List RankedEmail)
    → All (λ e. mem_text e seen ≡ false) (pick_emails room seen rs)
unfolding pick_emails
pick_emails-fresh zero seen rs = tt
pick_emails-fresh (suc room) seen [] = tt
pick_emails-fresh (suc room) seen (r ∷ rs) =
    let key = lower (email_of r) in
    elim (Bool-cases (mem_text key seen)) [
      | inl t ↦ rw t (pick_emails-fresh (suc room) seen rs)
      | inr t ↦ rw t (
        t,
        All-imp (λ e. mem_text e (key ∷ seen) ≡ false) (λ e. mem_text e seen ≡ false)
            (λ e. mem_text-weaken e key seen) (pick_emails room (key ∷ seen) rs)
            (pick_emails-fresh room (key ∷ seen) rs),
      )
    ]

pick_emails-Distinct :
    (room : ℕ) (seen : List Text) (rs : List RankedEmail) → Distinct (pick_emails room seen rs)
unfolding pick_emails
pick_emails-Distinct zero seen rs = tt
pick_emails-Distinct (suc room) seen [] = tt
pick_emails-Distinct (suc room) seen (r ∷ rs) =
    let key = lower (email_of r) in
    elim (Bool-cases (mem_text key seen)) [
      | inl t ↦ rw t (pick_emails-Distinct (suc room) seen rs)
      | inr t ↦ rw t (
        mem_text-none key (pick_emails room (key ∷ seen) rs) (
            All-imp (λ e. mem_text e (key ∷ seen) ≡ false) (λ e. mem_text e (key ∷ []) ≡ false)
              (λ e. mem_text-head e key seen) (pick_emails room (key ∷ seen) rs)
              (pick_emails-fresh room (key ∷ seen) rs)),
        pick_emails-Distinct room (key ∷ seen) rs,
      )
    ]

length-pick_emails :
    (room : ℕ) (seen : List Text) (rs : List RankedEmail) → length (pick_emails room seen rs) ≤ room
unfolding pick_emails
length-pick_emails zero seen rs = omega arith
length-pick_emails (suc room) seen [] = omega arith
length-pick_emails (suc room) seen (r ∷ rs) =
    elim (Bool-cases (mem_text (lower (email_of r)) seen)) [
      | inl t ↦ rw t (length-pick_emails (suc room) seen rs)
      | inr t ↦ rw t (omega (arith, length-pick_emails room (lower (email_of r) ∷ seen) rs))
    ]

-- The addresses that the judge is asked about are at most ten, and no two of them agree in lower
-- case.
pub pick_emails-asked_once :
    (rs : List RankedEmail)
    → (length (pick_emails max_judge_candidates [] rs) ≤ 10)
      × Distinct (pick_emails max_judge_candidates [] rs)
pick_emails-asked_once rs =
    (length-pick_emails max_judge_candidates [] rs, pick_emails-Distinct max_judge_candidates [] rs)
