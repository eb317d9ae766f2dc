-- ===== src/Pipeline/Run/Provenance.antt =====
-- The candidates of a result and its best address were seen on pages that were fetched.
use email_extractor.Common.{
  ◌≡◌, refl, sym, Bool, true, ◌&&◌, inl, inr, Option, none, some, List, [], ◌∷◌, arith, Text,
  text_eq, mem_text, any, map, All, is_truthy, Bool-cases, eq_text_refl,
}
use email_extractor.Schemas.{EmailCandidateOut}
use email_extractor.Pipeline.Candidate.{RankedEmail}
use email_extractor.Pipeline.Judge.{Judgment, rules_only, email_of}
use email_extractor.Pipeline.Run.{
  Scratch, Found, urls_of, is_sourced, kept, is_known, rules_best, checked_judgment, candidate_out,
  harvest,
}

-- An address of a result that stands on a page that was fetched.
abbrev pub is_seen : Scratch → EmailCandidateOut → Bool
is_seen scratch c = any (λ u. mem_text u (urls_of scratch)) c.source_urls

rules_best-known :
    (ranked : List RankedEmail) (e : Text) → rules_best ranked ≡ some e → is_known ranked e ≡ true
unfolding rules_best
rules_best-known [] e h = cc
rules_best-known (r ∷ rs) e h = let same : email_of r ≡ e = cc in rw (same, eq_text_refl e) refl

checked_judgment-known :
    (ranked : List RankedEmail) (j : Judgment) (e : Text)
    → (checked_judgment ranked j).best_email ≡ some e
    → is_truthy (some e) ≡ true
    → is_known ranked e ≡ true
unfolding checked_judgment
checked_judgment-known ranked j e h t = by_best j.best_email refl
  where
    by_best : (b : Option Text) → j.best_email ≡ b → is_known ranked e ≡ true
    by_best none k = cc (rw (k, checked_judgment) at h)
    by_best (some []) k =
        let h' = rw (k, checked_judgment) at h in let same : [] ≡ e = cc in cc (rw (sym same) at t)
    by_best (some (x ∷ b)) k = elim (Bool-cases (is_known ranked (x ∷ b))) [
      | inl y ↦
          let h' = rw (k, y, checked_judgment) at h in let same : x ∷ b ≡ e = cc in rw (sym same) y
      | inr y ↦ rules_best-known ranked e (rw (k, y, checked_judgment) at h)
    ]

kept-seen :
    (scratch : Scratch) (j : Judgment) (ranked : List RankedEmail)
    → All (λ c. is_seen scratch c ≡ true) (map (candidate_out j) (kept scratch ranked))
unfolding kept
kept-seen scratch j [] = tt
kept-seen scratch j (r ∷ rs) = elim (Bool-cases (is_sourced scratch r.candidate)) [
  | inl e ↦ rw e (e, kept-seen scratch j rs)
  | inr e ↦ rw e (kept-seen scratch j rs)
]

-- An address that is one of the result's candidates, or empty, or none.
abbrev pub is_among : (c : EmailCandidateOut → Bool) → List EmailCandidateOut → Option Text → Bool
is_among seen cs none = true
is_among seen cs (some []) = true
is_among seen cs (some (x ∷ e)) = any (λ c. text_eq.beq c.email (x ∷ e) && seen c) cs

known-delivered :
    (scratch : Scratch) (j : Judgment) (found : List RankedEmail) (e : Text)
    → is_known (kept scratch found) e ≡ true
    → any
        (λ c. text_eq.beq c.email e && is_seen scratch c)
        (map (candidate_out j) (kept scratch found))
      ≡ true
unfolding kept
known-delivered scratch j [] e h = h
known-delivered scratch j (r ∷ rs) e h = elim (Bool-cases (is_sourced scratch r.candidate)) [
  | inl t ↦ rw t (ground (arith, known-delivered scratch j rs e))
  | inr t ↦ rw t (known-delivered scratch j rs e (rw t at h))
]

best-among :
    (scratch : Scratch) (j : Judgment) (found : List RankedEmail) (best : Option Text)
    → ((e : Text)
        → best ≡ some e
        → is_truthy (some e) ≡ true
        → is_known (kept scratch found) e ≡ true)
    → is_among (is_seen scratch) (map (candidate_out j) (kept scratch found)) best ≡ true
best-among scratch j found none known = refl
best-among scratch j found (some []) known = refl
best-among scratch j found (some (x ∷ e)) known =
    known-delivered scratch j found (x ∷ e) (known (x ∷ e) refl refl)

-- Every candidate in a result's `all_emails` has a source among the pages that were fetched, and so has
-- `best_email`, unless it is empty: whatever the judge answered, it is one of these candidates.
pub harvest-provenance :
    (domain : Text) (scratch : Scratch) (found_all : Found) (judgment : Option Judgment)
    (reason : Option Text)
    → let result = harvest domain scratch found_all judgment reason in
      All (λ c. is_seen scratch c ≡ true) result.all_emails
      × (is_among (is_seen scratch) result.all_emails result.best_email ≡ true)
unfolding harvest
harvest-provenance domain scratch found_all judgment reason =
    let ranked = kept scratch found_all.ranked in
    let given = elim judgment as (λ _. Judgment) [ none ↦ rules_only ranked | some j ↦ j ] in
    let checked = checked_judgment ranked given in
    (
      kept-seen scratch checked found_all.ranked,
      best-among scratch checked found_all.ranked checked.best_email
          (checked_judgment-known ranked given),
    )
