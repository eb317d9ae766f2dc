-- ===== src/Pipeline/Rank/Order.antt =====
-- The first of the ranked addresses has the best rank, so it is the site's own when any is.
use email_extractor.Common.{
  ℕ, ◌≤◌, ◌≡◌, refl, Bool, true, false, inl, inr, List, [], ◌∷◌, arith, Text, All, All-imp,
  All-take, any, Bool-cases, take,
}
use email_extractor.Pipeline.Candidate.{EmailCandidate, RankedEmail}
use email_extractor.Pipeline.Rank.{
  rank_of, classify, ranks_before, insert_ranked, sort_ranked, rank_candidates,
}

abbrev pub IsLeast : RankedEmail → RankedEmail → Type 0
IsLeast r s = r.rank ≤ s.rank

-- The first has a rank no worse than any.
abbrev Leads : List RankedEmail → Type 0
Leads [] = Unit
Leads (r ∷ rs) = All (IsLeast r) rs

ranks_before-rank :
    (scores : List (Text × ℕ)) (a b : RankedEmail)
    → (ranks_before scores a b ≡ true → a.rank ≤ b.rank)
      × (ranks_before scores a b ≡ false → b.rank ≤ a.rank)
unfolding ranks_before
ranks_before-rank scores a b = (λ h. ground arith, λ h. ground arith)

insert_ranked-All {ℓ} :
    (P : RankedEmail → Type ℓ) (scores : List (Text × ℕ)) (r : RankedEmail) (ss : List RankedEmail)
    → P r
    → All P ss
    → All P (insert_ranked scores r ss)
unfolding insert_ranked
insert_ranked-All P scores r [] p h = (p, tt)
insert_ranked-All P scores r (s ∷ ss) p h = elim (Bool-cases (ranks_before scores r s)) [
  | inl t ↦ rw t (p, h)
  | inr t ↦ rw t (h.0, insert_ranked-All P scores r ss p h.1)
]

insert_ranked-Leads :
    (scores : List (Text × ℕ)) (r : RankedEmail) (ss : List RankedEmail)
    → Leads ss
    → Leads (insert_ranked scores r ss)
unfolding insert_ranked
insert_ranked-Leads scores r [] h = tt
insert_ranked-Leads scores r (s ∷ ss) h = elim (Bool-cases (ranks_before scores r s)) [
  | inl t ↦
      let le = (ranks_before-rank scores r s).0 t in
      rw t (le, All-imp (IsLeast s) (IsLeast r) (λ k q. omega (arith, q, le)) ss h)
  | inr t ↦ rw t (insert_ranked-All (IsLeast s) scores r ss ((ranks_before-rank scores r s).1 t) h)
]

-- A ranked address has the rank of its class.
abbrev IsClassed : RankedEmail → Type 0
IsClassed r = r.rank ≡ rank_of r.own r.role r.free

any_own-first :
    (r : RankedEmail) (rs : List RankedEmail)
    → IsClassed r
    → All (IsLeast r) rs
    → All IsClassed rs
    → any (λ s. s.own) rs ≡ true
    → r.own ≡ true
any_own-first r [] k h c a = cc
any_own-first r (s ∷ rs) k h c a = ground (arith, k, h.0, c.0, any_own-first r rs k h.1 c.1)

module _ (second_level : Text → Text) (dropped : Text → Bool) (site : Text)
    (scores : List (Text × ℕ)) where
  sort_ranked-Leads :
      (cs : List EmailCandidate) → Leads (sort_ranked second_level dropped site scores cs)
  unfolding sort_ranked
  sort_ranked-Leads [] = tt
  sort_ranked-Leads (c ∷ cs) = elim (Bool-cases (dropped c.email)) [
    | inl t ↦ rw t (sort_ranked-Leads cs)
    | inr t ↦ rw t (
        insert_ranked-Leads scores (classify second_level site c)
          (sort_ranked second_level dropped site scores cs) (sort_ranked-Leads cs))
  ]

  sort_ranked-IsClassed :
      (cs : List EmailCandidate) → All IsClassed (sort_ranked second_level dropped site scores cs)
  unfolding sort_ranked classify
  sort_ranked-IsClassed [] = tt
  sort_ranked-IsClassed (c ∷ cs) = elim (Bool-cases (dropped c.email)) [
    | inl t ↦ rw t (sort_ranked-IsClassed cs)
    | inr t ↦ rw t (
        insert_ranked-All IsClassed scores (classify second_level site c)
          (sort_ranked second_level dropped site scores cs) refl (sort_ranked-IsClassed cs))
  ]

  -- When any of the ranked addresses after the first is the site's own, the first, which is the
  -- one that `rules_best` picks, is the site's own too; and none of them has a better rank.
  pub rank_candidates-own_first :
      (cs : List EmailCandidate) (r : RankedEmail) (rs : List RankedEmail)
      → rank_candidates second_level dropped site scores cs ≡ r ∷ rs
      → any (λ s. s.own) rs ≡ true
      → (r.own ≡ true) × All (IsLeast r) rs
  unfolding rank_candidates
  rank_candidates-own_first cs r rs e own =
      first (sort_ranked second_level dropped site scores cs) e (sort_ranked-Leads cs)
        (sort_ranked-IsClassed cs)
    where
      first :
          (l : List RankedEmail)
          → take 50 l ≡ r ∷ rs
          → Leads l
          → All IsClassed l
          → (r.own ≡ true) × All (IsLeast r) rs
      first [] e lead classed = cc
      first (a ∷ l) e lead classed =
          let head : a ≡ r = cc in
          let tail : take 49 l ≡ rs = cc in
          let least : All (IsLeast r) rs = rw (← tail, ← head) (All-take (IsLeast a) 49 l lead) in
          let each : All IsClassed rs = rw (← tail) (All-take IsClassed 49 l classed.1) in
          (any_own-first r rs (rw (← head) classed.0) least each own, least)
