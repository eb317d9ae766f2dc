-- ===== src/Pipeline/Discovery/Chosen.antt =====
-- The pages that are chosen stay within the limit, and within the cap of each tier.
use email_extractor.Common.{
  ℕ, zero, suc, ◌+◌, ◌-◌, ◌≤◌, Bool, inl, inr, Option, List, [], ◌∷◌, arith, leb, Text, get, put,
  get-put, or_else, length, count_if, Bool-cases,
}
use email_extractor.Pipeline.Discovery.{
  ScoredUrl, same_tier, same_tier_iff, tier_eq, best_of, sort_urls, choose, select_urls,
}

abbrev pub in_tier : Option Text → ScoredUrl → Bool
in_tier tier c = same_tier c.tier tier

length-choose :
    (cap room : ℕ) (per_tier : List (Option Text × ℕ)) (cs : List ScoredUrl)
    → length (choose cap room per_tier cs) ≤ room
unfolding choose
length-choose cap room per_tier [] = omega arith
length-choose cap zero per_tier (c ∷ cs) = omega arith
length-choose cap (suc room) per_tier (c ∷ cs) =
    let n = or_else (get c.tier per_tier) 0 in
    elim (Bool-cases (leb cap n)) [
      | inl t ↦ rw t (length-choose cap (suc room) per_tier cs)
      | inr t ↦ rw t (omega (arith, length-choose cap room (put c.tier (n + 1) per_tier) cs))
    ]

count_if-choose :
    (tier : Option Text) (cap room : ℕ) (per_tier : List (Option Text × ℕ)) (cs : List ScoredUrl)
    → count_if (in_tier tier) (choose cap room per_tier cs) ≤ cap - or_else (get tier per_tier) 0
unfolding choose
count_if-choose tier cap room per_tier [] = omega arith
count_if-choose tier cap zero per_tier (c ∷ cs) = omega arith
count_if-choose tier cap (suc room) per_tier (c ∷ cs) =
    let n = or_else (get c.tier per_tier) 0 in
    let ih = count_if-choose tier cap room (put c.tier (n + 1) per_tier) cs in
    let after = get-put c.tier tier (n + 1) per_tier in
    elim (Bool-cases (leb cap n)) [
      | inl t ↦ rw t (count_if-choose tier cap (suc room) per_tier cs)
      | inr t ↦ rw t (elim (Bool-cases (same_tier c.tier tier)) [
        | inl e ↦
            let same = (same_tier_iff c.tier tier).0 e in
            let ih' = rw (after, e) at ih in rw e (ground (arith, ih', same))
        | inr e ↦ let ih' = rw (after, e) at ih in rw e (omega (arith, ih'))
      ])
    ]

-- At most `limit` pages are chosen, and at most `per_tier_cap` of any tier, those without a tier
-- included.
pub select_urls-bounded :
    (limit per_tier_cap : ℕ) (candidates : List ScoredUrl) (tier : Option Text)
    → (length (select_urls limit per_tier_cap candidates) ≤ limit)
      × (count_if (in_tier tier) (select_urls limit per_tier_cap candidates) ≤ per_tier_cap)
unfolding select_urls
select_urls-bounded limit per_tier_cap candidates tier =
    let ordered = sort_urls (best_of candidates []) in
    (
      length-choose per_tier_cap limit [] ordered,
      omega (arith, count_if-choose tier per_tier_cap limit [] ordered),
    )
