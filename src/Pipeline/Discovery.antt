-- ===== src/Pipeline/Discovery.antt =====
-- `select` of app/pipeline/discovery/score.py: the pages of a site that are fetched.
use email_extractor.Common.{
  ℕ, zero, suc, ◌+◌, ◌≡◌, ◌↔◌, refl, Bool, true, false, not, ◌&&◌, ◌||◌, Option, none, some, List,
  [], ◌∷◌, arith, ltb, leb, ◌==◌, if◌then◌else◌, Text, text_eq, eq_text_iff, Eq, get, put, or_else,
  length,
}
pub mod Chosen

-- `ScoredUrl`
pub record ScoredUrl : Type 0 where
  pub url : Text
  pub score : ℕ
  pub tier : Option Text
  pub depth : ℕ
  pub anchor : Text
  pub fetch_url : Text

abbrev pub same_tier : Option Text → Option Text → Bool
same_tier none none = true
same_tier (some a) (some b) = text_eq.beq a b
same_tier _ _ = false

pub same_tier_iff : (a b : Option Text) → (same_tier a b ≡ true) ↔ (a ≡ b)
same_tier_iff none none = (λ e. refl, λ e. refl)
same_tier_iff none (some b) = (λ e. cc, λ e. cc)
same_tier_iff (some a) none = (λ e. cc, λ e. cc)
same_tier_iff (some a) (some b) = ground (arith, eq_text_iff a b)

instance abbrev pub tier_eq : Eq (Option Text)
tier_eq = record { beq = same_tier; beq_iff = same_tier_iff }

-- `best`, as its values in insertion order: of two candidates with one URL the first is kept, unless the
-- later one has a greater score and takes its place.
unfoldable pub keep_best : ScoredUrl → List ScoredUrl → List ScoredUrl
keep_best c [] = c ∷ []
keep_best c (b ∷ bs) =
    let rest = keep_best c bs in
    if text_eq.beq b.url c.url then (if ltb b.score c.score then c ∷ bs else b ∷ bs) else b ∷ rest

unfoldable pub best_of : List ScoredUrl → List ScoredUrl → List ScoredUrl
best_of [] best = best
best_of (c ∷ cs) best = best_of cs (keep_best c best)

-- The order of two texts.
unfoldable pub leb_text : Text → Text → Bool
leb_text [] t = true
leb_text (a ∷ s) [] = false
leb_text (a ∷ s) (b ∷ t) = let rest = leb_text s t in if a == b then rest else ltb a b

-- `key=lambda c: (-c.score, c.depth, len(c.url), c.url)`
unfoldable pub comes_first : ScoredUrl → ScoredUrl → Bool
comes_first a b =
    let la = length a.url in
    let lb = length b.url in
    ltb b.score a.score
    || (a.score == b.score
        && (ltb a.depth b.depth
            || (a.depth == b.depth && (ltb la lb || (la == lb && leb_text a.url b.url)))))

unfoldable pub insert_url : ScoredUrl → List ScoredUrl → List ScoredUrl
insert_url c [] = c ∷ []
insert_url c (d ∷ ds) =
    let rest = insert_url c ds in if comes_first c d then c ∷ d ∷ ds else d ∷ rest

unfoldable pub sort_urls : List ScoredUrl → List ScoredUrl
sort_urls [] = []
sort_urls (c ∷ cs) = insert_url c (sort_urls cs)

-- The loop over the ordered candidates, with the places that are left and the counts by tier.
unfoldable pub choose :
    (cap : ℕ) → (room : ℕ) → List (Option Text × ℕ) → List ScoredUrl → List ScoredUrl
choose cap room per_tier [] = []
choose cap zero per_tier (c ∷ cs) = []
choose cap (suc room) per_tier (c ∷ cs) =
    let n = or_else (get c.tier per_tier) 0 in
    let skipped = choose cap (suc room) per_tier cs in
    let taken = choose cap room (put c.tier (n + 1) per_tier) cs in
    if leb cap n then skipped else c ∷ taken

-- `select`
unfoldable pub select_urls : (limit per_tier_cap : ℕ) → List ScoredUrl → List ScoredUrl
select_urls limit per_tier_cap candidates =
    choose per_tier_cap limit [] (sort_urls (best_of candidates []))
