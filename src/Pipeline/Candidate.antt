-- ===== src/Pipeline/Candidate.antt =====
-- The addresses that app/pipeline/extract/emails.py finds and app/pipeline/filter_rank.py ranks.
pub mod Merging
use email_extractor.Common.{
  ℕ, suc, ◌+◌, ◌*◌, Bool, ◌&&◌, List, [], ◌∷◌, ◌++◌, ltb, leb, if◌then◌else◌, Text, text_eq,
  mem_text, map,
}
use email_extractor.Schemas.{Method, mailto, jsonld, cloudflare, text, attribute, script}

-- `EmailCandidate`
pub record EmailCandidate : Type 0 where
  pub email : Text
  pub method : Method
  pub source_urls : List Text
  pub context : Text
  pub order : ℕ

-- `RankedEmail`
pub record RankedEmail : Type 0 where
  pub candidate : EmailCandidate
  pub rank : ℕ
  pub own : Bool
  pub role : Bool
  pub free : Bool

-- `_RANK`
abbrev pub precedence : Method → ℕ
precedence mailto = 0
precedence jsonld = 1
precedence cloudflare = 2
precedence text = 3
precedence attribute = 4
precedence script = 5

-- `str.lower` on the ASCII letters.
abbrev pub lower : Text → Text
lower s = map (λ c. if leb 65 c && leb c 90 then c + 32 else c) s

-- The URLs of `more` that are not in a list yet are appended.
unfoldable pub add_urls : List Text → List Text → List Text
add_urls urls [] = urls
add_urls urls (u ∷ more) = add_urls (if mem_text u urls then urls else urls ++ u ∷ []) more

-- What is kept of an address that an earlier page had.
unfoldable pub merge_candidate : EmailCandidate → EmailCandidate → EmailCandidate
merge_candidate old c = record old {
  source_urls = add_urls old.source_urls c.source_urls;
  method = if ltb (precedence c.method) (precedence old.method) then c.method else old.method;
  context = elim old.context [ [] ↦ c.context | _ ∷ _ ↦ old.context ];
}

-- The dictionary of `merge_pages` in its insertion order.
unfoldable pub merge_one : ℕ → EmailCandidate → List EmailCandidate → List EmailCandidate
merge_one page c [] = (record c { order = page * 10_000 + c.order }) ∷ []
merge_one page c (old ∷ olds) =
    let rest = merge_one page c olds in
    if text_eq.beq old.email c.email then merge_candidate old c ∷ olds else old ∷ rest

unfoldable pub merge_page : ℕ → List EmailCandidate → List EmailCandidate → List EmailCandidate
merge_page page [] merged = merged
merge_page page (c ∷ cs) merged = merge_page page cs (merge_one page c merged)

unfoldable pub merge_from :
    ℕ → List (List EmailCandidate) → List EmailCandidate → List EmailCandidate
merge_from page [] merged = merged
merge_from page (cs ∷ pages) merged = merge_from (suc page) pages (merge_page page cs merged)

-- `sorted(..., key=lambda c: c.order)`, which keeps the order of equal keys.
unfoldable pub insert_by_order : EmailCandidate → List EmailCandidate → List EmailCandidate
insert_by_order c [] = c ∷ []
insert_by_order c (d ∷ ds) =
    let rest = insert_by_order c ds in if leb c.order d.order then c ∷ d ∷ ds else d ∷ rest

unfoldable pub sort_by_order : List EmailCandidate → List EmailCandidate
sort_by_order [] = []
sort_by_order (c ∷ cs) = insert_by_order c (sort_by_order cs)

-- `merge_pages`
unfoldable pub merge_pages : List (List EmailCandidate) → List EmailCandidate
merge_pages pages = sort_by_order (merge_from 0 pages [])
