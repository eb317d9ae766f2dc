-- ===== src/Pipeline/Candidate/Merging.antt =====
-- `merge_pages` keeps one candidate for each address, and loses no address.
use email_extractor.Common.{
  ℕ, suc, ◌≡◌, refl, ap, ◌∙◌, false, ◌||◌, inl, inr, List, [], ◌∷◌, arith, leb, Text, text_eq,
  eq_text, eq_text_iff, mem_text, Distinct, any, map, Bool-cases,
}
use email_extractor.Pipeline.Candidate.{
  EmailCandidate, merge_candidate, merge_one, merge_page, merge_from, insert_by_order,
  sort_by_order, merge_pages,
}

abbrev pub emails : List EmailCandidate → List Text
emails cs = map (λ c. c.email) cs

mem_text-merge_one :
    (e : Text) (page : ℕ) (c : EmailCandidate) (ms : List EmailCandidate)
    → mem_text e (emails (merge_one page c ms)) ≡ (eq_text e c.email || mem_text e (emails ms))
unfolding mem_text merge_one merge_candidate
mem_text-merge_one e page c [] = refl
mem_text-merge_one e page c (m ∷ ms) = elim (Bool-cases (text_eq.beq m.email c.email)) [
  | inl t ↦ let same = (eq_text_iff m.email c.email).0 t in rw (t, same) (ground arith)
  | inr t ↦ rw (t, mem_text-merge_one e page c ms) (ground arith)
]

merge_one-Distinct :
    (page : ℕ) (c : EmailCandidate) (ms : List EmailCandidate)
    → Distinct (emails ms)
    → Distinct (emails (merge_one page c ms))
unfolding mem_text merge_one merge_candidate
merge_one-Distinct page c [] h = (refl, tt)
merge_one-Distinct page c (m ∷ ms) h = elim (Bool-cases (text_eq.beq m.email c.email)) [
  | inl t ↦ rw t h
  | inr t ↦
      rw t (
        mem_text-merge_one m.email page c ms ∙ ground (arith, h.0),
        merge_one-Distinct page c ms h.1,
      )
]

merge_page-Distinct :
    (page : ℕ) (cs ms : List EmailCandidate)
    → Distinct (emails ms)
    → Distinct (emails (merge_page page cs ms))
unfolding merge_page
merge_page-Distinct page [] ms h = h
merge_page-Distinct page (c ∷ cs) ms h =
    merge_page-Distinct page cs (merge_one page c ms) (merge_one-Distinct page c ms h)

merge_from-Distinct :
    (page : ℕ) (pages : List (List EmailCandidate)) (ms : List EmailCandidate)
    → Distinct (emails ms)
    → Distinct (emails (merge_from page pages ms))
unfolding merge_from
merge_from-Distinct page [] ms h = h
merge_from-Distinct page (cs ∷ pages) ms h =
    merge_from-Distinct (suc page) pages (merge_page page cs ms) (merge_page-Distinct page cs ms h)

mem_text-insert_by_order :
    (e : Text) (c : EmailCandidate) (ds : List EmailCandidate)
    → mem_text e (emails (insert_by_order c ds)) ≡ (eq_text e c.email || mem_text e (emails ds))
unfolding mem_text insert_by_order
mem_text-insert_by_order e c [] = refl
mem_text-insert_by_order e c (d ∷ ds) = elim (Bool-cases (leb c.order d.order)) [
  | inl t ↦ rw t refl
  | inr t ↦ rw (t, mem_text-insert_by_order e c ds) (ground arith)
]

eq_text_comm : (s t : Text) → eq_text s t ≡ eq_text t s
eq_text_comm s t = ground (arith, eq_text_iff s t, eq_text_iff t s)

insert_by_order-Distinct :
    (c : EmailCandidate) (ds : List EmailCandidate)
    → mem_text c.email (emails ds) ≡ false
    → Distinct (emails ds)
    → Distinct (emails (insert_by_order c ds))
unfolding mem_text insert_by_order
insert_by_order-Distinct c [] n h = (refl, tt)
insert_by_order-Distinct c (d ∷ ds) n h = elim (Bool-cases (leb c.order d.order)) [
  | inl t ↦ rw t (n, h)
  | inr t ↦ rw t (
    mem_text-insert_by_order d.email c ds ∙ ground (arith, h.0, n, eq_text_comm d.email c.email),
    insert_by_order-Distinct c ds (ground (arith, n)) h.1,
  )
]

mem_text-sort_by_order :
    (e : Text) (cs : List EmailCandidate)
    → mem_text e (emails (sort_by_order cs)) ≡ mem_text e (emails cs)
unfolding mem_text sort_by_order
mem_text-sort_by_order e [] = refl
mem_text-sort_by_order e (c ∷ cs) =
    mem_text-insert_by_order e c (sort_by_order cs)
    ∙ ap (λ b. eq_text e c.email || b) (mem_text-sort_by_order e cs)

sort_by_order-Distinct :
    (cs : List EmailCandidate) → Distinct (emails cs) → Distinct (emails (sort_by_order cs))
unfolding sort_by_order
sort_by_order-Distinct [] h = tt
sort_by_order-Distinct (c ∷ cs) h =
    insert_by_order-Distinct c (sort_by_order cs) (mem_text-sort_by_order c.email cs ∙ h.0)
      (sort_by_order-Distinct cs h.1)

mem_text-merge_page :
    (e : Text) (page : ℕ) (cs ms : List EmailCandidate)
    → mem_text e (emails (merge_page page cs ms))
      ≡ (mem_text e (emails cs) || mem_text e (emails ms))
unfolding mem_text merge_page
mem_text-merge_page e page [] ms = refl
mem_text-merge_page e page (c ∷ cs) ms =
    mem_text-merge_page e page cs (merge_one page c ms)
    ∙ (rw (mem_text-merge_one e page c ms) (ground arith))

mem_text-merge_from :
    (e : Text) (page : ℕ) (pages : List (List EmailCandidate)) (ms : List EmailCandidate)
    → mem_text e (emails (merge_from page pages ms))
      ≡ (any (λ cs. mem_text e (emails cs)) pages || mem_text e (emails ms))
unfolding merge_from
mem_text-merge_from e page [] ms = refl
mem_text-merge_from e page (cs ∷ pages) ms =
    mem_text-merge_from e (suc page) pages (merge_page page cs ms)
    ∙ (rw (mem_text-merge_page e page cs ms) (ground arith))

-- The candidates of all pages are merged into one for each address: no address stands twice, and an
-- address is among the merged candidates exactly when some page has it.
pub merge_pages-Distinct :
    (pages : List (List EmailCandidate)) (e : Text)
    → Distinct (emails (merge_pages pages))
      × (mem_text e (emails (merge_pages pages)) ≡ any (λ cs. mem_text e (emails cs)) pages)
unfolding merge_pages mem_text
merge_pages-Distinct pages e = (
  sort_by_order-Distinct (merge_from 0 pages []) (merge_from-Distinct 0 pages [] tt),
  mem_text-sort_by_order e (merge_from 0 pages [])
      ∙ mem_text-merge_from e 0 pages []
      ∙ ground arith,
)
