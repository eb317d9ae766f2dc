-- ===== src/Queue/Create/Numbering.antt =====
-- The rows of a new job: one for each domain, numbered in the order of the input, however the
-- statements are cut into chunks.
use email_extractor.Common.{
  ℕ, zero, suc, ◌+◌, ◌≤◌, ◌≡◌, refl, sym, ap, ◌∙◌, Bool, false, inl, inr, Option, none, some, List,
  [], ◌∷◌, ◌++◌, arith, Text, text_eq, mem_text, mem_text-none, Distinct, length, length-drop, take,
  drop, All, All-imp, Bool-cases,
}
use email_extractor.Queue.State.{Tables}
use email_extractor.Queue.Create.{
  unique_from, unique_domains, chunks_from, chunks, new_row, number_rows, insert_rows, create_job,
}

join : List (List Text) → List Text
join [] = []
join (c ∷ cs) = c ++ join cs

take-drop : (n : ℕ) (xs : List Text) → take n xs ++ drop n xs ≡ xs
take-drop zero xs = refl
take-drop (suc n) [] = refl
take-drop (suc n) (x ∷ xs) = ap (λ l. x ∷ l) (take-drop n xs)

join-chunks_from :
    (fuel n : ℕ) (xs : List Text) → length xs ≤ fuel → join (chunks_from fuel (suc n) xs) ≡ xs
unfolding join chunks_from
join-chunks_from zero n [] h = refl
join-chunks_from zero n (x ∷ xs) h = absurd (omega (arith, h))
join-chunks_from (suc fuel) n [] h = refl
join-chunks_from (suc fuel) n (x ∷ xs) h =
    ap (λ l. take (suc n) (x ∷ xs) ++ l)
      (join-chunks_from fuel n (drop n xs) (omega (arith, h, length-drop n xs)))
    ∙ take-drop (suc n) (x ∷ xs)

number_rows-append :
    (now id seq : ℕ) (xs ys : List Text)
    → number_rows now id seq (xs ++ ys)
      ≡ number_rows now id seq xs ++ number_rows now id (seq + length xs) ys
unfolding number_rows
number_rows-append now id seq [] ys = ap (λ s. number_rows now id s ys) (omega arith)
number_rows-append now id seq (x ∷ xs) ys =
    let moved : seq + 1 + length xs ≡ seq + length (x ∷ xs) = omega arith in
    ap (λ l. new_row now id seq x ∷ l)
      (number_rows-append now id (seq + 1) xs ys
        ∙ ap (λ s. number_rows now id (seq + 1) xs ++ number_rows now id s ys) moved)

insert_rows-join :
    (now id seq : ℕ) (cs : List (List Text))
    → insert_rows now id seq cs ≡ number_rows now id seq (join cs)
unfolding insert_rows join number_rows
insert_rows-join now id seq [] = refl
insert_rows-join now id seq (c ∷ cs) =
    ap (λ l. number_rows now id seq c ++ l) (insert_rows-join now id (seq + length c) cs)
    ∙ sym (number_rows-append now id seq c (join cs))

-- A new job gets one row for each of its domains, numbered from 0 in their order, whatever their
-- number: the chunks of a thousand are only how they are sent.
pub create_job-rows :
    (now id : ℕ) (owner : Option ℕ) (fresh : Bool) (webhook_url : Option Text)
    (items : List (Option Text)) (db : Tables)
    → (create_job now id owner fresh webhook_url items db).rows
      ≡ db.rows ++ number_rows now id 0 (unique_domains items)
unfolding create_job chunks
create_job-rows now id owner fresh webhook_url items db =
    let ds = unique_domains items in
    ap (λ l. db.rows ++ l)
      (insert_rows-join now id 0 (chunks_from (length ds) 1000 ds)
        ∙ ap (number_rows now id 0) (join-chunks_from (length ds) 999 ds (omega arith)))

mem_text-split :
    (e key : Text) (seen : List Text)
    → mem_text e (key ∷ seen) ≡ false
    → (mem_text e seen ≡ false) × (mem_text e (key ∷ []) ≡ false)
unfolding mem_text
mem_text-split e key seen h = (ground arith, ground arith)

unique_from-fresh :
    (seen : List Text) (items : List (Option Text))
    → All (λ e. mem_text e seen ≡ false) (unique_from seen items)
unfolding unique_from
unique_from-fresh seen [] = tt
unique_from-fresh seen (none ∷ items) = unique_from-fresh seen items
unique_from-fresh seen (some [] ∷ items) = unique_from-fresh seen items
unique_from-fresh seen (some (c ∷ d) ∷ items) = elim (Bool-cases (mem_text (c ∷ d) seen)) [
  | inl t ↦ rw t (unique_from-fresh seen items)
  | inr t ↦ rw t (
    t,
    All-imp (λ e. mem_text e ((c ∷ d) ∷ seen) ≡ false) (λ e. mem_text e seen ≡ false)
        (λ e h. (mem_text-split e (c ∷ d) seen h).0) (unique_from ((c ∷ d) ∷ seen) items)
        (unique_from-fresh ((c ∷ d) ∷ seen) items),
  )
]

unique_from-Distinct :
    (seen : List Text) (items : List (Option Text)) → Distinct (unique_from seen items)
unfolding unique_from
unique_from-Distinct seen [] = tt
unique_from-Distinct seen (none ∷ items) = unique_from-Distinct seen items
unique_from-Distinct seen (some [] ∷ items) = unique_from-Distinct seen items
unique_from-Distinct seen (some (c ∷ d) ∷ items) = elim (Bool-cases (mem_text (c ∷ d) seen)) [
  | inl t ↦ rw t (unique_from-Distinct seen items)
  | inr t ↦ rw t (
    mem_text-none (c ∷ d) (unique_from ((c ∷ d) ∷ seen) items) (
        All-imp (λ e. mem_text e ((c ∷ d) ∷ seen) ≡ false) (λ e. mem_text e ((c ∷ d) ∷ []) ≡ false)
          (λ e h. (mem_text-split e (c ∷ d) seen h).1) (unique_from ((c ∷ d) ∷ seen) items)
          (unique_from-fresh ((c ∷ d) ∷ seen) items)),
    unique_from-Distinct ((c ∷ d) ∷ seen) items,
  )
]

-- No domain is queued twice for one job, however often the input names it.
pub unique_domains-Distinct : (items : List (Option Text)) → Distinct (unique_domains items)
unfolding unique_domains
unique_domains-Distinct items = unique_from-Distinct [] items
