-- ===== src/Ingest/Columns/Detected.antt =====
-- The column that is detected is one of the file's, and it passes the test of the step that chose it.
use email_extractor.Common.{
  ◌≡◌, refl, sym, ◌⊎◌, inl, inr, Bool, true, Bool-cases, Option-cases, Option, none, some, List, [],
  ◌∷◌, arith, if◌then◌else◌, All, Text, eq_text, eq_text_iff, eq_text_refl, text_eq, mem_text, get,
  put,
}
use email_extractor.Input.Outcome.{IfSome}
use email_extractor.Ingest.{ParsedFile}
use email_extractor.Ingest.Columns.{
  Texts, GuessMethod, by_header, by_content, by_email, no_method, header_priority, email_headers,
  norm_header, column_values, score_column, is_enough, normed_headers, first_wanted, pick,
  pick_first, scores_better, only_if, header_match, content_match, has_emails, email_header_match,
  email_match, guess, choose_column, detect_column,
}

module _ (P : Text × Text → Type 0) where
  All-put : (k v : Text) (d : List (Text × Text)) → All P d → P (k, v) → All P (put k v d)
  All-put k v [] h p = (p, tt)
  All-put k v ((j, w) ∷ d) h p = elim (Bool-cases (eq_text j k)) [
    | inl t ↦ rw t (rw ((eq_text_iff j k).0 t) p, h.1)
    | inr f ↦ rw f (h.0, All-put k v d h.1 p)
  ]

  All-get : (k v : Text) (d : List (Text × Text)) → All P d → get k d ≡ some v → P (k, v)
  All-get k v [] h e = absurd (ground arith)
  All-get k v ((j, w) ∷ d) h e = elim (Bool-cases (eq_text j k)) [
    | inl t ↦
        let jk = (eq_text_iff j k).0 t in
        let wv : w ≡ v = ground arith in rw (sym jk) (rw (sym wv) h.0)
    | inr f ↦ All-get k v d h.1 (ground arith)
  ]

mem_text-later : (x y : Text) (xs : List Text) → mem_text x xs ≡ true → mem_text x (y ∷ xs) ≡ true
unfolding mem_text
mem_text-later x y xs h = ground arith

mem_text-here : (x : Text) (xs : List Text) → mem_text x (x ∷ xs) ≡ true
unfolding mem_text
mem_text-here x xs = ground (arith, eq_text_refl x)

-- An entry of `normed`: a header of the file under its own normal form.
abbrev IsNormed : Texts → List Text → Text × Text → Type 0
IsNormed texts headers (k, h) = (norm_header texts h ≡ k) × (mem_text h headers ≡ true)

normed_headers-IsNormed :
    (texts : Texts) (all_headers headers : List Text) (normed : List (Text × Text))
    → All (λ h. mem_text h all_headers ≡ true) headers
    → All (IsNormed texts all_headers) normed
    → All (IsNormed texts all_headers) (normed_headers texts headers normed)
unfolding normed_headers
normed_headers-IsNormed texts all_headers [] normed h k = k
normed_headers-IsNormed texts all_headers (x ∷ headers) normed h k =
    normed_headers-IsNormed texts all_headers headers (put (norm_header texts x) x normed) h.1
      (All-put (IsNormed texts all_headers) (norm_header texts x) x normed k (refl, h.0))

All-mem_later :
    (y : Text) (xs zs : List Text)
    → All (λ x. mem_text x zs ≡ true) xs
    → All (λ x. mem_text x (y ∷ zs) ≡ true) xs
All-mem_later y [] zs h = tt
All-mem_later y (x ∷ xs) zs h = (mem_text-later x y zs h.0, All-mem_later y xs zs h.1)

All-mem : (xs : List Text) → All (λ x. mem_text x xs ≡ true) xs
All-mem [] = tt
All-mem (x ∷ xs) = (mem_text-here x xs, All-mem_later x xs xs (All-mem xs))

first_wanted_lem :
    (P : Text × Text → Type 0) (p : Text → Bool) (normed : List (Text × Text)) (wants : List Text)
    (h : Text)
    → All P normed
    → first_wanted p normed wants ≡ some h
    → (want : Text) × (mem_text want wants ≡ true) × P (want, h) × (p h ≡ true)
unfolding first_wanted
first_wanted_lem P p normed [] h k e = absurd (ground arith)
first_wanted_lem P p normed (w ∷ wants) h k e = elim (Option-cases (get w normed)) [
  | inl missing ↦
      let (want, m, q, r) =
        first_wanted_lem P p normed wants h k (rw (missing, first_wanted) at e) in
      (want, mem_text-later want w wants m, q, r)
  | inr (x, there) ↦ elim (Bool-cases (p x)) [
    | inl t ↦
        let xh : x ≡ h = ground arith in
        (w, mem_text-here w wants, rw (sym xh) (All-get P w x normed k there), rw (sym xh) t)
    | inr f ↦
        let (want, m, q, r) = first_wanted_lem P p normed wants h k (ground arith) in
        (want, mem_text-later want w wants m, q, r)
  ]
]

pick-mem :
    (beats : Text → Text → Bool) (best : Text) (headers : List Text)
    → (pick beats best headers ≡ best) ⊎ (mem_text (pick beats best headers) headers ≡ true)
unfolding pick mem_text
pick-mem beats best [] = inl refl
pick-mem beats best (h ∷ headers) =
    elim (pick-mem beats (if beats h best then h else best) headers) [
      | inl e ↦ ground (arith, eq_text_refl h)
      | inr m ↦ inr (ground arith)
    ]

pick_first-mem :
    (beats : Text → Text → Bool) (headers : List Text) (h : Text)
    → pick_first beats headers ≡ some h
    → mem_text h headers ≡ true
unfolding pick_first mem_text
pick_first-mem beats [] h e = absurd (ground arith)
pick_first-mem beats (x ∷ headers) h e = ground (arith, pick-mem beats x headers, eq_text_refl h)

only_if_lem :
    (p : Text → Bool) (o : Option Text) (h : Text)
    → only_if p o ≡ some h
    → (o ≡ some h) × (p h ≡ true)
unfolding only_if
only_if_lem p none h e = absurd (ground arith)
only_if_lem p (some x) h e = ground arith

-- What is said of a column that a step chose.
abbrev pub IsChosen : Texts → ParsedFile → GuessMethod → Option Text → Option Text → Type 0
IsChosen texts f by_header column email_column =
    (h : Text) × (column ≡ some h)
    × (email_column ≡ none)
    × (mem_text h f.headers ≡ true)
    × (mem_text (norm_header texts h) header_priority ≡ true)
IsChosen texts f by_content column email_column =
    (h : Text) × (column ≡ some h)
    × (email_column ≡ none)
    × (mem_text h f.headers ≡ true)
    × (is_enough (score_column texts (column_values f h)) ≡ true)
IsChosen texts f by_email column email_column =
    (h : Text) × (column ≡ none)
    × (email_column ≡ some h)
    × (mem_text h f.headers ≡ true)
    × (has_emails texts f h ≡ true)
IsChosen texts f no_method column email_column = (column ≡ none) × (email_column ≡ none)

wanted_lem :
    (texts : Texts) (f : ParsedFile) (p : Text → Bool) (wants : List Text) (h : Text)
    → first_wanted p (normed_headers texts f.headers []) wants ≡ some h
    → (mem_text h f.headers ≡ true) × (mem_text (norm_header texts h) wants ≡ true) × (p h ≡ true)
wanted_lem texts f p wants h e =
    let normed = normed_headers texts f.headers [] in
    let ok = normed_headers-IsNormed texts f.headers f.headers [] (All-mem f.headers) tt in
    let (want, m, q, r) = first_wanted_lem (IsNormed texts f.headers) p normed wants h ok e in
    (q.1, rw (q.0) m, r)

IfSome-intro : (P : Text → Type 0) (o : Option Text) → ((h : Text) → o ≡ some h → P h) → IfSome P o
IfSome-intro P none k = tt
IfSome-intro P (some h) k = k h refl

abbrev IsNamed : Texts → ParsedFile → Text → Type 0
IsNamed texts f h =
    (mem_text h f.headers ≡ true) × (mem_text (norm_header texts h) header_priority ≡ true)

abbrev IsFull : Texts → ParsedFile → Text → Type 0
IsFull texts f h =
    (mem_text h f.headers ≡ true) × (is_enough (score_column texts (column_values f h)) ≡ true)

abbrev IsMailed : Texts → ParsedFile → Text → Type 0
IsMailed texts f h = (mem_text h f.headers ≡ true) × (has_emails texts f h ≡ true)

choose_column-IsChosen :
    (texts : Texts) (f : ParsedFile) (a b c d : Option Text)
    → IfSome (IsNamed texts f) a
    → IfSome (IsFull texts f) b
    → IfSome (IsMailed texts f) c
    → IfSome (IsMailed texts f) d
    → let g = choose_column a b c d in IsChosen texts f g.guess_method g.column g.email_column
unfolding choose_column guess
choose_column-IsChosen texts f (some h) b c d p q r s = (h, refl, refl, p.0, p.1)
choose_column-IsChosen texts f none (some h) c d p q r s = (h, refl, refl, q.0, q.1)
choose_column-IsChosen texts f none none (some h) d p q r s = (h, refl, refl, r.0, r.1)
choose_column-IsChosen texts f none none none (some h) p q r s = (h, refl, refl, s.0, s.1)
choose_column-IsChosen texts f none none none none p q r s = (refl, refl)

header_match_lem :
    (texts : Texts) (f : ParsedFile) (h : Text) → header_match texts f ≡ some h → IsNamed texts f h
unfolding header_match
header_match_lem texts f h e =
    let (m, n, t) = wanted_lem texts f (λ x. true) header_priority h e in (m, n)

content_match_lem :
    (texts : Texts) (f : ParsedFile) (h : Text) → content_match texts f ≡ some h → IsFull texts f h
unfolding content_match
content_match_lem texts f h e =
    let (first, t) = only_if_lem _ _ h e in
    (pick_first-mem (scores_better texts f) f.headers h first, t)

email_header_match_lem :
    (texts : Texts) (f : ParsedFile) (h : Text)
    → email_header_match texts f ≡ some h
    → IsMailed texts f h
unfolding email_header_match
email_header_match_lem texts f h e =
    let (m, n, t) = wanted_lem texts f (has_emails texts f) email_headers h e in (m, t)

email_match_lem :
    (texts : Texts) (f : ParsedFile) (h : Text) → email_match texts f ≡ some h → IsMailed texts f h
unfolding email_match
email_match_lem texts f h e =
    let (first, t) = only_if_lem _ _ h e in (pick_first-mem _ f.headers h first, t)

-- The column that is detected is a column of the file, and passes the test of the step that chose it:
-- its normalised name is one of the known ones, or at least 60% of its sampled values are websites, or,
-- for an address column that is only offered, at least 60% of them are addresses.
pub detect_column-IsChosen :
    (texts : Texts) (f : ParsedFile)
    → let g = detect_column texts f in IsChosen texts f g.guess_method g.column g.email_column
unfolding detect_column
detect_column-IsChosen texts f =
    choose_column-IsChosen texts f (header_match texts f) (content_match texts f)
      (email_header_match texts f) (email_match texts f)
      (IfSome-intro (IsNamed texts f) (header_match texts f) (header_match_lem texts f))
      (IfSome-intro (IsFull texts f) (content_match texts f) (content_match_lem texts f))
      (IfSome-intro (IsMailed texts f) (email_header_match texts f)
        (email_header_match_lem texts f))
      (IfSome-intro (IsMailed texts f) (email_match texts f) (email_match_lem texts f))
