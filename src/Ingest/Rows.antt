-- ===== src/Ingest/Rows.antt =====
-- A file that is read keeps to the limits, and each of its rows has exactly the headers as its keys.
use email_extractor.Common.{
  ℕ, suc, ◌≤◌, ◌≡◌, refl, inl, inr, Bool, true, false, ◌||◌, Bool-cases, Option, none, some,
  is_some, List, [], ◌∷◌, map, arith, if◌then◌else◌, ltb, length, All, Text, txt, eq_text_iff,
  text_eq, mem_text, ends_with, strip, get, put, get-put,
}
use email_extractor.Csv.{read_csv}
use email_extractor.Input.{Library}
use email_extractor.Ingest.{
  Files, max_columns, max_rows, max_bytes, field_limit, ParsedFile, Parsing, refused, parsed,
  decode, sniff_delimiter, trim_trailing_blanks, name_columns, fill_row, to_row, tabulate,
  parse_records, parse_sheet, has_extension, sheet_extensions, is_unsupported, parse_text,
  parse_bytes,
}

-- The keys of a row are the headers.
abbrev pub HasKeys : List Text → List (Text × Text) → Type 0
HasKeys headers row = (h : Text) → is_some (get h row) ≡ mem_text h headers

abbrev pub IsTable : ParsedFile → Type 0
IsTable f =
    (length f.headers ≤ max_columns) × (length f.rows ≤ max_rows) × All (HasKeys f.headers) f.rows

or_false : (b : Bool) → b ≡ (b || false)
or_false false = refl
or_false true = refl

fill_row-keys :
    (h : Text) (row : List (Text × Text)) (headers cells : List Text)
    → is_some (get h (fill_row row headers cells)) ≡ is_some (get h row) || mem_text h headers
unfolding fill_row mem_text
fill_row-keys h row [] cells = or_false (is_some (get h row))
fill_row-keys h row (j ∷ headers) [] = ground (
  arith,
  fill_row-keys h (put j [] row) headers [],
  get-put j h [] row,
  eq_text_iff j h,
  eq_text_iff h j,
)
fill_row-keys h row (j ∷ headers) (c ∷ cells) = ground (
  arith,
  fill_row-keys h (put j (strip c) row) headers cells,
  get-put j h (strip c) row,
  eq_text_iff j h,
  eq_text_iff h j,
)

length-name_columns :
    (b : Bool) (i : ℕ) (cells : List Text) → length (name_columns b i cells) ≡ length cells
unfolding name_columns
length-name_columns b i [] = refl
length-name_columns b i (c ∷ cells) = ground (arith, length-name_columns b (suc i) cells)

length-map {ℓ κ} :
    {A : Type ℓ} {B : Type κ} (f : A → B) (xs : List A) → length (map f xs) ≡ length xs
length-map f [] = refl
length-map f (x ∷ xs) = ground (arith, length-map f xs)

to_row-HasKeys :
    (headers : List Text) (body : List (List Text))
    → All (HasKeys headers) (map (to_row headers) body)
unfolding to_row
to_row-HasKeys headers [] = tt
to_row-HasKeys headers (r ∷ body) = (λ h. fill_row-keys h [] headers r, to_row-HasKeys headers body)

-- What is asked of a result: a table, or a refusal.
abbrev pub IfParsed : Parsing → Type 0
IfParsed (refused e) = Unit
IfParsed (parsed f) = IsTable f

tabulate-IsTable :
    (b : Bool) (d : ℕ) (encoding : Text) (first : List Text) (body : List (List Text))
    → length first ≤ max_columns
    → IfParsed (tabulate b d encoding first body)
unfolding tabulate
tabulate-IsTable b d encoding first body h = elim (Bool-cases (ltb max_rows (length body))) [
  | inl t ↦ rw t tt
  | inr f ↦
      let headers = name_columns b 0 first in
      rw f (
        omega (arith, length-name_columns b 0 first),
        ground (arith, length-map (to_row headers) body),
        to_row-HasKeys headers body,
      )
]

parse_records-IsTable :
    (lib : Library) (d : ℕ) (encoding : Text) (records : Option (List (List Text)))
    → IfParsed (parse_records lib d encoding records)
unfolding parse_records
parse_records-IsTable lib d encoding none = tt
parse_records-IsTable lib d encoding (some []) = tt
parse_records-IsTable lib d encoding (some (r ∷ records)) =
    let first = trim_trailing_blanks (map strip r) in
    elim (Bool-cases (ltb max_columns (length first))) [
      | inl t ↦ rw t tt
      | inr f ↦ rw f (tabulate-IsTable _ d encoding first _ (ground arith))
    ]

parse_sheet-IsTable :
    (lib : Library) (rows : Option (List (List Text))) → IfParsed (parse_sheet lib rows)
unfolding parse_sheet
parse_sheet-IsTable lib none = tt
parse_sheet-IsTable lib (some []) = tt
parse_sheet-IsTable lib (some (r ∷ rows)) =
    let first = trim_trailing_blanks (map strip r) in
    elim (Bool-cases (ltb max_columns (length first))) [
      | inl t ↦ rw t tt
      | inr f ↦ rw f (tabulate-IsTable _ 44 (txt "xlsx") first _ (ground arith))
    ]

parse_text-IsTable :
    (lib : Library) (files : Files) (decoded : Text × Text) (filename : Text)
    → IfParsed (parse_text lib files decoded filename)
unfolding parse_text
parse_text-IsTable lib files (text, encoding) filename =
    let delimiter = sniff_delimiter files text filename in
    parse_records-IsTable lib delimiter encoding (read_csv field_limit delimiter text)

if-IfParsed : (b : Bool) (x y : Parsing) → IfParsed x → IfParsed y → IfParsed (if b then x else y)
if-IfParsed true x y h k = h
if-IfParsed false x y h k = k

-- Whatever an upload holds, it is refused with an error, or read to at most 500 columns and 50,000
-- rows, each of which has exactly the headers as its keys, also where a record is shorter or longer
-- than the header.
pub parse_bytes-IsTable :
    (lib : Library) (files : Files) (raw filename : Text)
    → IfParsed (parse_bytes lib files raw filename)
unfolding parse_bytes
parse_bytes-IsTable lib files raw filename =
    let name = files.lower filename in
    if-IfParsed (ltb max_bytes (length raw)) _ _ tt (
      if-IfParsed (ends_with (txt ".xls") name) _ _ tt (
        if-IfParsed (is_unsupported name) _ _ tt (
          if-IfParsed (has_extension name sheet_extensions) _ _
            (parse_sheet-IsTable lib (files.sheet raw))
            (parse_text-IsTable lib files (decode files raw) filename))))
