-- ===== src/Export/Download.antt =====
-- The CSV download of app/main.py: the header and the rows that `results_csv` yields.
use email_extractor.Common.{
  ℕ, suc, ◌+◌, ◌≡◌, refl, ap, ◌∙◌, Bool, false, inl, inr, Option, some, List, [], ◌∷◌, ◌++◌, map,
  arith, Bool-cases, length, length-append, drop, All, All-append, Text, or_else, get, text_eq,
}
use email_extractor.Schemas.{DomainResult}
use email_extractor.Csv.{comma, csv_text, read_csv}
use email_extractor.Csv.RoundTrip.{IsReadable, read_csv-csv_text}
use email_extractor.Export.{
  ex_prefix, result_fields, Cells, is_formula, is_formula_char, csv_safe, output_header, cell_at,
  result_cells, output_row,
}

-- What `stream_rows` yields for an item.
pub record Streamed : Type 0 where
  pub raw_row : Cells
  pub result : Option DomainResult
  pub pending : Option Text
  pub retrying : Bool

-- The rows that the download writes.
unfoldable pub download_rows : List Text → List Streamed → List (List Text)
unfolding output_header output_row
download_rows columns streamed =
    output_header columns
    ∷ map (λ (s : Streamed). output_row columns s.raw_row s.result s.pending s.retrying) streamed

-- `results_csv`: the byte order mark, then each row's line.
unfoldable pub download : List Text → List Streamed → Text
unfolding download_rows csv_text
download columns streamed = 65279 ∷ csv_text (download_rows columns streamed)

-- A row that fits a header of `width` cells, and in which no cell is a formula.
abbrev pub IsSafeRow : ℕ → List Text → Type 0
IsSafeRow width row = (length row ≡ width) × All (λ c. is_formula c ≡ false) row

csv_safe-not_formula : (s : Text) → is_formula (csv_safe s) ≡ false
unfolding csv_safe is_formula is_formula_char
csv_safe-not_formula s = elim (Bool-cases (is_formula s)) [
  | inl t ↦ rw t refl
  | inr f ↦ rw f (rw f refl)
]

length-map {ℓ κ} :
    {A : Type ℓ} {B : Type κ} (f : A → B) (xs : List A) → length (map f xs) ≡ length xs
length-map f [] = refl
length-map f (x ∷ xs) = ground (arith, length-map f xs)

All-map :
    (f : Text → Text)
    → ((t : Text) → is_formula (f t) ≡ false)
    → (ts : List Text) → All (λ c. is_formula c ≡ false) (map f ts)
All-map f h [] = tt
All-map f h (t ∷ ts) = (h t, All-map f h ts)

output_header-IsSafeRow :
    (columns : List Text) → IsSafeRow (length columns + 23) (output_header columns)
unfolding output_header is_formula is_formula_char
output_header-IsSafeRow columns = (
  length-append (map csv_safe columns) (map (λ f. ex_prefix ++ f) result_fields)
      ∙ ap (λ (n : ℕ). n + 23) (length-map csv_safe columns),
  All-append (λ c. is_formula c ≡ false) (map csv_safe columns)
      (map (λ f. ex_prefix ++ f) result_fields) (All-map csv_safe csv_safe-not_formula columns)
      (All-map (λ f. ex_prefix ++ f) (λ f. refl) result_fields),
)

output_row-IsSafeRow :
    (columns : List Text) (raw_row : Cells) (result : Option DomainResult) (pending : Option Text)
    (retrying : Bool)
    → IsSafeRow (length columns + 23) (output_row columns raw_row result pending retrying)
unfolding output_row cell_at
output_row-IsSafeRow columns raw_row result pending retrying =
    let cells = result_cells result pending retrying in
    (
      length-append (map (cell_at raw_row) columns) (map (cell_at cells) result_fields)
          ∙ ap (λ (n : ℕ). n + 23) (length-map (cell_at raw_row) columns),
      All-append (λ c. is_formula c ≡ false) (map (cell_at raw_row) columns)
          (map (cell_at cells) result_fields)
          (All-map (cell_at raw_row) (λ c. csv_safe-not_formula (or_else (get c raw_row) []))
            columns)
          (All-map (cell_at cells) (λ c. csv_safe-not_formula (or_else (get c cells) []))
            result_fields),
    )

download_rows-safe :
    (columns : List Text) (streamed : List Streamed)
    → All (IsSafeRow (length columns + 23)) (download_rows columns streamed)
unfolding download_rows
download_rows-safe columns streamed = (output_header-IsSafeRow columns, rows_safe streamed)
  where
    rows_safe :
        (streamed : List Streamed)
        → All (IsSafeRow (length columns + 23)) (
            map
              (λ (s : Streamed). output_row columns s.raw_row s.result s.pending s.retrying)
              streamed)
    rows_safe [] = tt
    rows_safe (s ∷ streamed) =
        (output_row-IsSafeRow columns s.raw_row s.result s.pending s.retrying, rows_safe streamed)

-- A program that reads a download back, behind its byte order mark, gets exactly the header and one
-- row for each item, in order, if each cell fits the reader's limit and a carriage return stands only
-- in a cell that the writer quotes for another character.
pub read_csv-download :
    (limit : ℕ) (columns : List Text) (streamed : List Streamed)
    → All (All (IsReadable limit)) (download_rows columns streamed)
    → read_csv limit comma (drop 1 (download columns streamed))
      ≡ some (download_rows columns streamed)
unfolding download
read_csv-download limit columns streamed h =
    read_csv-csv_text limit (download_rows columns streamed) h

length-download_rows :
    (columns : List Text) (streamed : List Streamed)
    → length (download_rows columns streamed) ≡ suc (length streamed)
unfolding download_rows
length-download_rows columns streamed = ap suc (
    length-map (λ (s : Streamed). output_row columns s.raw_row s.result s.pending s.retrying)
      streamed)

-- A program that reads a download back, behind its byte order mark, finds the header and one row for each
-- item; each has as many cells as the file has columns, and 23 more, and no cell begins as a formula of a
-- spreadsheet, whatever the upload and the pages hold, if each cell fits the reader's limit and a carriage
-- return stands only in a cell that the writer quotes for another character.
pub download_rows-IsSafeRow :
    (limit : ℕ) (columns : List Text) (streamed : List Streamed)
    → All (All (IsReadable limit)) (download_rows columns streamed)
    → (rows : List (List Text)) × (read_csv limit comma (drop 1 (download columns streamed))
        ≡ some rows)
      × (length rows ≡ suc (length streamed))
      × All (IsSafeRow (length columns + 23)) rows
download_rows-IsSafeRow limit columns streamed h = (
  download_rows columns streamed,
  read_csv-download limit columns streamed h,
  length-download_rows columns streamed,
  download_rows-safe columns streamed,
)
