-- ===== src/Ingest.antt =====
-- app/ingest.py: an uploaded file becomes headers and rows. What Python's codecs, csv.Sniffer and
-- openpyxl give is a record of functions; the csv reader is that of Csv.
pub mod Rows
pub mod Columns
pub mod Preview
mod Tests
use email_extractor.Common.{
  ℕ, zero, suc, ◌+◌, ◌*◌, Bool, true, false, not, ◌&&◌, ◌||◌, Option, none, some, List, [], ◌∷◌,
  ◌++◌, map, if◌then◌else◌, ◌==◌, leb, ltb, length, take, drop, any, all, select, count_if, Text,
  txt, eq_text, text_eq, contains, ends_with, strip, decimal, get, put,
}
use email_extractor.Csv.{read_csv}
use email_extractor.Input.{Library, is_text}
use email_extractor.Input.Normalize.{normalize_input, is_ok}

-- `codec` decodes by an encoding's name, `replaced` as utf-8 with replacement characters; `sniffed`
-- is csv.Sniffer's delimiter; `sheet` is the first sheet's rows, as texts.
pub record Files : Type 0 where
  pub lower : Text → Text
  pub codec : Text → Text → Option Text
  pub replaced : Text → Text
  pub sniffed : Text → Option ℕ
  pub sheet : Text → Option (List (List Text))

-- The codes of `IngestError`.
pub data IngestError : Type 0 where
  invalid_file unsupported_file_type file_too_large empty_file too_many_rows too_many_columns :
      IngestError

abbrev pub max_columns : ℕ
max_columns = 500

abbrev pub max_rows : ℕ
max_rows = 50000

abbrev pub max_bytes : ℕ
max_bytes = 52428800

-- The csv module's own limit on a cell.
abbrev pub field_limit : ℕ
field_limit = 131072

pub record ParsedFile : Type 0 where
  pub headers : List Text
  pub rows : List (List (Text × Text))
  pub had_header : Bool
  pub delimiter : ℕ
  pub encoding : Text

pub data Parsing : Type 0 where
  refused : IngestError → Parsing
  parsed : ParsedFile → Parsing

-- The first of some encodings that reads the bytes.
unfoldable pub first_codec : Files → Text → List Text → Option (Text × Text)
first_codec files raw [] = none
first_codec files raw (name ∷ names) = elim (files.codec name raw) [
  | some text ↦ some (text, name)
  | none ↦ first_codec files raw names
]

unfoldable pub has_utf16_mark : Text → Bool
has_utf16_mark raw =
    eq_text (take 2 raw) (255 ∷ (254 ∷ [])) || eq_text (take 2 raw) (254 ∷ (255 ∷ []))

-- `decode`
unfoldable pub decode : Files → Text → Text × Text
unfolding first_codec has_utf16_mark
decode files raw =
    let wide = txt "utf-16" ∷ (txt "utf-16-le" ∷ (txt "utf-16-be" ∷ [])) in
    let narrow = txt "utf-8-sig" ∷ (txt "utf-8" ∷ (txt "cp1252" ∷ [])) in
    elim (first_codec files raw (if has_utf16_mark raw then wide ++ narrow else narrow)) [
      | some read ↦ read
      | none ↦ (files.replaced raw, txt "utf-8/replace")
    ]

-- The characters that end a line for `splitlines`.
unfoldable pub ends_line : ℕ → Bool
ends_line c =
    (leb 10 c && leb c 13) || ((leb 28 c && leb c 30) || (c == 133 || (c == 8232 || c == 8233)))

-- `head.splitlines()[0]`, or "".
unfoldable pub first_line : Text → Text
unfolding ends_line
first_line [] = []
first_line (c ∷ s) = let rest = first_line s in if ends_line c then [] else c ∷ rest

-- `max(DELIMITERS, key=first.count)`: comma, semicolon, tab, bar, the first of the most frequent.
unfoldable pub most_frequent : Text → (best : ℕ) → List ℕ → ℕ
most_frequent line best [] = best
most_frequent line best (d ∷ ds) =
    most_frequent line
      (if ltb (count_if (λ c. c == best) line) (count_if (λ c. c == d) line) then d else best) ds

-- `best if first.count(best) else ","`
unfoldable pub counted_delimiter : Text → ℕ
unfolding most_frequent
counted_delimiter line =
    let best = most_frequent line 44 (59 ∷ (9 ∷ (124 ∷ []))) in
    if count_if (λ c. c == best) line == 0 then 44 else best

-- `sniff_delimiter`
unfoldable pub sniff_delimiter : Files → (text filename : Text) → ℕ
unfolding counted_delimiter first_line
sniff_delimiter files text filename =
    if ends_with (txt ".tsv") (files.lower filename)
    then 9
    else elim (files.sniffed (take 20000 text)) [
      | some delimiter ↦ delimiter
      | none ↦ counted_delimiter (first_line (take 20000 text))
    ]

-- `looks_like_header`
unfoldable pub looks_like_header : Library → List Text → Bool
looks_like_header lib cells =
    let useful = select (λ c. is_text (strip c)) cells in
    elim useful [ [] ↦ true | c ∷ cs ↦ not (all (λ c. is_ok (normalize_input lib c)) (c ∷ cs)) ]

-- `_trim_trailing_blanks`
unfoldable pub trim_trailing_blanks : List Text → List Text
trim_trailing_blanks [] = []
trim_trailing_blanks (c ∷ cells) = elim (trim_trailing_blanks cells) [
  | [] ↦ if is_text c then c ∷ [] else []
  | d ∷ rest ↦ c ∷ (d ∷ rest)
]

-- `f"column_{i + 1}"`
unfoldable pub column_name : ℕ → Text
column_name i = txt "column_" ++ decimal (suc i)

-- The headers from the index `i` on; `had_header` tells whether the cells name the columns.
unfoldable pub name_columns : (had_header : Bool) → (i : ℕ) → List Text → List Text
unfolding column_name
name_columns had_header i [] = []
name_columns had_header i (c ∷ cells) =
    (if had_header && is_text (strip c) then strip c else column_name i)
    ∷ name_columns had_header (suc i) cells

-- The loop of `_to_row`; a record that is too short gives empty cells.
unfoldable pub fill_row :
    List (Text × Text) → (headers record_cells : List Text) → List (Text × Text)
fill_row row [] cells = row
fill_row row (h ∷ headers) [] = fill_row (put h [] row) headers []
fill_row row (h ∷ headers) (c ∷ cells) = fill_row (put h (strip c) row) headers cells

-- `_to_row`
unfoldable pub to_row : (headers record_cells : List Text) → List (Text × Text)
unfolding fill_row
to_row headers cells = fill_row [] headers cells

-- The rest of `parse_bytes` and of `_parse_xlsx`, once the first record and the others are known.
unfoldable pub tabulate :
    (had_header : Bool)
    → (delimiter : ℕ) → (encoding : Text) → (first : List Text) → (body : List (List Text))
    → Parsing
unfolding name_columns to_row
tabulate had_header delimiter encoding first body =
    if ltb max_rows (length body)
    then refused too_many_rows
    else parsed (record {
      headers = name_columns had_header 0 first;
      rows = map (to_row (name_columns had_header 0 first)) body;
      had_header = had_header;
      delimiter = delimiter;
      encoding = encoding;
    })

-- The records of a text file.
unfoldable pub parse_records :
    Library → (delimiter : ℕ) → (encoding : Text) → Option (List (List Text)) → Parsing
unfolding tabulate trim_trailing_blanks looks_like_header
parse_records lib delimiter encoding none = refused invalid_file
parse_records lib delimiter encoding (some []) = refused empty_file
parse_records lib delimiter encoding (some (r ∷ records)) =
    let first = trim_trailing_blanks (map strip r) in
    let had_header = looks_like_header lib first in
    if ltb max_columns (length first)
    then refused too_many_columns
    else tabulate had_header delimiter encoding first (if had_header then records else r ∷ records)

-- The records of a sheet, the first one trimmed and the others cut to its width.
unfoldable pub parse_sheet : Library → Option (List (List Text)) → Parsing
unfolding tabulate trim_trailing_blanks looks_like_header
parse_sheet lib none = refused invalid_file
parse_sheet lib (some []) = refused empty_file
parse_sheet lib (some (r ∷ rows)) =
    let first = trim_trailing_blanks (map strip r) in
    let later =
      map (λ (row : List Text). take (length first) (map strip row)) (take (suc max_rows) rows) in
    let had_header = looks_like_header lib first in
    if ltb max_columns (length first)
    then refused too_many_columns
    else tabulate had_header 44 (txt "xlsx") first (if had_header then later else first ∷ later)

-- What stands behind the last slash of a name.
unfoldable pub base_name : Text → Text
base_name [] = []
base_name (c ∷ s) = if any (λ d. d == 47) (c ∷ s) then base_name s else c ∷ s

-- Whether a name ends in one of some extensions.
unfoldable pub has_extension : Text → List Text → Bool
has_extension name extensions = any (λ e. ends_with e name) extensions

-- A text file, decoded and read by the delimiter that is found.
unfoldable pub parse_text : Library → Files → (decoded : Text × Text) → (filename : Text) → Parsing
unfolding parse_records sniff_delimiter
parse_text lib files (text, encoding) filename =
    let delimiter = sniff_delimiter files text filename in
    parse_records lib delimiter encoding (read_csv field_limit delimiter text)

abbrev pub sheet_extensions : List Text
sheet_extensions = txt ".xlsx" ∷ (txt ".xlsm" ∷ [])

-- `ALLOWED_EXTENSIONS`
abbrev pub allowed_extensions : List Text
allowed_extensions = txt ".csv" ∷ (txt ".tsv" ∷ (txt ".txt" ∷ sheet_extensions))

-- A name with an extension that is not allowed.
unfoldable pub is_unsupported : Text → Bool
unfolding base_name has_extension
is_unsupported name =
    contains (txt ".") (base_name name) && not (has_extension name allowed_extensions)

-- `parse_bytes`
unfoldable pub parse_bytes : Library → Files → (raw filename : Text) → Parsing
unfolding parse_text parse_sheet decode has_extension is_unsupported
parse_bytes lib files raw filename =
    let name = files.lower filename in
    if ltb max_bytes (length raw)
    then refused file_too_large
    else if ends_with (txt ".xls") name
    then refused unsupported_file_type
    else if is_unsupported name
    then refused unsupported_file_type
    else if has_extension name sheet_extensions
    then parse_sheet lib (files.sheet raw)
    else parse_text lib files (decode files raw) filename
