-- ===== src/Csv.antt =====
-- Python's csv module as the program calls it. The writer is `csv_line` of app/jobs.py, which ends
-- lines by "\n"; the reader is `csv.reader` over the undivided lines of a text, of `parse_bytes` in
-- app/ingest.py, with no dialect but the delimiter. A cell over `limit` characters is a csv.Error.
pub mod RoundTrip
mod Tests
use email_extractor.Common.{
  ℕ, Bool, true, false, ◌&&◌, ◌||◌, Option, none, some, List, [], ◌∷◌, ◌++◌, if◌then◌else◌, ◌==◌,
  leb, length, any, Text,
}

abbrev pub comma : ℕ
comma = 44

abbrev pub quote : ℕ
quote = 34

abbrev pub line_feed : ℕ
line_feed = 10

abbrev pub carriage_return : ℕ
carriage_return = 13

-- The characters that make the writer quote a cell: the delimiter, the quote and the line end.
unfoldable pub is_special : ℕ → Bool
is_special c = c == comma || (c == quote || c == line_feed)

unfoldable pub doubled : Text → Text
doubled [] = []
doubled (c ∷ s) = let rest = doubled s in if c == quote then quote ∷ (quote ∷ rest) else c ∷ rest

unfoldable pub quoted : Text → Text
quoted s = quote ∷ (doubled s ++ (quote ∷ []))

unfoldable pub cell_text : Text → Text
cell_text s = if any is_special s then quoted s else s

-- The cells after the first, and the line end.
unfoldable pub later_cells : List Text → Text
later_cells [] = line_feed ∷ []
later_cells (c ∷ cs) = comma ∷ (cell_text c ++ later_cells cs)

-- `csv_line`: a single empty cell is quoted, since an empty line is a row of no cells.
unfoldable pub csv_line : List Text → Text
csv_line [] = line_feed ∷ []
csv_line ([] ∷ []) = quoted [] ++ (line_feed ∷ [])
csv_line ((c ∷ s) ∷ []) = cell_text (c ∷ s) ++ later_cells []
csv_line (s ∷ (t ∷ cs)) = cell_text s ++ later_cells (t ∷ cs)

-- The lines of a file, one after another.
unfoldable pub csv_text : List (List Text) → Text
unfolding csv_line
csv_text [] = []
csv_text (row ∷ rows) = csv_line row ++ csv_text rows

-- `after_return` stands behind a "\r" that ended a row: a "\n" there belongs to the same line end.
pub data Mode : Type 0 where
  row_start after_return cell_start in_cell in_quotes quote_seen failed : Mode

pub record Reader : Type 0 where
  pub mode : Mode
  pub cell : Text
  pub row : List Text
  pub rows : List (List Text)

abbrev pub initial : Reader
initial = record { mode = Mode.row_start; cell = []; row = []; rows = [] }

unfoldable pub add_char : (limit c : ℕ) → Mode → Reader → Reader
add_char limit c mode r =
    if leb limit (length r.cell)
    then record r { mode = Mode.failed }
    else record r { cell = r.cell ++ (c ∷ []); mode = mode }

unfoldable pub save_cell : Mode → Reader → Reader
save_cell mode r = record r { row = r.row ++ (r.cell ∷ []); cell = []; mode = mode }

unfoldable pub end_row : Mode → Reader → Reader
end_row mode r = record r { rows = r.rows ++ (r.row ∷ []); row = []; mode = mode }

-- A line end, or none: what ends a row, and the mode behind it.
unfoldable pub line_end : ℕ → Option Mode
line_end c =
    if c == line_feed
    then some Mode.row_start
    else if c == carriage_return
    then some Mode.after_return
    else none

unfoldable pub start_cell : (limit delimiter c : ℕ) → Reader → Reader
unfolding save_cell add_char
start_cell limit delimiter c r =
    if c == quote
    then record r { mode = Mode.in_quotes }
    else if c == delimiter
    then save_cell Mode.cell_start r
    else add_char limit c Mode.in_cell r

unfoldable pub read_row_start : (limit delimiter c : ℕ) → Reader → Reader
unfolding start_cell end_row line_end
read_row_start limit delimiter c r = elim (line_end c) [
  | some mode ↦ end_row mode r
  | none ↦ start_cell limit delimiter c r
]

unfoldable pub read_in : Mode → (limit delimiter c : ℕ) → Reader → Reader
unfolding start_cell save_cell end_row line_end add_char read_row_start
read_in Mode.failed limit delimiter c r = r
read_in Mode.row_start limit delimiter c r = read_row_start limit delimiter c r
read_in Mode.after_return limit delimiter c r =
    if c == line_feed
    then record r { mode = Mode.row_start }
    else read_row_start limit delimiter c r
read_in Mode.cell_start limit delimiter c r = elim (line_end c) [
  | some mode ↦ end_row mode (save_cell mode r)
  | none ↦ start_cell limit delimiter c r
]
read_in Mode.in_cell limit delimiter c r = elim (line_end c) [
  | some mode ↦ end_row mode (save_cell mode r)
  | none ↦ if c == delimiter then save_cell Mode.cell_start r else add_char limit c Mode.in_cell r
]
read_in Mode.in_quotes limit delimiter c r =
    if c == quote then record r { mode = Mode.quote_seen } else add_char limit c Mode.in_quotes r
read_in Mode.quote_seen limit delimiter c r = elim (line_end c) [
  | some mode ↦ end_row mode (save_cell mode r)
  | none ↦
      if c == quote
      then add_char limit c Mode.in_quotes r
      else if c == delimiter
      then save_cell Mode.cell_start r
      else add_char limit c Mode.in_cell r
]

unfoldable pub read_chars : (limit delimiter : ℕ) → Text → Reader → Reader
unfolding read_in
read_chars limit delimiter [] r = r
read_chars limit delimiter (c ∷ s) r =
    read_chars limit delimiter s (read_in r.mode limit delimiter c r)

-- The end of the text ends the row that is open.
unfoldable pub finish_rows : Mode → Reader → Option (List (List Text))
unfolding save_cell end_row
finish_rows Mode.failed r = none
finish_rows Mode.row_start r = some r.rows
finish_rows Mode.after_return r = some r.rows
finish_rows _ r = some (r.rows ++ ((r.row ++ (r.cell ∷ [])) ∷ []))

-- `list(csv.reader(io.StringIO(text, newline=""), delimiter=delimiter))`
unfoldable pub read_csv : (limit delimiter : ℕ) → Text → Option (List (List Text))
unfolding read_chars finish_rows
read_csv limit delimiter text =
    let r = read_chars limit delimiter text initial in finish_rows r.mode r
