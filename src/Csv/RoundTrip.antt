-- ===== src/Csv/RoundTrip.antt =====
-- What `csv_line` writes, the reader reads back. Each lemma runs the reader over one piece of a line,
-- with any `rest` behind it.
use mathlib.Core.List.{append-nil, append_assoc}
use email_extractor.Common.{
  ℕ, ◌+◌, ◌≤◌, ◌≡◌, refl, ap, ◌∙◌, Bool, true, false, inl, inr, ◌⊎◌, some, List, [], ◌∷◌, ◌++◌,
  arith, if◌then◌else◌, ◌==◌, Bool-cases, length, length-append, any, All, Text,
}
use email_extractor.Csv.{
  comma, quote, line_feed, carriage_return, is_special, doubled, quoted, cell_text, later_cells,
  csv_line, csv_text, Mode, Reader, initial, add_char, save_cell, end_row, line_end, start_cell,
  read_row_start, read_in, read_chars, finish_rows, read_csv,
}

abbrev pub is_return : ℕ → Bool
is_return c = c == carriage_return

-- A cell that fits the reader, in which a carriage return stands only where the writer quotes.
abbrev pub IsReadable : ℕ → Text → Type 0
IsReadable limit s = (length s ≤ limit) × ((any is_return s ≡ false) ⊎ (any is_special s ≡ true))

read-doubled :
    (limit : ℕ) (s : Text) (r : Reader) (rest : Text)
    → r.mode ≡ Mode.in_quotes
    → length r.cell + length s ≤ limit
    → read_chars limit comma (doubled s ++ (quote ∷ rest)) r
      ≡ read_chars limit comma rest (record r { cell = r.cell ++ s; mode = Mode.quote_seen })
unfolding read_chars doubled read_in add_char line_end
read-doubled limit [] r rest m h = rw append-nil (ground arith)
read-doubled limit (c ∷ s) r rest m h =
    let after = record r { cell = r.cell ++ (c ∷ []); mode = Mode.in_quotes } in
    ground (
      arith,
      append_assoc r.cell (c ∷ []) s,
      read-doubled limit s after rest refl (omega (arith, length-append r.cell (c ∷ []))),
    )

-- The modes in which a cell begins.
abbrev is_fresh : Mode → Bool
is_fresh Mode.row_start = true
is_fresh Mode.cell_start = true
is_fresh _ = false

read-quoted :
    (limit : ℕ) (s : Text) (r : Reader) (rest : Text)
    → is_fresh r.mode ≡ true
    → r.cell ≡ []
    → length s ≤ limit
    → read_chars limit comma (quoted s ++ rest) r
      ≡ read_chars limit comma rest (record r { cell = s; mode = Mode.quote_seen })
unfolding read_chars quoted read_in read_row_start start_cell line_end
read-quoted limit s r rest m e h =
    let after = record r { mode = Mode.in_quotes } in
    ground (
      arith,
      append_assoc (doubled s) (quote ∷ []) rest,
      read-doubled limit s after rest refl (omega (arith, ap length e)),
    )

read_plain :
    (limit : ℕ) (s : Text) (r : Reader) (rest : Text)
    → r.mode ≡ Mode.in_cell
    → length r.cell + length s ≤ limit
    → any is_special s ≡ false
    → any is_return s ≡ false
    → read_chars limit comma (s ++ rest) r
      ≡ read_chars limit comma rest (record r { cell = r.cell ++ s })
unfolding read_chars read_in add_char line_end is_special
read_plain limit [] r rest m h p q = rw append-nil (ground arith)
read_plain limit (c ∷ s) r rest m h p q =
    let after = record r { cell = r.cell ++ (c ∷ []) } in
    let u : any is_special s ≡ false = ground arith in
    let v : any is_return s ≡ false = ground arith in
    ground (
      arith,
      append_assoc r.cell (c ∷ []) s,
      read_plain limit s after rest m (omega (arith, length-append r.cell (c ∷ []))) u v,
    )

read_first :
    (limit c : ℕ) (s : Text) (r : Reader) (rest : Text)
    → is_fresh r.mode ≡ true
    → r.cell ≡ []
    → length (c ∷ s) ≤ limit
    → any is_special (c ∷ s) ≡ false
    → any is_return (c ∷ s) ≡ false
    → read_chars limit comma (c ∷ (s ++ rest)) r
      ≡ read_chars limit comma rest (record r { cell = c ∷ s; mode = Mode.in_cell })
unfolding read_chars read_in read_row_start start_cell add_char line_end is_special
read_first limit c s r rest m e h p q =
    let after = record r { cell = c ∷ []; mode = Mode.in_cell } in
    let u : any is_special s ≡ false = ground arith in
    let v : any is_return s ≡ false = ground arith in
    ground (arith, read_plain limit s after rest refl (omega arith) u v)

-- The mode behind a cell that was begun in the mode `m`.
unfoldable mode_after : Text → Mode → Mode
mode_after [] m = m
mode_after (c ∷ s) m = if any is_special (c ∷ s) then Mode.quote_seen else Mode.in_cell

read-cell_text :
    (limit : ℕ) (s : Text) (r : Reader) (rest : Text)
    → is_fresh r.mode ≡ true
    → r.cell ≡ []
    → IsReadable limit s
    → read_chars limit comma (cell_text s ++ rest) r
      ≡ read_chars limit comma rest (record r { cell = s; mode = mode_after s r.mode })
unfolding cell_text mode_after
read-cell_text limit [] r rest m e h = ground arith
read-cell_text limit (c ∷ s) r rest m e h = elim (Bool-cases (any is_special (c ∷ s))) [
  | inl t ↦ rw t (read-quoted limit (c ∷ s) r rest m e h.0)
  | inr f ↦ rw f (read_first limit c s r rest m e h.0 f (ground (arith, h.1)))
]

read_comma :
    (limit : ℕ) (s : Text) (r : Reader) (rest : Text)
    → is_fresh r.mode ≡ true
    → r.cell ≡ []
    → IsReadable limit s
    → read_chars limit comma (cell_text s ++ (comma ∷ rest)) r
      ≡ read_chars limit comma rest (record r { row = r.row ++ (s ∷ []); mode = Mode.cell_start })
unfolding read_chars read_in read_row_start start_cell save_cell line_end mode_after
read_comma limit [] r rest m e h = ground (arith, read-cell_text limit [] r (comma ∷ rest) m e h)
read_comma limit (c ∷ s) r rest m e h =
    ground (arith, read-cell_text limit (c ∷ s) r (comma ∷ rest) m e h)

-- The reader behind a row that it added to the others.
abbrev behind_row : Reader → List Text → Reader
behind_row r row = record {
  mode = Mode.row_start;
  cell = [];
  row = [];
  rows = r.rows ++ (row ∷ []);
}

-- A last cell and the line end. An empty cell must stand behind a comma.
read_last :
    (limit : ℕ) (s : Text) (r : Reader) (rest : Text)
    → is_fresh r.mode ≡ true
    → (r.mode ≡ Mode.cell_start) ⊎ (1 ≤ length s)
    → r.cell ≡ []
    → IsReadable limit s
    → read_chars limit comma (cell_text s ++ (line_feed ∷ rest)) r
      ≡ read_chars limit comma rest (behind_row r (r.row ++ (s ∷ [])))
unfolding read_chars read_in save_cell end_row line_end mode_after
read_last limit [] r rest m w e h =
    ground (arith, read-cell_text limit [] r (line_feed ∷ rest) m e h)
read_last limit (c ∷ s) r rest m w e h =
    ground (arith, read-cell_text limit (c ∷ s) r (line_feed ∷ rest) m e h)

read-later_cells :
    (limit : ℕ) (s : Text) (cs : List Text) (r : Reader) (rest : Text)
    → is_fresh r.mode ≡ true
    → (r.mode ≡ Mode.cell_start) ⊎ (1 ≤ length cs + length s)
    → r.cell ≡ []
    → IsReadable limit s
    → All (IsReadable limit) cs
    → read_chars limit comma (cell_text s ++ (later_cells cs ++ rest)) r
      ≡ read_chars limit comma rest (behind_row r (r.row ++ (s ∷ cs)))
unfolding later_cells
read-later_cells limit s [] r rest m w e h k = read_last limit s r rest m (ground arith) e h
read-later_cells limit s (c ∷ cs) r rest m w e h k =
    let after = record r { row = r.row ++ (s ∷ []); mode = Mode.cell_start } in
    let ih = read-later_cells limit c cs after rest refl (inl refl) e k.0 k.1 in
    ground (
      arith,
      read_comma limit s r (cell_text c ++ (later_cells cs ++ rest)) m e h,
      ih,
      append_assoc (cell_text c) (later_cells cs) rest,
      append_assoc r.row (s ∷ []) (c ∷ cs),
    )

read-csv_line :
    (limit : ℕ) (row : List Text) (r : Reader) (rest : Text)
    → r.mode ≡ Mode.row_start
    → r.cell ≡ []
    → r.row ≡ []
    → All (IsReadable limit) row
    → read_chars limit comma (csv_line row ++ rest) r
      ≡ read_chars limit comma rest (behind_row r row)
unfolding csv_line
read-csv_line limit [] r rest m e f h =
    unfold read_chars read_in read_row_start end_row line_end in ground arith
read-csv_line limit ([] ∷ []) r rest m e f h =
    unfold read_chars read_in read_row_start start_cell save_cell end_row line_end quoted doubled in
    ground arith
read-csv_line limit ((c ∷ s) ∷ []) r rest m e f h = ground (
  arith,
  append_assoc (cell_text (c ∷ s)) (later_cells []) rest,
  read-later_cells limit (c ∷ s) [] r rest (ground arith) (inr (omega arith)) e h.0 tt,
)
read-csv_line limit (s ∷ (t ∷ cs)) r rest m e f h = ground (
  arith,
  append_assoc (cell_text s) (later_cells (t ∷ cs)) rest,
  read-later_cells limit s (t ∷ cs) r rest (ground arith) (inr (omega arith)) e h.0 h.1,
)

read-csv_text :
    (limit : ℕ) (rows : List (List Text)) (r : Reader)
    → r.mode ≡ Mode.row_start
    → r.cell ≡ []
    → r.row ≡ []
    → All (All (IsReadable limit)) rows
    → read_chars limit comma (csv_text rows) r ≡ record r { rows = r.rows ++ rows }
unfolding csv_text
read-csv_text limit [] r m e f h = rw append-nil (unfold read_chars in refl)
read-csv_text limit (row ∷ rows) r m e f h =
    read-csv_line limit row r (csv_text rows) m e f h.0
    ∙ read-csv_text limit rows (behind_row r row) refl refl refl h.1
    ∙ ground (arith, append_assoc r.rows (row ∷ []) rows)

-- Reading back the text that `csv_line` writes for a list of rows gives exactly these rows, whatever
-- commas, quotes, line ends and empty cells or rows they hold, if each cell fits the reader's limit
-- and a carriage return stands only in a cell that the writer quotes for another character.
pub read_csv-csv_text :
    (limit : ℕ) (rows : List (List Text))
    → All (All (IsReadable limit)) rows
    → read_csv limit comma (csv_text rows) ≡ some rows
unfolding read_csv finish_rows
read_csv-csv_text limit rows h =
    rw (read-csv_text limit rows initial refl refl refl h, finish_rows) refl
