-- ===== src/Csv/Tests.antt =====
-- The csv module at a concrete file.
use email_extractor.Common.{◌≡◌, refl, inl, inr, some, List, [], ◌∷◌, Text, txt, arith}
use email_extractor.Csv.{
  comma, is_special, doubled, quoted, cell_text, later_cells, csv_line, csv_text, read_csv,
}
use email_extractor.Csv.RoundTrip.{read_csv-csv_text}

abbrev cells : List (List Text)
cells = (txt "a,b" ∷ ([] ∷ ((34 ∷ (13 ∷ [])) ∷ []))) ∷ ([] ∷ (([] ∷ []) ∷ []))

read_csv-csv_text_example : read_csv 131072 comma (csv_text cells) ≡ some cells
unfolding is_special
read_csv-csv_text_example = read_csv-csv_text 131072 cells (
  ((omega arith, inl refl), ((omega arith, inl refl), ((omega arith, inr refl), tt))),
  (tt, (((omega arith, inl refl), tt), tt)),
)

written_lem : csv_text cells ≡ txt "\"a,b\",,\"\"\"\r\"\n\n\"\"\n"
unfolding csv_text csv_line later_cells cell_text quoted doubled is_special
written_lem = refl

-- A carriage return with nothing to quote it ends the row for a reader.
split_lem :
    read_csv 131072 comma (csv_text (((97 ∷ (13 ∷ (98 ∷ []))) ∷ (txt "x" ∷ [])) ∷ []))
    ≡ some ((txt "a" ∷ []) ∷ ((txt "b" ∷ (txt "x" ∷ [])) ∷ []))
unfolding csv_text csv_line later_cells cell_text is_special read_csv
split_lem = refl
