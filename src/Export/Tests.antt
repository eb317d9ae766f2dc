-- ===== src/Export/Tests.antt =====
-- The downloads and the counts of a job at concrete rows.
use email_extractor.Common.{
  ℕ, ◌+◌, ◌≤◌, ◌≡◌, refl, Bool, true, false, not, ◌&&◌, ◌||◌, leb, any, all, length, drop, arith,
  none, some, List, [], ◌∷◌, map, Text, txt, All, select, count_if, get, or_else, text_eq, eq_text,
}
use email_extractor.Csv.{comma, is_special, read_csv}
use email_extractor.Csv.RoundTrip.{is_return, IsReadable}
use email_extractor.Export.{output_header, output_row, csv_safe, is_formula, is_formula_char}
use email_extractor.Schemas.{found, blank}
use email_extractor.Queue.State.{RowState, Row, dumped}
use email_extractor.Export.Download.{
  Streamed, IsSafeRow, download, download_rows, download_rows-IsSafeRow,
}
use email_extractor.Export.Stream.{Item, own_row, stream_rows, stream_rows-own_row}
use email_extractor.Export.Counts.{job_counts, sum_counts, is_unnamed, of_job, job_counts-add_up}

abbrev columns : List Text
columns = txt "site" ∷ (txt "-note" ∷ [])

abbrev rows_out : List Streamed
rows_out =
    record {
      raw_row = (txt "site", txt "=1+1") ∷ [];
      result = some (blank (txt "acme.com") found);
      pending = some (txt "acme.com");
      retrying = false;
    }
    ∷ []

abbrev is_readable : ℕ → Text → Bool
is_readable limit s = leb (length s) limit && (not (any is_return s) || any is_special s)

cells-IsReadable :
    (limit : ℕ) (row : List Text) → all (is_readable limit) row ≡ true → All (IsReadable limit) row
cells-IsReadable limit [] h = tt
cells-IsReadable limit (c ∷ row) h =
    ((ground arith, ground arith), cells-IsReadable limit row (ground arith))

rows-IsReadable :
    (limit : ℕ) (rows : List (List Text))
    → all (all (is_readable limit)) rows ≡ true
    → All (All (IsReadable limit)) rows
rows-IsReadable limit [] h = tt
rows-IsReadable limit (row ∷ rows) h =
    (cells-IsReadable limit row (ground arith), rows-IsReadable limit rows (ground arith))

download_rows-IsSafeRow_example :
    (rows : List (List Text)) × (read_csv 131072 comma (drop 1 (download columns rows_out))
      ≡ some rows)
    × (length rows ≡ 2)
    × All (IsSafeRow 25) rows
unfolding download_rows output_header output_row is_special csv_safe is_formula is_formula_char
    eq_text
download_rows-IsSafeRow_example =
    download_rows-IsSafeRow 131072 columns rows_out
      (rows-IsReadable 131072 (download_rows columns rows_out) refl)

abbrev item : Item
item = record {
  input_value = txt "acme.com";
  domain = some (txt "acme.com");
  is_invalid = false;
  reason = none;
  raw_row = [];
}

abbrev finished : Row
finished = record {
  job_id = 1;
  domain = txt "acme.com";
  seq = 0;
  state = RowState.done;
  attempts = 1;
  available_at = 100;
  claimed_by = none;
  heartbeat_at = none;
  finished_at = some 120;
  requeued_at = none;
  from_cache = false;
  jina_tokens = 900;
  status = some found;
  result = some (dumped (blank (txt "acme.com") found));
  needs_review = false;
  typesafe_called = false;
  has_phone = false;
  has_form = false;
  has_linkedin = false;
}

stream_rows-own_row_example :
    stream_rows 1 (finished ∷ []) (item ∷ (item ∷ []))
    ≡ map (own_row 1 (finished ∷ [])) (item ∷ (item ∷ []))
stream_rows-own_row_example = stream_rows-own_row 1 (finished ∷ []) (item ∷ (item ∷ []))

job_counts-add_up_example :
    let c = job_counts 1 (item ∷ []) [] (finished ∷ []) in
    let afterwards = job_counts 1 (item ∷ []) (finished ∷ []) (finished ∷ []) in
    (sum_counts c.by_status + count_if is_unnamed (select (of_job 1) (finished ∷ []))
      ≡ afterwards.done)
    × (or_else (get (txt "found") c.by_status) 0 ≡ afterwards.found)
    × (or_else (get (txt "fetch_failed") c.by_status) 0 ≡ afterwards.failed)
    × (c.done + c.running + c.retrying ≤ c.unique_domains)
    × (c.found + c.failed ≤ c.done)
job_counts-add_up_example = job_counts-add_up 1 (item ∷ []) [] (finished ∷ [])
