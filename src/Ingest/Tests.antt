-- ===== src/Ingest/Tests.antt =====
-- A small upload, with concrete functions for the libraries.
use email_extractor.Common.{
  ◌≡◌, refl, true, ◌&&◌, Option, none, some, [], ◌∷◌, if◌then◌else◌, leb, Text, txt, contains,
  mem_text,
}
use email_extractor.Input.{Library}
use email_extractor.Input.Normalize.{segment_behind, path_of_key}
use email_extractor.Input.Outcome.{has_slash}
use email_extractor.Ingest.{Files, ParsedFile, parse_bytes}
use email_extractor.Ingest.Rows.{IfParsed, parse_bytes-IsTable}
use email_extractor.Ingest.Columns.{Texts, detect_column}
use email_extractor.Ingest.Columns.Detected.{IsChosen, detect_column-IsChosen}

abbrev idna : Text → Option Text
idna h = if has_slash h then none else some h

abbrev library : Library
library = record {
  lower = λ s. s;
  is_digit = λ c. leb 48 c && leb c 57;
  url_parts = λ s. some (segment_behind s, path_of_key s);
  idna = idna;
  label = λ s. s;
  registered = λ s. s;
}

abbrev files : Files
files = record {
  lower = λ s. s;
  codec = λ name raw. some raw;
  replaced = λ raw. raw;
  sniffed = λ text. none;
  sheet = λ raw. none;
}

abbrev upload : Text
upload = txt "name,website\nAcme,acme.com\nBell\n"

parse_bytes-IsTable_example : IfParsed (parse_bytes library files upload (txt "leads.csv"))
parse_bytes-IsTable_example = parse_bytes-IsTable library files upload (txt "leads.csv")

abbrev texts : Texts
texts = record {
  library = library;
  is_alnum = λ c. leb 97 c;
  is_emailish = λ s. contains (txt "@") s;
}

abbrev table : ParsedFile
table = record {
  headers = txt "name" ∷ (txt "website" ∷ []);
  rows =
      ((txt "name", txt "Acme") ∷ ((txt "website", txt "acme.com") ∷ []))
      ∷ (((txt "name", txt "Bell") ∷ ((txt "website", []) ∷ [])) ∷ []);
  had_header = true;
  delimiter = 44;
  encoding = txt "utf-8";
}

detect_column-IsChosen_example :
    let g = detect_column texts table in IsChosen texts table g.guess_method g.column g.email_column
detect_column-IsChosen_example = detect_column-IsChosen texts table

detected_lem : (detect_column texts table).column ≡ some (txt "website")
unfolding detect_column mem_text
detected_lem = refl
