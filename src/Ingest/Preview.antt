-- ===== src/Ingest/Preview.antt =====
-- `normalize_column` and `preview` of app/ingest.py, and `prepare_items` and `prepare_plain` of
-- app/jobs.py: what is shown of an upload, and what a job is then made of.
pub mod Promise
use email_extractor.Common.{
  ℕ, suc, ◌+◌, ◌-◌, Bool, true, false, not, ◌&&◌, ◌||◌, Option, none, some, List, [], ◌∷◌, map,
  if◌then◌else◌, length, take, any, count_if, or_else, Text, txt, text_eq, eq_text, mem_text, strip,
  get,
}
use email_extractor.Input.{
  Library, is_text, Reason, empty, not_a_url, social_or_directory, free_email_only, DomainSource,
  email, NormalizedInput,
}
use email_extractor.Input.Normalize.{normalize_input, is_ok, rpartition}
use email_extractor.Ingest.{ParsedFile}
use email_extractor.Ingest.Columns.{ColumnGuess, GuessMethod, by_email, column_values}

-- `reason not in ("free_email_only", "social_or_directory")`
abbrev pub may_derive : Option Reason → Bool
may_derive (some free_email_only) = false
may_derive (some social_or_directory) = false
may_derive _ = true

-- A refused cell with an "@", read again behind it.
unfoldable pub derive_cell : Library → NormalizedInput → Option (Text × Text) → NormalizedInput
derive_cell lib n none = n
derive_cell lib n (some (local, rest)) =
    let derived = normalize_input lib rest in
    if is_ok derived then record derived { domain_source = email } else n

-- A cell of `normalize_column`.
unfoldable pub normalize_cell : Library → (derive : Bool) → Text → NormalizedInput
unfolding derive_cell
normalize_cell lib derive v =
    let n = normalize_input lib v in
    if derive && (not (is_ok n) && may_derive n.reason) then derive_cell lib n (rpartition v) else n

-- `normalize_column`
unfoldable pub normalize_column :
    Library → ParsedFile → Text → (derive : Bool) → List NormalizedInput
unfolding normalize_cell column_values
normalize_column lib f column derive = map (normalize_cell lib derive) (column_values f column)

-- `a or b` of optional names.
unfoldable pub or_name : Option Text → Option Text → Option Text
or_name none b = b
or_name (some []) b = b
or_name (some (c ∷ s)) b = some (c ∷ s)

abbrev pub is_by_email : GuessMethod → Bool
is_by_email by_email = true
is_by_email _ = false

abbrev pub is_name : Text → Option Text → Bool
is_name column none = false
is_name column (some c) = eq_text column c

-- `guess.method == "email" and column == guess.email_column`
unfoldable pub derives : ColumnGuess → Text → Bool
derives guess column = is_by_email guess.guess_method && is_name column guess.email_column

-- The column that is asked for or guessed; the empty name counts as none.
unfoldable pub chosen_column : Option Text → ColumnGuess → Option Text
unfolding or_name
chosen_column column guess = elim (or_name column (or_name guess.column guess.email_column)) [
  | some (c ∷ s) ↦ some (c ∷ s)
  | _ ↦ none
]

abbrev pub is_reason : Reason → Option Reason → Bool
is_reason empty (some empty) = true
is_reason not_a_url (some not_a_url) = true
is_reason social_or_directory (some social_or_directory) = true
is_reason free_email_only (some free_email_only) = true
is_reason _ _ = false

-- A set with the domain of a cell that is ok.
unfoldable pub add_domain : (ok : Bool) → Option Text → List Text → List Text
add_domain ok none seen = seen
add_domain ok (some d) seen = if ok && not (mem_text d seen) then d ∷ seen else seen

-- `set(domains)`, from a set on.
unfoldable pub set_from : List Text → List NormalizedInput → List Text
unfolding add_domain
set_from seen [] = seen
set_from seen (n ∷ ns) = set_from (add_domain (is_ok n) n.domain seen) ns

pub record Preview : Type 0 where
  pub column : Option Text
  pub derived_from_email : Bool
  pub detected_column : Option Text
  pub row_count : ℕ
  pub empty_website_count : ℕ
  pub unique_domains : ℕ
  pub duplicate_domains : ℕ
  pub invalid_count : ℕ
  pub free_email_skipped : ℕ
  pub samples : List NormalizedInput

-- The payload for the cells that were normalised.
unfoldable pub summarize :
    ParsedFile → ColumnGuess → Option Text → (derive : Bool) → List NormalizedInput → Preview
unfolding set_from
summarize f guess column derive normalized =
    let uniques = length (set_from [] normalized) in
    record {
      column = column;
      derived_from_email = derive;
      detected_column = guess.column;
      row_count = length f.rows;
      empty_website_count = count_if (λ (n : NormalizedInput). is_reason empty n.reason) normalized;
      unique_domains = uniques;
      duplicate_domains = count_if is_ok normalized - uniques;
      invalid_count = count_if (λ (n : NormalizedInput). not (is_ok n)) normalized;
      free_email_skipped =
          count_if (λ (n : NormalizedInput). is_reason free_email_only n.reason) normalized;
      samples = take 5 normalized;
    }

unfoldable pub preview_column : Library → ParsedFile → ColumnGuess → Option Text → Preview
unfolding summarize normalize_column derives
preview_column lib f guess none = summarize f guess none false []
preview_column lib f guess (some column) =
    summarize f guess (some column) (derives guess column)
      (normalize_column lib f column (derives guess column))

-- `preview`
unfoldable pub preview : Library → ParsedFile → ColumnGuess → (column : Option Text) → Preview
unfolding preview_column chosen_column
preview lib f guess column = preview_column lib f guess (chosen_column column guess)

-- `status` is "invalid_input" or None.
pub record PreparedItem : Type 0 where
  pub row_index : ℕ
  pub input_value : Text
  pub domain : Option Text
  pub is_invalid : Bool
  pub reason : Option Reason
  pub domain_source : DomainSource
  pub raw_row : List (Text × Text)

unfoldable pub new_item : ℕ → (value : Text) → List (Text × Text) → NormalizedInput → PreparedItem
new_item i value row n = record {
  row_index = i;
  input_value = value;
  domain = n.domain;
  is_invalid = not (is_ok n);
  reason = n.reason;
  domain_source = n.domain_source;
  raw_row = row;
}

-- The loop over the rows and their normalised cells.
unfoldable pub number_items :
    ℕ → (column : Text) → List (List (Text × Text)) → List NormalizedInput → List PreparedItem
unfolding new_item
number_items i column [] ns = []
number_items i column (row ∷ rows) [] = []
number_items i column (row ∷ rows) (n ∷ ns) =
    new_item i (strip (or_else (get column row) [])) row n ∷ number_items (suc i) column rows ns

-- `prepare_items`, or none for the ValueError that no column is selected.
unfoldable pub prepare_items :
    Library → ParsedFile → ColumnGuess → (column : Option Text) → Option (List PreparedItem)
unfolding number_items normalize_column derives chosen_column
prepare_items lib f guess column = elim (chosen_column column guess) [
  | none ↦ none
  | some c ↦ some (number_items 0 c f.rows (normalize_column lib f c (derives guess c)))
]

unfoldable pub plain_from : Library → ℕ → List Text → List PreparedItem
unfolding new_item
plain_from lib i [] = []
plain_from lib i (raw ∷ rest) =
    new_item i (strip raw) ((txt "website", strip raw) ∷ []) (normalize_input lib raw)
    ∷ plain_from lib (suc i) rest

-- `prepare_plain`
unfoldable pub prepare_plain : Library → List Text → List PreparedItem
unfolding plain_from
prepare_plain lib items = plain_from lib 0 items
