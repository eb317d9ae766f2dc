-- ===== src/Ingest/Columns.antt =====
-- `detect_column` of app/ingest.py: which column of a table holds the website. A score is the pair of
-- the values that pass and of those in the sample; `is_alnum` is str.isalnum of a character, and
-- `is_emailish` the pattern of an address.
pub mod Detected
use email_extractor.Common.{
  ℕ, zero, suc, ◌+◌, ◌*◌, Bool, true, false, not, ◌&&◌, ◌||◌, Option, none, some, List, [], ◌∷◌,
  map, if◌then◌else◌, ◌==◌, leb, ltb, length, take, select, count_if, or_else, Text, txt, text_eq,
  strip, get, put,
}
use email_extractor.Input.{
  Library, is_text, Reason, social_or_directory, DomainSource, website, email, NormalizedInput,
}
use email_extractor.Input.Normalize.{normalize_input, is_ok}
use email_extractor.Ingest.{ParsedFile}

pub record Texts : Type 0 where
  pub library : Library
  pub is_alnum : ℕ → Bool
  pub is_emailish : Text → Bool

-- The values of `confidence` and `method`.
pub data Confidence : Type 0 where
  high medium low no_confidence : Confidence

pub data GuessMethod : Type 0 where
  by_header by_content by_email no_method : GuessMethod

abbrev pub Score : Type 0
Score = ℕ × ℕ

pub record ColumnGuess : Type 0 where
  pub column : Option Text
  pub confidence : Confidence
  pub guess_method : GuessMethod
  pub email_column : Option Text

-- `HEADER_PRIORITY`
abbrev pub header_priority : List Text
header_priority =
    txt "website"
    ∷ (txt "websiteurl"
        ∷ (txt "companywebsite"
            ∷ (txt "companywebsiteurl"
                ∷ (txt "companydomain"
                    ∷ (txt "domain"
                        ∷ (txt "url"
                            ∷ (txt "companyurl"
                                ∷ (txt "homepage"
                                    ∷ (txt "web"
                                        ∷ (txt "site"
                                            ∷ (txt "organizationwebsite"
                                                ∷ (txt "businesswebsite" ∷ []))))))))))))

-- `EMAIL_HEADERS`
abbrev pub email_headers : List Text
email_headers =
    txt "email"
    ∷ (txt "emailaddress"
        ∷ (txt "contactemail"
            ∷ (txt "workemail"
                ∷ (txt "primaryemail" ∷ (txt "owneremail" ∷ (txt "publicemail" ∷ []))))))

abbrev pub sample_size : ℕ
sample_size = 200

-- `norm_header`
unfoldable pub norm_header : Texts → Text → Text
norm_header texts name = select texts.is_alnum (texts.library.lower name)

-- `ParsedFile.column`
unfoldable pub column_values : ParsedFile → Text → List Text
column_values f name = map (λ (row : List (Text × Text)). strip (or_else (get name row) [])) f.rows

-- `[v for v in values if v.strip()][:SAMPLE_SIZE]`
unfoldable pub sample_of : List Text → List Text
sample_of values = take sample_size (select (λ v. is_text (strip v)) values)

-- The share of the sample that passes a test.
unfoldable pub share : (Text → Bool) → List Text → Score
unfolding sample_of
share p values = (count_if p (sample_of values), length (sample_of values))

abbrev pub is_website : DomainSource → Bool
is_website website = true
is_website email = false

abbrev pub is_social_reason : Option Reason → Bool
is_social_reason (some social_or_directory) = true
is_social_reason _ = false

-- `score_column`
unfoldable pub score_column : Texts → List Text → Score
unfolding share
score_column texts values =
    share (λ v. let n = normalize_input texts.library v in is_ok n && is_website n.domain_source)
      values

-- `score_emails`
unfoldable pub score_emails : Texts → List Text → Score
unfolding share
score_emails texts values = share texts.is_emailish values

-- `social_share`
unfoldable pub social_share : Texts → List Text → Score
unfolding share
social_share texts values =
    share (λ v. is_social_reason (normalize_input texts.library v).reason) values

-- Whether a share is greater than another; that of an empty sample is 0.
unfoldable pub exceeds : Score → Score → Bool
exceeds (a, m) (b, n) = ltb 0 m && (if n == 0 then ltb 0 a else ltb (b * m) (a * n))

-- `score >= CONTENT_THRESHOLD`, which is 0.6.
unfoldable pub is_enough : Score → Bool
is_enough (a, m) = ltb 0 m && leb (6 * m) (10 * a)

-- `normed`: for each normalised header the last one that has it.
unfoldable pub normed_headers : Texts → List Text → List (Text × Text) → List (Text × Text)
unfolding norm_header
normed_headers texts [] normed = normed
normed_headers texts (h ∷ headers) normed =
    normed_headers texts headers (put (norm_header texts h) h normed)

-- The first wanted header that the file has and that passes a test.
unfoldable pub first_wanted : (Text → Bool) → List (Text × Text) → List Text → Option Text
first_wanted p normed [] = none
first_wanted p normed (want ∷ wants) =
    let later = first_wanted p normed wants in
    elim (get want normed) [ none ↦ later | some h ↦ if p h then some h else later ]

-- The first header that no other one beats.
unfoldable pub pick : (beats : Text → Text → Bool) → (best : Text) → List Text → Text
pick beats best [] = best
pick beats best (h ∷ headers) = pick beats (if beats h best then h else best) headers

unfoldable pub pick_first : (beats : Text → Text → Bool) → List Text → Option Text
unfolding pick
pick_first beats [] = none
pick_first beats (h ∷ headers) = some (pick beats h headers)

-- `(-scores[h], social_share(h))` in order: the greater score, then the smaller social share.
unfoldable pub scores_better : Texts → ParsedFile → Text → Text → Bool
unfolding score_column social_share exceeds column_values
scores_better texts f h best =
    let a = score_column texts (column_values f h) in
    let b = score_column texts (column_values f best) in
    exceeds a b
    || (not (exceeds b a)
        && exceeds (social_share texts (column_values f best))
            (social_share texts (column_values f h)))

-- An option that passes a test; the empty name counts as none.
unfoldable pub only_if : (Text → Bool) → Option Text → Option Text
only_if p none = none
only_if p (some h) = if is_text h && p h then some h else none

-- The steps of `detect_column`.
unfoldable pub header_match : Texts → ParsedFile → Option Text
unfolding first_wanted normed_headers
header_match texts f = first_wanted (λ h. true) (normed_headers texts f.headers []) header_priority

unfoldable pub content_match : Texts → ParsedFile → Option Text
unfolding only_if pick_first scores_better is_enough score_column column_values
content_match texts f =
    only_if (λ h. is_enough (score_column texts (column_values f h)))
      (pick_first (scores_better texts f) f.headers)

unfoldable pub has_emails : Texts → ParsedFile → Text → Bool
unfolding is_enough score_emails column_values
has_emails texts f h = is_enough (score_emails texts (column_values f h))

unfoldable pub email_header_match : Texts → ParsedFile → Option Text
unfolding first_wanted normed_headers has_emails
email_header_match texts f =
    first_wanted (has_emails texts f) (normed_headers texts f.headers []) email_headers

unfoldable pub email_match : Texts → ParsedFile → Option Text
unfolding only_if pick_first has_emails exceeds score_emails column_values
email_match texts f = only_if (has_emails texts f) (
    pick_first
      (λ h best.
        exceeds (score_emails texts (column_values f h))
          (score_emails texts (column_values f best)))
      f.headers)

unfoldable pub guess : Option Text → Confidence → GuessMethod → Option Text → ColumnGuess
guess column confidence guess_method email_column = record {
  column = column;
  confidence = confidence;
  guess_method = guess_method;
  email_column = email_column;
}

-- The first step that finds a column.
unfoldable pub choose_column : (header content email_header any_email : Option Text) → ColumnGuess
unfolding guess
choose_column (some h) content email_header any_email = guess (some h) high by_header none
choose_column none (some h) email_header any_email = guess (some h) medium by_content none
choose_column none none (some h) any_email = guess none low by_email (some h)
choose_column none none none (some h) = guess none low by_email (some h)
choose_column none none none none = guess none no_confidence no_method none

-- `detect_column`
unfoldable pub detect_column : Texts → ParsedFile → ColumnGuess
unfolding header_match content_match email_header_match email_match choose_column
detect_column texts f =
    choose_column (header_match texts f) (content_match texts f) (email_header_match texts f)
      (email_match texts f)
