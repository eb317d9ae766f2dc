-- ===== src/Pipeline/Judge.antt =====
-- app/pipeline/typesafe.py: the decision on the answers of the judge. A number in [0, 1] is counted
-- in thousandths, and text is folded to lower case on the ASCII letters.
use email_extractor.Common.{
  ℕ, zero, suc, ◌+◌, Bool, true, false, not, ◌&&◌, ◌||◌, Option, none, some, List, [], ◌∷◌, ◌++◌,
  ltb, leb, ◌==◌, if◌then◌else◌, Text, txt, text_eq, mem_text, any, select, take, map, get, or_else,
  find_first, length,
}
use email_extractor.Schemas.{Source}
use email_extractor.Pipeline.Candidate.{EmailCandidate, RankedEmail, lower}
pub mod Belonging
pub mod Asking

-- `Judgment`
pub record Judgment : Type 0 where
  pub best_email : Option Text
  pub best_email_source : Option Source
  pub confidence : Option ℕ
  pub needs_review : Bool
  pub business_emails : List Text
  pub site_status : Option Text
  pub typesafe_called : Bool
  pub typesafe_error : Bool
  pub said_none : Bool
  pub belongs : List (Text × ℕ)

-- The settings that the decision reads, at their defaults, and `MAX_JUDGE_CANDIDATES`.
abbrev pub typesafe_confidence_min : ℕ
typesafe_confidence_min = 800

abbrev pub typesafe_belongs_min : ℕ
typesafe_belongs_min = 500

abbrev pub max_judge_candidates : ℕ
max_judge_candidates = 10

-- `Judgment()`
abbrev pub no_judgment : Judgment
no_judgment = record {
  best_email = none;
  best_email_source = none;
  confidence = none;
  needs_review = false;
  business_emails = [];
  site_status = none;
  typesafe_called = false;
  typesafe_error = false;
  said_none = false;
  belongs = [];
}

-- `RankedEmail.email`
abbrev pub email_of : RankedEmail → Text
email_of r = r.candidate.email

-- `should_call`
unfoldable pub should_call : List RankedEmail → Bool
should_call [] = false
should_call (r ∷ rs) = leb 2 (length (r ∷ rs)) || any (λ a. leb 3 a.rank) (r ∷ rs)

-- `rules_only`
unfoldable pub rules_only : List RankedEmail → Judgment
rules_only [] = no_judgment
rules_only (r ∷ rs) = record no_judgment {
  best_email = some (email_of r);
  best_email_source = some Source.rules;
  business_emails = map email_of (select (λ a. a.rank == 1 || a.rank == 2) (r ∷ rs));
}

-- The addresses that `build_body` asks about: no two that agree in lower case, at most so many.
unfoldable pub pick_emails : (room : ℕ) → (seen : List Text) → List RankedEmail → List Text
pick_emails zero seen rs = []
pick_emails (suc room) seen [] = []
pick_emails (suc room) seen (r ∷ rs) =
    let key = lower (email_of r) in
    let later = pick_emails room (key ∷ seen) rs in
    let skipped = pick_emails (suc room) seen rs in
    if mem_text key seen then skipped else key ∷ later

-- The parsed answers: the numbers are read, and none is one that is missing or malformed.
pub record Answers : Type 0 where
  pub choice : Text
  pub confidence : ℕ
  pub site : Option Text
  pub nouls : ℕ → Option ℕ

-- `belongs`, as its items in order.
unfoldable pub belongs_from : (ℕ → Option ℕ) → ℕ → List Text → List (Text × ℕ)
belongs_from nouls i [] = []
belongs_from nouls i (e ∷ es) = (e, or_else (nouls i) 0) ∷ belongs_from nouls (suc i) es

-- `belongs.get(email, default)`
abbrev pub belongs_of : List (Text × ℕ) → Text → ℕ → ℕ
belongs_of belongs email default = or_else (get email belongs) default

abbrev pub passes : List (Text × ℕ) → ℕ → Text → Bool
passes belongs default email = leb typesafe_belongs_min (belongs_of belongs email default)

-- `next((e for e in business), None)`
abbrev pub first_of : List Text → Option Text
first_of [] = none
first_of (e ∷ _) = some e

-- The address of the rules, unless it was judged as not belonging.
unfoldable pub fallback_of : List (Text × ℕ) → List Text → List RankedEmail → Option Text
fallback_of belongs business [] = none
fallback_of belongs business (r ∷ _) =
    let top = lower (email_of r) in if passes belongs 1000 top then some top else first_of business

-- `decide`; the choice is stripped of white space and in lower case.
unfoldable pub decide : Answers → List Text → List RankedEmail → Judgment
decide answers emails ranked =
    let belongs = belongs_from answers.nouls 0 emails in
    let business = select (passes belongs 0) emails in
    let common : Judgment = record no_judgment {
      business_emails = business;
      site_status = answers.site;
      typesafe_called = true;
      belongs = belongs;
    } in
    let fallback = fallback_of belongs business ranked in
    let sure = leb typesafe_confidence_min answers.confidence in
    if mem_text answers.choice emails && sure && passes belongs 0 answers.choice
    then record common {
      best_email = some answers.choice;
      best_email_source = some Source.typesafe;
      confidence = some answers.confidence;
    }
    else if text_eq.beq answers.choice (txt "none") && sure
    then record common {
      best_email_source = some Source.typesafe;
      confidence = some answers.confidence;
      said_none = true;
    }
    else record common {
      best_email = fallback;
      best_email_source = elim fallback [
        | none ↦ some Source.typesafe
        | some _ ↦ some Source.rules
      ];
      needs_review = true;
    }

-- `judge`; the answer of the service is none where the request failed.
unfoldable pub judge : Option Answers → List RankedEmail → Judgment
judge reply ranked = if not (should_call ranked) then rules_only ranked else elim reply [
  | none ↦ record (rules_only ranked) { typesafe_error = true }
  | some answers ↦ decide answers (pick_emails max_judge_candidates [] ranked) ranked
]
