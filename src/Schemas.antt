-- ===== src/Schemas.antt =====
-- app/schemas.py: the result of a domain. A float in [0, 1] is counted in thousandths; a time is a
-- number of seconds. `processed_at` is only reported, and left out.
use email_extractor.Common.{ℕ, Bool, true, false, Option, none, List, [], Text}

-- `Status`
pub data Status : Type 0 where
  invalid_input fetch_failed parked_or_for_sale no_business_email found form_only no_contact_info :
      Status

-- `ExtractionMethod`, in the order of `METHOD_PRECEDENCE`
pub data Method : Type 0 where
  mailto jsonld cloudflare text attribute script : Method

-- `best_email_source`
pub data Source : Type 0 where
  typesafe rules : Source

pub record EmailCandidateOut : Type 0 where
  pub email : Text
  pub source_urls : List Text
  pub method : Method
  pub rank : ℕ
  pub belongs : Option ℕ

pub record DomainResult : Type 0 where
  pub domain : Text
  pub final_domain : Option Text
  pub status : Status
  pub best_email : Option Text
  pub best_email_source : Option Source
  pub confidence : Option ℕ
  pub needs_review : Bool
  pub business_emails : List Text
  pub all_emails : List EmailCandidateOut
  pub phones : List Text
  pub socials : List (Text × Text)
  pub contact_form_url : Option Text
  pub mx_provider : Option Text
  pub site_status : Option Text
  pub pages_fetched : List Text
  pub jina_tokens : ℕ
  pub typesafe_called : Bool
  pub typesafe_error : Bool
  pub error_reason : Option Text

-- A result with every other field at its default.
abbrev pub blank : Text → Status → DomainResult
blank domain status = record {
  domain = domain;
  final_domain = none;
  status = status;
  best_email = none;
  best_email_source = none;
  confidence = none;
  needs_review = false;
  business_emails = [];
  all_emails = [];
  phones = [];
  socials = [];
  contact_form_url = none;
  mx_provider = none;
  site_status = none;
  pages_fetched = [];
  jina_tokens = 0;
  typesafe_called = false;
  typesafe_error = false;
  error_reason = none;
}

abbrev pub is_fetch_failed : Status → Bool
is_fetch_failed fetch_failed = true
is_fetch_failed _ = false
