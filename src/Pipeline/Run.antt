-- ===== src/Pipeline/Run.antt =====
-- app/pipeline/run.py: the attempts at a domain and the result that is made of what they found. The
-- stages between the homepage and the result are arguments: `_process` ends in one of the ways of
-- `Ended`, with what it had accumulated where its deadline passed.
use email_extractor.Common.{
  ℕ, zero, suc, ◌+◌, min, max, Bool, true, false, not, ◌&&◌, ◌||◌, Option, none, some, List, [],
  ◌∷◌, ◌++◌, ltb, leb, ◌==◌, if◌then◌else◌, Text, txt, text_eq, mem_text, any, select, take, map,
  get, is_truthy, is_some,
}
use email_extractor.Schemas.{
  Status, fetch_failed, Method, Source, EmailCandidateOut, DomainResult, blank,
}
use email_extractor.Pipeline.Candidate.{EmailCandidate, RankedEmail}
use email_extractor.Pipeline.Judge.{Judgment, rules_only, email_of, first_of}
use email_extractor.Pipeline.Status.{StatusInputs, assign_status, is_some_item}
use email_extractor.Pipeline.Fetch.{
  ErrorClass, FetchError, FetchResult, Attempt, served, refused, raised, cancelled,
}
use email_extractor.Worker.{
  Outcome, finished, account, crashed, is_retryable_reason, max_domain_attempts,
}
pub mod Provenance
pub mod Attempts

-- The fields of `DnsResult` that are read.
pub record Dns : Type 0 where
  pub resolves : Bool
  pub a_domain : Bool
  pub a_www : Bool
  pub mx_provider : Option Text

-- A rung of `HOMEPAGE_LADDER`: the scheme, and whether `www.` is put before the host.
pub record Rung : Type 0 where
  pub scheme : Text
  pub www : Bool

abbrev pub homepage_ladder : List Rung
homepage_ladder =
    record { scheme = txt "https"; www = false }
    ∷ record { scheme = txt "https"; www = true }
    ∷ record { scheme = txt "http"; www = false }
    ∷ []

-- `ladder_for`
unfoldable pub ladder_for : Option Dns → List Rung
ladder_for none = homepage_ladder
ladder_for (some dns) =
    let rungs = select (λ r. if r.www then dns.a_www else dns.a_domain) homepage_ladder in
    if not dns.resolves || not (is_some_item rungs) then homepage_ladder else rungs

abbrev pub is_account : ErrorClass → Bool
is_account ErrorClass.provider_account = true
is_account _ = false

-- The loop of `fetch_homepage`; `refused` is the exception of the open breaker, which passes through.
-- None is that no rung was tried.
unfoldable pub try_rungs : (Rung → Attempt) → Option FetchError → List Rung → Option Attempt
try_rungs fetch none [] = none
try_rungs fetch (some e) [] = some (raised e)
try_rungs fetch last (r ∷ rs) = elim (fetch r) [
  | served page ↦ some (served page)
  | refused ↦ some refused
  | cancelled ↦ some cancelled
  | raised e ↦ if is_account e.error_class then some (raised e) else try_rungs fetch (some e) rs
]

-- `fetch_homepage`
unfoldable pub fetch_homepage : (Rung → Attempt) → Option Dns → Option Attempt
fetch_homepage fetch dns = try_rungs fetch none (ladder_for dns)

-- A fetched page: its URL, its score and its text.
pub record Page : Type 0 where
  pub url : Text
  pub score : ℕ
  pub html : Text

-- `Scratch`
pub record Scratch : Type 0 where
  pub dns : Option Dns
  pub final_domain : Option Text
  pub pages : List Page
  pub tokens : ℕ

-- What stages 5 and 6 find on the pages: the ranked addresses, the phones, the profiles and the
-- address of a contact form.
pub record Found : Type 0 where
  pub ranked : List RankedEmail
  pub phones : List Text
  pub socials : List (Text × Text)
  pub contact_form_url : Option Text

abbrev pub urls_of : Scratch → List Text
urls_of scratch = map (λ p. p.url) scratch.pages

-- `set(source_urls) & fetched`
abbrev pub is_sourced : Scratch → EmailCandidate → Bool
is_sourced scratch c = any (λ u. mem_text u (urls_of scratch)) c.source_urls

-- The end of `_extract_pages`: only addresses with a source that was fetched are kept.
unfoldable pub kept : Scratch → List RankedEmail → List RankedEmail
kept scratch ranked = select (λ r. is_sourced scratch r.candidate) ranked

abbrev pub is_known : List RankedEmail → Text → Bool
is_known ranked email = any (λ r. text_eq.beq (email_of r) email) ranked

-- `rules_best`
unfoldable pub rules_best : List RankedEmail → Option Text
rules_best [] = none
rules_best (r ∷ _) = some (email_of r)

-- The judgment with an address that is not among the candidates replaced.
unfoldable pub checked_judgment : List RankedEmail → Judgment → Judgment
checked_judgment ranked j = elim j.best_email [
  | none ↦ j
  | some [] ↦ j
  | some (x ∷ e) ↦ if is_known ranked (x ∷ e) then j else record j {
    best_email = rules_best ranked;
    best_email_source = some Source.rules;
    confidence = none;
  }
]

abbrev pub candidate_out : Judgment → RankedEmail → EmailCandidateOut
candidate_out j r = record {
  email = email_of r;
  source_urls = r.candidate.source_urls;
  method = r.candidate.method;
  rank = r.rank;
  belongs = get (email_of r) j.belongs;
}

-- `_harvest` on what `_extract_pages` found before it dropped the addresses without a source.
unfoldable pub harvest :
    Text → Scratch → Found → Option Judgment → (error_reason : Option Text) → DomainResult
harvest domain scratch found_all judgment error_reason =
    let ranked = kept scratch found_all.ranked in
    let j =
      checked_judgment ranked (elim judgment [ none ↦ rules_only ranked | some given ↦ given ]) in
    record (blank domain (
      assign_status (record {
        invalid = false;
        failed = false;
        parked = elim j.site_status [
          | none ↦ false
          | some s ↦ text_eq.beq s (txt "parked_or_for_sale")
        ];
        typesafe_said_none = j.said_none;
        best_email = j.best_email;
        business_emails = j.business_emails;
        contact_form_url = found_all.contact_form_url;
      }))) {
        final_domain = scratch.final_domain;
        best_email = j.best_email;
        best_email_source = if is_truthy j.best_email then j.best_email_source else none;
        confidence = j.confidence;
        needs_review = j.needs_review || is_truthy error_reason;
        business_emails = j.business_emails;
        all_emails = map (candidate_out j) ranked;
        phones = take 5 found_all.phones;
        socials = found_all.socials;
        contact_form_url = found_all.contact_form_url;
        mx_provider = elim scratch.dns [ none ↦ none | some d ↦ d.mx_provider ];
        pages_fetched = urls_of scratch;
        jina_tokens = scratch.tokens;
        typesafe_called = j.typesafe_called;
        typesafe_error = j.typesafe_error;
        site_status = j.site_status;
        error_reason = error_reason;
      }

-- How `_process` ends: with a result, or with one of the exceptions that `_attempt_domain` tells
-- apart; a name stands for the type of the exception.
pub data Ended : Type 0 where
  returned : DomainResult → Ended
  circuit_open : Ended
  timed_out : Scratch → Ended
  fetch_error : FetchError → Ended
  other_error : (name : Text) → Ended

abbrev pub failed : Text → Text → DomainResult
failed domain reason = record (blank domain Status.fetch_failed) { error_reason = some reason }

abbrev pub internal_error : Text → Text → DomainResult
internal_error domain name = record (blank domain Status.fetch_failed) {
  error_reason = some (txt "internal_error");
  site_status = some name;
}

-- `_attempt_domain`; none is the provider account error, which it raises.
unfoldable pub attempt_domain : Text → (Scratch → Found) → Ended → Option DomainResult
attempt_domain domain extract (returned result) = some result
attempt_domain domain extract circuit_open = some (failed domain (txt "circuit_open"))
attempt_domain domain extract (timed_out scratch) =
    if is_some_item scratch.pages
    then some (harvest domain scratch (extract scratch) none (some (txt "domain_timeout")))
    else some (record (failed domain (txt "domain_timeout")) {
      mx_provider = elim scratch.dns [ none ↦ none | some d ↦ d.mx_provider ];
    })
attempt_domain domain extract (fetch_error e) =
    if is_account e.error_class then none else some (internal_error domain (txt "FetchError"))
attempt_domain domain extract (other_error name) = some (internal_error domain name)

-- What `process_domain` comes to: how many attempts it made, and its result, or none where an
-- attempt raised.
pub record Processed : Type 0 where
  pub attempts : ℕ
  pub result : Option DomainResult

-- The loop of `process_domain` from an attempt on, with the attempts that are left after it.
unfoldable pub process_from :
    Text → (Scratch → Found) → (ℕ → Ended) → (attempt left : ℕ) → Processed
process_from domain extract run attempt zero = record {
  attempts = 1;
  result = attempt_domain domain extract (run attempt);
}
process_from domain extract run attempt (suc left) =
    let again = process_from domain extract run (suc attempt) left in
    elim (attempt_domain domain extract (run attempt)) [
      | none ↦ record { attempts = 1; result = none }
      | some r ↦
          if not (is_retryable_reason r.error_reason)
          then record { attempts = 1; result = some r }
          else record { attempts = suc again.attempts; result = again.result }
    ]

-- `process_domain`
unfoldable pub process_domain : Text → (Scratch → Found) → (ℕ → Ended) → Processed
process_domain domain extract run = process_from domain extract run 1 2

-- `_retry_delay` in milliseconds, before the jitter.
unfoldable pub retry_delay : (seconds_until_close : ℕ) → ℕ
retry_delay remaining = min (max remaining 1_000) 60_000
