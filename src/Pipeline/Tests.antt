-- ===== src/Pipeline/Tests.antt =====
-- The properties of the pipeline at concrete pages, answers and attempts.
use email_extractor.Common.{
  any, ℕ, ends_with, map, zero, suc, ◌≤◌, ◌≡◌, refl, Bool, true, false, none, some, List, [], ◌∷◌,
  Text, txt, eq_text, text_eq, mem_text, length, All, Distinct,
}
use email_extractor.Schemas.{Method}
use email_extractor.Pipeline.Candidate.{EmailCandidate, RankedEmail, merge_pages}
use email_extractor.Pipeline.Candidate.Merging.{emails, merge_pages-Distinct}
use email_extractor.Pipeline.Judge.{Answers, Judgment, no_judgment}
use email_extractor.Pipeline.Status.{StatusInputs}
use email_extractor.Pipeline.DnsCheck
use email_extractor.Pipeline.DnsCheck.{Resolver, no_such_name}
use email_extractor.Pipeline.Fetch.{
  ErrorClass, no_data, Reply, Attempt, refused, raised, error, attempt_with_retries,
}
use email_extractor.Pipeline.Fetch.Retries.{KeepsTo, attempt_with_retries-KeepsTo}
use email_extractor.Pipeline.Run.{Scratch, Found, circuit_open, harvest, process_domain}
use email_extractor.Pipeline.Run.Provenance.{is_seen, is_among, harvest-provenance}
use email_extractor.Pipeline.Rank.{
  rank_candidates, sort_ranked, insert_ranked, ranks_before, classify, local_and_domain, last_at,
  is_own, is_free, method_key, best_score,
}
use email_extractor.Pipeline.Rank.Order.{IsLeast, rank_candidates-own_first}
use email_extractor.Pipeline.Discovery.{ScoredUrl}
use email_extractor.Pipeline.Run.Attempts.{Stops, process_domain-Stops}
use email_extractor.Input.{Library}
use email_extractor.Pipeline.Sitemaps.{World}
use email_extractor.Pipeline.Scoring.{SiteReader}
use email_extractor.Pipeline.Scoring.Pages.{discover_pages}
use email_extractor.Pipeline.Scoring.Allowed.{IsAllowed, discover_pages-IsAllowed}

abbrev info : Text
info = txt "info@acme.com"

abbrev ranked : List RankedEmail
ranked =
    record {
      candidate = record {
        email = info;
        method = Method.mailto;
        source_urls = txt "https://acme.com/" ∷ [];
        context = [];
        order = 1;
      };
      rank = 2;
      own = true;
      role = true;
      free = false;
    }
    ∷ []

-- The judge picks no address, and finds that the only one belongs to the business.
abbrev answers : Answers
answers = record { choice = txt "other"; confidence = 900; site = none; nouls = λ i. some 700 }

abbrev inputs : StatusInputs
inputs = record {
  invalid = false;
  failed = false;
  parked = true;
  typesafe_said_none = true;
  best_email = some info;
  business_emails = [];
  contact_form_url = none;
}

-- A success without a page.
abbrev reply : Reply
reply = record { status = 200; retry_after = none; body = no_data }

abbrev never : Text → Bool
never s = false

abbrev same_text : Text → Text
same_text s = s

-- Two transient errors, then a refusal.
abbrev attempts : ℕ → Attempt
attempts zero = raised (error ErrorClass.transient (txt "homepage") true)
attempts (suc zero) = raised (error ErrorClass.transient (txt "homepage") false)
attempts _ = refused

attempt_with_retries-KeepsTo_example :
    KeepsTo 2 true (attempt_with_retries true (λ d. d) (λ k. false) attempts)
attempt_with_retries-KeepsTo_example =
    attempt_with_retries-KeepsTo true (λ d. d) (λ k. false) attempts

abbrev scratch : Scratch
scratch = record {
  dns = none;
  final_domain = some (txt "acme.com");
  pages = record { url = txt "https://acme.com/"; score = 0; html = [] } ∷ [];
  tokens = 40;
}

abbrev finds : Found
finds = record { ranked = ranked; phones = []; socials = []; contact_form_url = none }

-- A judgment for an address that is on no page.
abbrev made_up : Judgment
made_up = record no_judgment { best_email = some (txt "boss@acme.com") }

harvest-provenance_example :
    All
      (λ c. is_seen scratch c ≡ true)
      (harvest (txt "acme.com") scratch finds (some made_up) none).all_emails
    × (is_among
          (is_seen scratch)
          (harvest (txt "acme.com") scratch finds (some made_up) none).all_emails
          (harvest (txt "acme.com") scratch finds (some made_up) none).best_email
        ≡ true)
harvest-provenance_example = harvest-provenance (txt "acme.com") scratch finds (some made_up) none

process_domain-Stops_example :
    Stops
      (txt "acme.com")
      (λ s. finds)
      (λ k. circuit_open)
      1
      2
      (process_domain (txt "acme.com") (λ s. finds) (λ k. circuit_open))
process_domain-Stops_example =
    process_domain-Stops (txt "acme.com") (λ s. finds) (λ k. circuit_open)

abbrev contact_page : ScoredUrl
contact_page = record {
  url = txt "acme.com/contact";
  score = 100;
  tier = some (txt "contact");
  depth = 1;
  anchor = [];
  fetch_url = [];
}

abbrev found_pages : List ScoredUrl
found_pages =
    contact_page
    ∷ record contact_page { url = txt "acme.com/contact-us" }
    ∷ record contact_page { url = txt "acme.com/contacts" }
    ∷ record contact_page { url = txt "acme.com/about"; tier = none }
    ∷ []

abbrev found_twice : List (List EmailCandidate)
found_twice = map (λ r. r.candidate) ranked ∷ map (λ r. r.candidate) ranked ∷ []

merge_pages-Distinct_example :
    Distinct (emails (merge_pages found_twice))
    × (mem_text (txt "a@acme.com") (emails (merge_pages found_twice))
        ≡ any (λ cs. mem_text (txt "a@acme.com") (emails cs)) found_twice)
merge_pages-Distinct_example = merge_pages-Distinct found_twice (txt "a@acme.com")

-- The label that stands for a public suffix list here.
abbrev label : Text → Text
label s = txt "acme"

abbrev site : Text
site = txt "acme.com"

abbrev address : Text → ℕ → EmailCandidate
address email order = record {
  email = email;
  method = Method.text;
  source_urls = [];
  context = [];
  order = order;
}

abbrev own_info : EmailCandidate
own_info = address info 1

abbrev own_bob : EmailCandidate
own_bob = address (txt "bob@acme.com") 2

rank_candidates-own_first_example :
    ((classify label site own_bob).own ≡ true)
    × All (IsLeast (classify label site own_bob)) (classify label site own_info ∷ [])
unfolding rank_candidates sort_ranked insert_ranked ranks_before classify local_and_domain last_at
    is_own is_free eq_text mem_text ends_with method_key best_score
rank_candidates-own_first_example =
    rank_candidates-own_first label never site [] (own_info ∷ own_bob ∷ [])
      (classify label site own_bob) (classify label site own_info ∷ []) refl refl

-- A sitemap that names itself and a page.
abbrev world : World
world = record {
  same_site = λ u. true;
  fetch = λ u. txt "map";
  locs = λ t. txt "https://acme.com/sitemap.xml" ∷ (txt "https://acme.com/contact" ∷ []);
  is_index = λ t. true;
  lines = λ t. [];
  path_of = λ u. u;
  lower = λ s. s;
}

abbrev seeds : List Text
seeds = txt "https://acme.com/sitemap.xml" ∷ []

abbrev library : Library
library = record {
  lower = λ s. s;
  is_digit = λ c. false;
  url_parts = λ s. none;
  idna = λ s. some s;
  label = λ s. s;
  registered = λ s. s;
}

abbrev reader : SiteReader
reader = record {
  library = library;
  is_alnum = λ c. true;
  host_of = λ u. txt "acme.com";
  path_of = λ u. u;
  origin_of = λ u. txt "https://acme.com";
  canonical = λ u. u;
  without_fragment = λ u. u;
  anchor_matches = λ a. true;
  extract_links = λ html url.
      (txt "/about", txt "About us")
      ∷ ((txt "/contact", txt "Contact") ∷ ((txt "/blog/a", []) ∷ []));
  sitemap_lines = λ t. [];
  fetch = λ u. [];
  locs = λ t. [];
  is_index = λ t. false;
  lines = λ t. [];
}

discover_pages-IsAllowed_example :
    let pages = discover_pages reader (txt "https://acme.com/") [] [] [] 4 in
    (length pages ≤ 4) × All (IsAllowed reader) pages
discover_pages-IsAllowed_example =
    discover_pages-IsAllowed reader (txt "https://acme.com/") [] [] [] 4

-- A resolver that knows no name.
abbrev nowhere : Resolver
nowhere name rdtype = DnsCheck.raised no_such_name
