-- ===== src/Input.antt =====
-- app/pipeline/normalize.py: the cleaning of an input cell to a crawl key. What Python's libraries and
-- tldextract compute is a record of functions; the patterns are written out as functions.
pub mod Hosts
pub mod Normalize
pub mod Keys
pub mod Outcome
mod Tests
use email_extractor.Common.{
  ℕ, zero, suc, ◌+◌, ◌-◌, min, Bool, true, false, not, ◌&&◌, ◌||◌, Option, none, some, List, [],
  ◌∷◌, ◌++◌, map, if◌then◌else◌, ◌==◌, leb, ltb, length, drop, any, all, select, find_first, Text,
  txt, eq_text, mem_text, starts_with, ends_with, contains, is_space, strip, strip_left,
  strip_right,
}
use email_extractor.Input.Hosts.{hosts_in, is_valid_host, is_ipv4, without_www}

-- `url_parts` is urlsplit's hostname and path, or none for a ValueError; `idna` is the idna codec;
-- `label` and `registered` are tldextract's domain and registered domain.
pub record Library : Type 0 where
  pub lower : Text → Text
  pub is_digit : ℕ → Bool
  pub url_parts : Text → Option (Text × Text)
  pub idna : Text → Option Text
  pub label : Text → Text
  pub registered : Text → Text

-- `NULL_TOKENS`
abbrev pub null_tokens : List Text
null_tokens =
    []
    ∷ (txt "-"
        ∷ (txt "--"
            ∷ (txt "n/a"
                ∷ (txt "na"
                    ∷ (txt "none"
                        ∷ (txt "null"
                            ∷ (txt "nil"
                                ∷ (txt "#n/a"
                                    ∷ (txt "#na"
                                        ∷ (txt "not available"
                                            ∷ (txt "unknown"
                                                ∷ (txt "tbd" ∷ (txt "." ∷ [])))))))))))))

-- `SITE_BUILDER_SUFFIXES`
abbrev pub site_builder_suffixes : List Text
site_builder_suffixes =
    txt "wixsite.com"
    ∷ (txt "squarespace.com"
        ∷ (txt "godaddysites.com"
            ∷ (txt "weebly.com"
                ∷ (txt "square.site"
                    ∷ (txt "webflow.io"
                        ∷ (txt "wordpress.com"
                            ∷ (txt "blogspot.com"
                                ∷ (txt "myshopify.com"
                                    ∷ (txt "carrd.co" ∷ (txt "editorx.io" ∷ []))))))))))

-- `PATH_SCOPED_SUFFIXES`
abbrev pub path_scoped_suffixes : List Text
path_scoped_suffixes = txt "wixsite.com" ∷ []

-- `SOCIAL_HOSTS`
abbrev pub social_hosts : List Text
social_hosts =
    txt "facebook.com"
    ∷ (txt "fb.com"
        ∷ (txt "instagram.com"
            ∷ (txt "linkedin.com"
                ∷ (txt "yelp.com"
                    ∷ (txt "g.page"
                        ∷ (txt "business.site"
                            ∷ (txt "linktr.ee"
                                ∷ (txt "x.com"
                                    ∷ (txt "twitter.com"
                                        ∷ (txt "youtube.com"
                                            ∷ (txt "angi.com"
                                                ∷ (txt "homeadvisor.com"
                                                    ∷ (txt "thumbtack.com"
                                                        ∷ (txt "bbb.org"
                                                            ∷ (txt "nextdoor.com"
                                                            ∷ (txt "tiktok.com" ∷ []))))))))))))))))

-- The keys of `SOCIAL_PATH_HOSTS`, whose only prefix is "/maps".
abbrev pub social_path_hosts : List Text
social_path_hosts = txt "google.com" ∷ (txt "goo.gl" ∷ [])

-- `FREE_EMAIL_LABELS`
abbrev pub free_email_labels : List Text
free_email_labels =
    txt "gmail"
    ∷ (txt "yahoo"
        ∷ (txt "hotmail"
            ∷ (txt "outlook"
                ∷ (txt "aol"
                    ∷ (txt "icloud"
                        ∷ (txt "msn"
                            ∷ (txt "live"
                                ∷ (txt "comcast"
                                    ∷ (txt "att"
                                        ∷ (txt "sbcglobal"
                                            ∷ (txt "verizon"
                                                ∷ (txt "bellsouth"
                                                    ∷ (txt "me"
                                                        ∷ (txt "ymail"
                                                            ∷ (txt "protonmail"
                                                            ∷ (txt "mail" ∷ []))))))))))))))))

-- The values of `reason` and of `domain_source` that the module writes.
pub data Reason : Type 0 where
  empty not_a_url social_or_directory free_email_only : Reason

pub data DomainSource : Type 0 where
  website email : DomainSource

-- `status` is "invalid_input" or None.
pub record NormalizedInput : Type 0 where
  pub domain : Option Text
  pub display : Text
  pub is_invalid : Bool
  pub reason : Option Reason
  pub domain_source : DomainSource
  pub multiple_values : Bool

-- `[,;|\n\r\t]`
unfoldable pub is_separator : ℕ → Bool
is_separator c = any (λ d. c == d) (44 ∷ (59 ∷ (124 ∷ (10 ∷ (13 ∷ (9 ∷ []))))))

-- The length of a leading run of characters that pass a test.
unfoldable pub run_of : (ℕ → Bool) → Text → ℕ
run_of p [] = 0
run_of p (c ∷ s) = let rest = run_of p s in if p c then suc rest else 0

-- `\s+/\s+` behind the leading `spaces`: the length of the whole, or none.
unfoldable pub slash_separator : (spaces : ℕ) → Text → Option ℕ
unfolding run_of
slash_separator zero s = none
slash_separator (suc n) [] = none
slash_separator (suc n) (c ∷ s) =
    if c == 47 && ltb 0 (run_of is_space s) then some (suc n + suc (run_of is_space s)) else none

-- The length of the match of `_SEPARATORS` at the start of a text.
unfoldable pub separator_at : Text → Option ℕ
unfolding is_separator run_of slash_separator
separator_at s =
    if ltb 0 (run_of is_separator s)
    then some (run_of is_separator s)
    else slash_separator (run_of is_space s) (drop (run_of is_space s) s)

-- `_SEPARATORS.split`: `skip` characters belong to a separator, `current` is the part that is open.
unfoldable pub split_from : (skip : ℕ) → (current : Text) → Text → List Text
unfolding separator_at
split_from skip current [] = current ∷ []
split_from (suc skip) current (c ∷ s) = split_from skip current s
split_from zero current (c ∷ s) = elim (separator_at (c ∷ s)) [
  | none ↦ split_from zero (current ++ (c ∷ [])) s
  | some n ↦ current ∷ split_from (n - 1) [] s
]

abbrev pub is_text : Text → Bool
is_text [] = false
is_text (_ ∷ _) = true

-- `_fragments`
unfoldable pub fragments : Text → List Text
unfolding split_from strip
fragments value = elim (select is_text (map strip (split_from 0 [] value))) [
  | [] ↦ if is_text (strip value) then strip value ∷ [] else []
  | part ∷ parts ↦ part ∷ parts
]

-- The characters that `_tokens` strips: blank, tab, quotes and brackets.
unfoldable pub is_wrapping : ℕ → Bool
is_wrapping c =
    any (λ d. c == d)
      (32 ∷ (9 ∷ (34 ∷ (39 ∷ (96 ∷ (40 ∷ (41 ∷ (91 ∷ (93 ∷ (123 ∷ (125 ∷ (60 ∷ (62 ∷ [])))))))))))))

-- `_tokens`
unfoldable pub tokens : Text → List Text
unfolding is_wrapping strip_left strip_right
tokens fragment =
    let cleaned = strip_right is_wrapping (strip_left is_wrapping fragment) in
    if is_text cleaned then cleaned ∷ hosts_in fragment else hosts_in fragment

-- The host of `_host_and_path`, if it may be one.
unfoldable pub checked_host : Library → (Text × Text) → Option (Text × Text)
checked_host lib (hostname, path) =
    let host = strip_right (λ c. c == 46) (lib.lower (strip hostname)) in
    if is_text host
      && (contains (txt ".") host && (is_valid_host host && not (contains (txt "..") host)))
    then some (host, path)
    else none

-- The URL that a token is read as.
unfoldable pub candidate : Text → Text
candidate token =
    if contains (txt "//") token then token else txt "http://" ++ strip_left (λ c. c == 47) token

-- `_host_and_path`. Its last test, for an empty label, never fails behind the others.
unfoldable pub host_and_path : Library → Text → Option (Text × Text)
unfolding checked_host candidate
host_and_path lib token = elim (lib.url_parts (candidate token)) [
  | none ↦ none
  | some parts ↦ checked_host lib parts
]

-- `_to_punycode`: a host that the codec refuses stays if it is ASCII.
unfoldable pub to_punycode : Library → Text → Option Text
to_punycode lib host = elim (lib.idna host) [
  | some ascii ↦ some ascii
  | none ↦ if all (λ c. ltb c 128) host then some host else none
]

-- `host == x or host.endswith("." + x)`
unfoldable pub is_under : Text → Text → Bool
is_under host x = eq_text host x || ends_with (46 ∷ x) host

-- `_site_builder_suffix`
unfoldable pub site_builder_suffix : Text → Option Text
unfolding is_under
site_builder_suffix host = find_first (is_under host) site_builder_suffixes

-- `_is_social`
unfoldable pub is_social : (host path : Text) → Bool
unfolding is_under
is_social host path =
    any (is_under host) social_hosts
    || (any (is_under host) social_path_hosts && starts_with (txt "/maps") path)

-- `registrable`
unfoldable pub registrable : Library → Text → Text
unfolding site_builder_suffix
registrable lib host = elim (site_builder_suffix host) [
  | some suffix ↦ host
  | none ↦ lib.registered host
]
