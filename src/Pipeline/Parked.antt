-- ===== src/Pipeline/Parked.antt =====
-- app/pipeline/parked.py: whether a domain is parked or for sale, by its name servers, the address that its
-- homepage leads to, and the homepage's text.
use email_extractor.Common.{
  ℕ, ◌≡◌, ◌≤◌, Bool, false, ◌&&◌, ◌||◌, Option, none, some, List, [], ◌∷◌, arith, if◌then◌else◌,
  ◌==◌, ltb, length, any, Text, txt, eq_text, mem_text, starts_with, ends_with, contains,
  strip_right,
}
use email_extractor.Pipeline.Sitemaps.{split_at}

-- What the libraries give: a text in lower case, a URL's host and path, a page's visible text.
pub record Reader : Type 0 where
  pub lower : Text → Text
  pub hostname : Text → Text
  pub path : Text → Text
  pub visible_text : Text → Text

-- `PARKING_NS_MARKERS`
abbrev pub parking_ns_markers : List Text
parking_ns_markers =
    txt "sedoparking"
    ∷ txt "bodis"
    ∷ txt "parkingcrew"
    ∷ txt "above.com"
    ∷ txt "dan.com"
    ∷ txt "afternic"
    ∷ txt "hugedomains"
    ∷ txt "namebrightdns"
    ∷ txt "parklogic"
    ∷ []

-- `PARKING_HOSTS`
abbrev pub parking_hosts : List Text
parking_hosts =
    txt "dan.com"
    ∷ txt "afternic.com"
    ∷ txt "hugedomains.com"
    ∷ txt "sedo.com"
    ∷ txt "undeveloped.com"
    ∷ []

-- `PARKING_HOST_PATHS`
abbrev pub parking_host_paths : List (Text × List Text)
parking_host_paths = (txt "godaddy.com", txt "/forsale" ∷ []) ∷ []

-- `FOR_SALE_PHRASES`
abbrev pub for_sale_phrases : List Text
for_sale_phrases =
    txt "this domain is for sale"
    ∷ txt "buy this domain"
    ∷ txt "domain may be for sale"
    ∷ txt "this domain has been registered"
    ∷ []

-- `WEAK_PHRASES`
abbrev pub weak_phrases : List Text
weak_phrases = txt "parked free" ∷ txt "future home of" ∷ txt "coming soon" ∷ []

-- `WEAK_MAX_CHARS`
abbrev pub weak_max_chars : ℕ
weak_max_chars = 300

pub data Signal : Type 0 where
  ns host phrase : Signal

-- `ParkedVerdict`: none where `parked` is false, and else the signal.
abbrev pub ParkedVerdict : Type 0
ParkedVerdict = Option Signal

-- `host == h or host.endswith("." + h)`
unfoldable pub is_within : (name h : Text) → Bool
is_within name h = eq_text name h || ends_with (46 ∷ h) name

-- `_ns_marker_hit`
unfoldable pub ns_marker_hit : (name marker : Text) → Bool
unfolding is_within
ns_marker_hit name marker =
    if contains (txt ".") marker
    then is_within name marker
    else mem_text marker (split_at (λ c. c == 46) [] name)

-- `check_ns`
unfoldable pub check_ns : Reader → List Text → ParkedVerdict
unfolding ns_marker_hit
check_ns reader ns_hosts =
    if any
      (λ n. any (ns_marker_hit (strip_right (λ c. c == 46) (reader.lower n))) parking_ns_markers)
      ns_hosts
    then some Signal.ns
    else none

-- `check_final_url`
unfoldable pub check_final_url : Reader → Text → ParkedVerdict
unfolding is_within
check_final_url reader url =
    let reached = reader.lower (reader.hostname url) in
    if any (is_within reached) parking_hosts
      || any
          (λ (entry : Text × List Text).
            is_within reached entry.0 && any (λ p. starts_with p (reader.path url)) entry.1)
          parking_host_paths
    then some Signal.host
    else none

-- `check_text` of a text.
unfoldable pub check_text : Reader → Text → ParkedVerdict
check_text reader text =
    let low = reader.lower text in
    if any (λ p. contains p low) for_sale_phrases
    then some Signal.phrase
    else if ltb (length text) weak_max_chars && any (λ p. contains p low) weak_phrases
    then some Signal.phrase
    else none

abbrev pub first_signal : ParkedVerdict → ParkedVerdict → ParkedVerdict
first_signal none later = later
first_signal (some s) later = some s

-- `check_final_url(final_url) if final_url else ParkedVerdict()`
unfoldable pub check_url_if_any : Reader → Text → ParkedVerdict
unfolding check_final_url
check_url_if_any reader [] = none
check_url_if_any reader (c ∷ url) = check_final_url reader (c ∷ url)

-- `check_text(html) if html else ParkedVerdict()`
unfoldable pub check_html_if_any : Reader → Text → ParkedVerdict
unfolding check_text
check_html_if_any reader [] = none
check_html_if_any reader (c ∷ html) = check_text reader (reader.visible_text (c ∷ html))

-- `is_parked`
unfoldable pub is_parked : Reader → (ns_hosts : List Text) → (final_url html : Text) → ParkedVerdict
unfolding check_ns check_url_if_any check_html_if_any
is_parked reader ns_hosts final_url html =
    first_signal (check_ns reader ns_hosts)
      (first_signal (check_url_if_any reader final_url) (check_html_if_any reader html))

-- A text of 300 characters or more is parked by a phrase of a sale alone.
pub check_text-long :
    (reader : Reader) (text : Text)
    → 300 ≤ length text
    → any (λ p. contains p (reader.lower text)) for_sale_phrases ≡ false
    → check_text reader text ≡ none
unfolding check_text
check_text-long reader text long clean = rw clean (ground arith)
