-- ===== src/Pipeline/Scoring/Pages.antt =====
-- `parse_sitemaps` of app/pipeline/discovery/robots.py, and `discover_pages` of __init__.py beside it: which
-- pages of a site are fetched.
use email_extractor.Common.{
  ℕ, Bool, not, ◌&&◌, ◌||◌, Option, none, some, is_some, List, [], ◌∷◌, ◌++◌, map, if◌then◌else◌,
  ◌==◌, leb, ltb, length, take, count_if, Text, txt, eq_text, mem_text, starts_with, strip,
  strip_left, strip_right, is_space,
}
use email_extractor.Input.{registrable}
use email_extractor.Pipeline.Discovery.{ScoredUrl, select_urls}
use email_extractor.Pipeline.Sitemaps.{World, is_full, Crawl, collect_sitemap_urls}
use email_extractor.Pipeline.Scoring.{SiteReader, score_links, has_tier}

-- `_same_site`
unfoldable pub same_site : SiteReader → (own url : Text) → Bool
unfolding registrable
same_site site own url =
    is_full (site.host_of url) && eq_text (registrable site.library (site.host_of url)) own

abbrev pub is_web : SiteReader → Text → Bool
is_web site url =
    starts_with (txt "http://") (site.library.lower url)
    || starts_with (txt "https://") (site.library.lower url)

-- `raw.strip().strip("<>\"'")`
unfoldable pub clean_line : Text → Text
clean_line raw =
    let p = λ (c : ℕ). c == 60 || (c == 62 || (c == 34 || c == 39)) in
    strip_right p (strip_left p (strip raw))

-- The loop of `parse_sitemaps`, with the URLs that were found; it ends at five.
unfoldable pub add_sitemaps :
    SiteReader → (own : Text) → (found : List Text) → List Text → List Text
unfolding same_site clean_line
add_sitemaps site own found [] = found
add_sitemaps site own found (raw ∷ lines) =
    let url = clean_line raw in
    let ours = is_web site url && same_site site own url in
    let now = if ours && not (mem_text url found) then found ++ (url ∷ []) else found in
    let rest = add_sitemaps site own now lines in if ours && leb 5 (length now) then now else rest

-- `parse_sitemaps`: an error page in HTML has none.
unfoldable pub parse_sitemaps : SiteReader → (robots_text site_host : Text) → List Text
unfolding add_sitemaps registrable
parse_sitemaps site robots_text site_host =
    let head = site.library.lower (take 15 (strip_left is_space robots_text)) in
    if starts_with (txt "<!doctype") head || starts_with (txt "<html") head
    then []
    else add_sitemaps site (registrable site.library site_host) [] (site.sitemap_lines robots_text)

-- The world of the sitemaps of a site.
unfoldable pub world_of : SiteReader → (own : Text) → World
world_of site own = record {
  same_site = same_site site own;
  fetch = site.fetch;
  locs = site.locs;
  is_index = site.is_index;
  lines = site.lines;
  path_of = site.path_of;
  lower = site.library.lower;
}

unfoldable pub pages_of : Option Crawl → List Text
pages_of none = []
pages_of (some c) = c.pages

abbrev pub bare_link : Text → Text × Text
bare_link url = (url, [])

-- `FIXED_FALLBACK_PATHS`
abbrev pub fixed_fallback_paths : List Text
fixed_fallback_paths =
    txt "/contact" ∷ (txt "/contact-us" ∷ (txt "/about" ∷ (txt "/about-us" ∷ [])))

-- The choice, with the fixed paths where fewer than two pages have a tier.
unfoldable pub choose_pages :
    SiteReader → (final_url : Text) → (limit : ℕ) → List ScoredUrl → List ScoredUrl
unfolding select_urls score_links
choose_pages site final_url limit candidates =
    let chosen = select_urls limit 2 candidates in
    let fixed =
      score_links site
        (map (λ p. bare_link (site.origin_of final_url ++ p)) fixed_fallback_paths) in
    if ltb (count_if (λ (c : ScoredUrl). is_some c.tier) chosen) 2
    then select_urls limit 2 (candidates ++ fixed)
    else chosen

-- The pages of the sitemaps that robots.txt and the seed name.
unfoldable pub sitemap_links :
    SiteReader → (own robots_text root_sitemap_text : Text) → List (Text × Text)
unfolding collect_sitemap_urls world_of parse_sitemaps pages_of
sitemap_links site own robots_text root_sitemap_text = map bare_link (
    pages_of (
      collect_sitemap_urls (world_of site own) (root_sitemap_text ∷ [])
        (parse_sitemaps site robots_text own)))

-- The choice among the homepage's links and, unless these are enough, the sitemaps' pages.
unfoldable pub discover_from :
    SiteReader → (final_url : Text) → (limit : ℕ) → (linked found : List ScoredUrl) → List ScoredUrl
unfolding has_tier select_urls choose_pages
discover_from site final_url limit linked found =
    if has_tier linked (txt "contact") && has_tier linked (txt "about")
    then select_urls limit 2 linked
    else choose_pages site final_url limit (linked ++ found)

-- `discover_pages`
unfoldable pub discover_pages :
    SiteReader
    → (final_url homepage_html robots_text root_sitemap_text : Text) → (limit : ℕ) → List ScoredUrl
unfolding score_links discover_from sitemap_links registrable
discover_pages site final_url homepage_html robots_text root_sitemap_text limit =
    let own = registrable site.library (site.host_of final_url) in
    discover_from site final_url limit
      (score_links site (site.extract_links homepage_html final_url))
      (score_links site (sitemap_links site own robots_text root_sitemap_text))
