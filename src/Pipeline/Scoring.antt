-- ===== src/Pipeline/Scoring.antt =====
-- The scoring of app/pipeline/discovery/score.py: which pages of a site are candidates.
pub mod Pages
pub mod Allowed
use email_extractor.Common.{
  ℕ, zero, suc, ◌+◌, Bool, true, false, not, ◌&&◌, ◌||◌, Option, none, some, is_some, List, [], ◌∷◌,
  ◌++◌, map, if◌then◌else◌, ◌==◌, leb, ltb, length, take, any, all, count_if, Text, txt, eq_text,
  mem_text, starts_with, contains, strip, strip_left, strip_right, is_space,
}
use email_extractor.Input.{Library, registrable}
use email_extractor.Pipeline.Discovery.{ScoredUrl, select_urls}
use email_extractor.Pipeline.Sitemaps.{
  World, segments, tokens_of_all, last_of, is_full, Crawl, collect_sitemap_urls,
}

-- What the libraries and the patterns give: a URL's host, path and origin, its canonical form and the
-- one without a fragment, whether an anchor's text has a keyword, a page's links, robots.txt's lines.
pub record SiteReader : Type 0 where
  pub library : Library
  pub is_alnum : ℕ → Bool
  pub host_of : Text → Text
  pub path_of : Text → Text
  pub origin_of : Text → Text
  pub canonical : Text → Text
  pub without_fragment : Text → Text
  pub anchor_matches : Text → Bool
  pub extract_links : Text → Text → List (Text × Text)
  pub sitemap_lines : Text → List Text
  pub fetch : Text → Text
  pub locs : Text → List Text
  pub is_index : Text → Bool
  pub lines : Text → List Text

pub record Tier : Type 0 where
  pub name : Text
  pub score : ℕ
  pub keywords : List Text

-- `TIERS`
abbrev pub tiers : List Tier
tiers =
    record {
      name = txt "contact";
      score = 100;
      keywords =
          txt "contact"
          ∷ (txt "contact-us" ∷ (txt "contactus" ∷ (txt "get-in-touch" ∷ (txt "reach-us" ∷ []))));
    }
    ∷ (record {
      name = txt "quote";
      score = 80;
      keywords =
          txt "quote"
          ∷ (txt "get-a-quote"
              ∷ (txt "request-a-quote"
                  ∷ (txt "free-estimate"
                      ∷ (txt "estimate"
                          ∷ (txt "schedule"
                              ∷ (txt "book" ∷ (txt "booking" ∷ (txt "appointment" ∷ []))))))));
    }
        ∷ (record {
          name = txt "about";
          score = 60;
          keywords =
              txt "about"
              ∷ (txt "about-us"
                  ∷ (txt "our-story"
                      ∷ (txt "team"
                          ∷ (txt "our-team"
                              ∷ (txt "leadership"
                                  ∷ (txt "staff"
                                      ∷ (txt "meet-the-team"
                                          ∷ (txt "company" ∷ (txt "who-we-are" ∷ [])))))))));
        }
            ∷ (record {
              name = txt "legal";
              score = 40;
              keywords =
                  txt "privacy"
                  ∷ (txt "privacy-policy"
                      ∷ (txt "accessibility"
                          ∷ (txt "terms" ∷ (txt "terms-of-service" ∷ (txt "legal" ∷ [])))));
            }
                ∷ (record {
                  name = txt "locations";
                  score = 20;
                  keywords =
                      txt "locations"
                      ∷ (txt "location" ∷ (txt "offices" ∷ (txt "careers" ∷ (txt "jobs" ∷ []))));
                }
                    ∷ []))))

-- `EXCLUDED_SEGMENTS`
abbrev pub excluded_segments : List Text
excluded_segments =
    txt "blog"
    ∷ (txt "news"
        ∷ (txt "tag"
            ∷ (txt "tags"
                ∷ (txt "category"
                    ∷ (txt "categories"
                        ∷ (txt "product"
                            ∷ (txt "products"
                                ∷ (txt "shop"
                                    ∷ (txt "cart"
                                        ∷ (txt "checkout"
                                            ∷ (txt "account"
                                                ∷ (txt "login"
                                                    ∷ (txt "wp-admin"
                                                        ∷ (txt "feed"
                                                            ∷ (txt "rss"
                                                            ∷ (txt "author"
                                                            ∷ (txt "search" ∷ [])))))))))))))))))

-- `FORBIDDEN_PREFIXES`
abbrev pub forbidden_prefixes : List Text
forbidden_prefixes =
    txt "/wp-admin" ∷ (txt "/cart" ∷ (txt "/checkout" ∷ (txt "/account" ∷ (txt "/login" ∷ []))))

-- `ASSET_EXTENSIONS`
abbrev pub asset_extensions : List Text
asset_extensions = map txt (
    "pdf"
    ∷ ("jpg"
        ∷ ("jpeg"
            ∷ ("png"
                ∷ ("gif"
                    ∷ ("svg"
                        ∷ ("webp"
                            ∷ ("bmp"
                                ∷ ("ico"
                                    ∷ ("avif"
                                        ∷ ("tif"
                                            ∷ ("tiff"
                                                ∷ ("zip"
                                                    ∷ ("gz"
                                                        ∷ ("tar"
                                                            ∷ ("rar"
                                                            ∷ ("7z"
                                                            ∷ ("doc"
                                                            ∷ ("docx"
                                                            ∷ ("xls"
                                                            ∷ ("xlsx"
                                                            ∷ ("ppt"
                                                            ∷ ("pptx"
                                                            ∷ ("rtf"
                                                            ∷ ("mp4"
                                                            ∷ ("mp3"
                                                            ∷ ("wav"
                                                            ∷ ("mov"
                                                            ∷ ("avi"
                                                            ∷ ("webm"
                                                            ∷ ("css"
                                                            ∷ ("js"
                                                            ∷ ("json"
                                                            ∷ ("xml"
                                                            ∷ ("rss"
                                                            ∷ ("atom"
                                                            ∷ ("woff"
                                                            ∷ ("woff2"
                                                            ∷ ("ttf"
                                                            ∷ ("eot"
                                                            ∷ ("otf"
                                                            ∷ ("csv"
                                                            ∷ ("txt"
                                                            ∷ ("exe" ∷ ("dmg" ∷ ("apk" ∷ [])))))))))
                                                            )))))))))))))))))))))))))))))))))))))

-- `_YEAR`: four digits that begin with 19 or 20.
unfoldable pub is_year : (is_digit : ℕ → Bool) → Text → Bool
is_year is_digit s =
    length s == 4 && ((starts_with (txt "19") s || starts_with (txt "20") s) && all is_digit s)

-- What stands behind the last dot.
unfoldable pub behind_dot : Text → Option Text
behind_dot [] = none
behind_dot (c ∷ s) = elim (behind_dot s) [
  | some ext ↦ some ext
  | none ↦ if c == 46 then some s else none
]

-- `extension_of` of a path in lower case.
unfoldable pub extension_of : SiteReader → Text → Option Text
unfolding behind_dot last_of segments
extension_of site path = elim (last_of (segments path)) [
  | none ↦ none
  | some last ↦ elim (behind_dot last) [
    | none ↦ none
    | some ext ↦
        if is_full ext && (all site.is_alnum ext && leb (length ext) 5) then some ext else none
  ]
]

unfoldable pub is_asset : Option Text → Bool
is_asset none = false
is_asset (some ext) = mem_text ext asset_extensions

-- `is_excluded`
unfoldable pub is_excluded : SiteReader → Text → Bool
unfolding extension_of is_year is_asset segments
is_excluded site path =
    let low = site.library.lower path in
    any (λ p. starts_with p low) forbidden_prefixes
    || (any (λ s. mem_text s excluded_segments || is_year site.library.is_digit s) (segments low)
        || is_asset (extension_of site low))

-- The first tier with a keyword among some texts, and its score.
unfoldable pub tier_among : List Text → List Tier → Option Text × ℕ
tier_among texts [] = (none, 0)
tier_among texts (t ∷ ts) =
    let later = tier_among texts ts in
    if any (λ k. mem_text k texts) t.keywords then (some t.name, t.score) else later

-- `tier_for`
unfoldable pub tier_for : SiteReader → Text → Option Text × ℕ
unfolding tier_among tokens_of_all segments
tier_for site path =
    let segs = map site.library.lower (segments path) in
    tier_among (segs ++ tokens_of_all segs) tiers

-- `parts.path or "/"`
unfoldable pub raw_path : SiteReader → Text → Text
raw_path site url = elim (site.path_of url) [ [] ↦ txt "/" | c ∷ s ↦ c ∷ s ]

-- `ANCHOR_BONUS` where the anchor has a keyword.
unfoldable pub anchor_bonus : SiteReader → Text → ℕ
anchor_bonus site anchor = if is_full anchor && site.anchor_matches anchor then 10 else 0

-- `score_url`; none means never to fetch the URL.
unfoldable pub score_url : SiteReader → (url anchor : Text) → Option ScoredUrl
unfolding is_excluded tier_for raw_path anchor_bonus segments
score_url site url anchor =
    let tier = tier_for site (raw_path site url) in
    let total = tier.1 + anchor_bonus site anchor in
    if is_excluded site (raw_path site url)
    then none
    else if total == 0
    then none
    else some (record {
      url = site.canonical url;
      score = total;
      tier = tier.0;
      depth = length (segments (site.path_of (site.canonical url)));
      anchor = anchor;
      fetch_url = site.without_fragment url;
    })

-- The candidates among some links.
unfoldable pub score_links : SiteReader → List (Text × Text) → List ScoredUrl
unfolding score_url
score_links site [] = []
score_links site ((url, anchor) ∷ links) = elim (score_url site url anchor) [
  | none ↦ score_links site links
  | some scored ↦ scored ∷ score_links site links
]

-- `has_tier`
unfoldable pub has_tier : List ScoredUrl → Text → Bool
has_tier candidates name =
    any (λ (c : ScoredUrl). elim c.tier [ none ↦ false | some t ↦ eq_text t name ]) candidates
