-- ===== src/Pipeline/Sitemaps.antt =====
-- `collect_sitemap_urls` of app/pipeline/discovery/__init__.py, with `order_children` and `extract_urls`
-- of sitemap.py and `segments` and `tokens` of score.py: the pages that a site's sitemaps name.
pub mod Collected
use email_extractor.Common.{
  ℕ, zero, suc, ◌+◌, ◌-◌, ◌*◌, Bool, true, false, not, ◌&&◌, ◌||◌, Option, none, some, List, [],
  ◌∷◌, ◌++◌, map, if◌then◌else◌, ◌==◌, leb, length, take, any, select, Text, txt, mem_text,
}

-- `same_site` is `_same_site` for the domain; `fetch` is `fetch_text_or_blank`; `locs`, `is_index` and
-- `lines` are parse_locs, is_sitemap_index and parse_plain_text; `path_of` is a URL's path.
pub record World : Type 0 where
  pub same_site : Text → Bool
  pub fetch : Text → Text
  pub locs : Text → List Text
  pub is_index : Text → Bool
  pub lines : Text → List Text
  pub path_of : Text → Text
  pub lower : Text → Text

abbrev pub max_urls : ℕ
max_urls = 5000

abbrev pub max_children : ℕ
max_children = 3

abbrev pub max_depth : ℕ
max_depth = 2

abbrev pub max_sitemap_docs : ℕ
max_sitemap_docs = 4

-- `EXCLUDE_CHILD_TOKENS`
abbrev pub exclude_child_tokens : List Text
exclude_child_tokens =
    txt "product"
    ∷ (txt "products"
        ∷ (txt "post"
            ∷ (txt "posts"
                ∷ (txt "blog"
                    ∷ (txt "news"
                        ∷ (txt "image"
                            ∷ (txt "images"
                                ∷ (txt "video"
                                    ∷ (txt "videos"
                                        ∷ (txt "category"
                                            ∷ (txt "categories"
                                                ∷ (txt "tag"
                                                    ∷ (txt "tags"
                                                        ∷ (txt "author"
                                                            ∷ (txt "authors" ∷ [])))))))))))))))

-- The parts of a text between the characters that pass a test, from an open part on.
unfoldable pub split_at : (ℕ → Bool) → (current : Text) → Text → List Text
split_at p current [] = current ∷ []
split_at p current (c ∷ s) =
    let behind = current ∷ split_at p [] s in
    let open_part = split_at p (current ++ (c ∷ [])) s in if p c then behind else open_part

abbrev pub is_full : Text → Bool
is_full [] = false
is_full (_ ∷ _) = true

-- `segments`
unfoldable pub segments : Text → List Text
unfolding split_at
segments path = select is_full (split_at (λ c. c == 47) [] path)

-- `tokens` of app/pipeline/discovery/score.py: the parts between dashes and underscores.
unfoldable pub segment_tokens : Text → List Text
unfolding split_at
segment_tokens segment = select is_full (split_at (λ c. c == 45 || c == 95) [] segment)

unfoldable pub last_of : List Text → Option Text
last_of [] = none
last_of (t ∷ []) = some t
last_of (t ∷ (u ∷ ts)) = last_of (u ∷ ts)

unfoldable pub tokens_of_all : List Text → List Text
unfolding segment_tokens
tokens_of_all [] = []
tokens_of_all (chunk ∷ chunks) = segment_tokens chunk ++ tokens_of_all chunks

-- `_last_segment_tokens`
unfoldable pub last_segment_tokens : World → Text → List Text
unfolding last_of segments tokens_of_all split_at
last_segment_tokens world url = elim (last_of (segments (world.path_of url))) [
  | none ↦ []
  | some last ↦ tokens_of_all (split_at (λ c. c == 46) [] (world.lower last))
]

-- `child_is_excluded`
unfoldable pub child_is_excluded : World → Text → Bool
unfolding last_segment_tokens
child_is_excluded world url =
    any (λ t. mem_text t exclude_child_tokens) (last_segment_tokens world url)

-- `order_children`
unfoldable pub order_children : World → List Text → List Text
unfolding child_is_excluded last_segment_tokens
order_children world urls =
    let keep = select (λ u. not (child_is_excluded world u)) urls in
    let preferred = select (λ u. mem_text (txt "page") (last_segment_tokens world u)) keep in
    preferred ++ select (λ u. not (mem_text u preferred)) keep

-- `extract_urls`
unfoldable pub extract_urls : World → Text → List Text × Bool
extract_urls world text = elim (world.locs text) [
  | [] ↦ (world.lines text, false)
  | u ∷ us ↦ (u ∷ us, world.is_index text)
]

-- The variables of the loop; `seen_docs` are the sitemaps that were fetched.
pub record Crawl : Type 0 where
  pub texts : List (Text × ℕ)
  pub queue : List (Text × ℕ)
  pub seen_docs : List Text
  pub budget : ℕ
  pub pages : List Text

pub data Turn : Type 0 where
  finished : Crawl → Turn
  going : Crawl → Turn

-- A URL of the site is one page more.
unfoldable pub with_page : World → Crawl → Text → Crawl
with_page world c u = record c {
  pages = if world.same_site u then c.pages ++ (u ∷ []) else c.pages;
}

-- The loop over a sitemap's URLs, which returns when there are enough pages.
unfoldable pub add_pages : World → Crawl → List Text → Turn
unfolding with_page
add_pages world c [] = going c
add_pages world c (u ∷ urls) =
    let rest = add_pages world (with_page world c u) urls in
    if leb max_urls (length (with_page world c u).pages)
    then finished (with_page world c u)
    else rest

-- The children of an index, to be read later.
unfoldable pub add_children : World → Crawl → (depth : ℕ) → List Text → Crawl
unfolding order_children
add_children world c depth urls =
    let children = take max_children (order_children world (select world.same_site urls)) in
    record c { queue = c.queue ++ map (λ u. (u, suc depth)) children }

unfoldable pub read_extracted : World → Crawl → (depth : ℕ) → List Text × Bool → Turn
unfolding add_children add_pages
read_extracted world c depth (urls, true) =
    if leb max_depth depth then going c else going (add_children world c depth urls)
read_extracted world c depth (urls, false) = add_pages world c urls

-- The part of the loop's body from a sitemap's text on.
unfoldable pub read_text : World → Crawl → (depth : ℕ) → Text → Turn
unfolding extract_urls read_extracted
read_text world c depth text = read_extracted world c depth (extract_urls world text)

unfoldable pub read_fetched : World → Crawl → (depth : ℕ) → Text → Turn
unfolding read_text
read_fetched world c depth [] = going c
read_fetched world c depth (x ∷ text) = read_text world c depth (x ∷ text)

-- A URL of the queue, which is fetched unless it was already or is another site's.
unfoldable pub read_url : World → Crawl → (url : Text) → (depth : ℕ) → Turn
unfolding read_fetched
read_url world c url depth =
    if mem_text url c.seen_docs || not (world.same_site url)
    then going c
    else read_fetched world (record c { seen_docs = url ∷ c.seen_docs; budget = c.budget - 1 })
        depth (world.fetch url)

unfoldable pub next_url : World → Crawl → List (Text × ℕ) → Turn
unfolding read_url
next_url world c [] = finished c
next_url world c ((url, depth) ∷ queue) =
    if c.budget == 0 then finished c else read_url world (record c { queue = queue }) url depth

unfoldable pub next_text : World → Crawl → List (Text × ℕ) → Turn
unfolding read_text next_url
next_text world c [] = next_url world c c.queue
next_text world c ((text, depth) ∷ texts) = read_text world (record c { texts = texts }) depth text

-- A round of the loop.
unfoldable pub turn : World → Crawl → Turn
unfolding next_text
turn world c = next_text world c c.texts

-- The loop, or none when the fuel is used up.
unfoldable pub collect_from : (fuel : ℕ) → World → Crawl → Option Crawl
unfolding turn
collect_from zero world c = none
collect_from (suc fuel) world c = elim (turn world c) [
  | finished d ↦ some d
  | going d ↦ collect_from fuel world d
]

-- The variables at the start; blank seed texts are left out.
unfoldable pub first_crawl : (seed_texts seed_urls : List Text) → Crawl
first_crawl seed_texts seed_urls = record {
  texts = map (λ t. (t, 0)) (select is_full seed_texts);
  queue = map (λ u. (u, 0)) seed_urls;
  seen_docs = [];
  budget = max_sitemap_docs;
  pages = [];
}

-- What is left to be done: each index that is read adds at most three URLs.
abbrev pub work_left : Crawl → ℕ
work_left c = 4 * length c.texts + 4 * c.budget + length c.queue

-- `collect_sitemap_urls`, with the sitemaps that it fetched.
unfoldable pub collect_sitemap_urls : World → (seed_texts seed_urls : List Text) → Option Crawl
unfolding collect_from first_crawl
collect_sitemap_urls world seed_texts seed_urls =
    let c = first_crawl seed_texts seed_urls in collect_from (suc (work_left c)) world c
