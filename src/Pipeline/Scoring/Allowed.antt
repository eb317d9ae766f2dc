-- ===== src/Pipeline/Scoring/Allowed.antt =====
-- The pages that are chosen may be fetched, and are within the limit.
use email_extractor.Common.{
  ℕ, zero, suc, ◌+◌, ◌≤◌, ◌≡◌, sym, ap, false, ◌&&◌, inl, inr, Bool-cases, Option-cases, Option,
  none, some, is_some, List, [], ◌∷◌, ◌++◌, map, arith, ◌==◌, ltb, leb, length, count_if, All,
  All-append, Text, txt, text_eq, get, put, or_else,
}
use email_extractor.Input.{registrable}
use email_extractor.Pipeline.Discovery.{
  ScoredUrl, tier_eq, keep_best, best_of, comes_first, insert_url, sort_urls, choose, select_urls,
}
use email_extractor.Pipeline.Discovery.Chosen.{select_urls-bounded}
use email_extractor.Pipeline.Scoring.{
  SiteReader, is_excluded, tier_for, raw_path, anchor_bonus, score_url, score_links, has_tier,
}
use email_extractor.Pipeline.Scoring.Pages.{
  bare_link, fixed_fallback_paths, choose_pages, sitemap_links, discover_from, discover_pages,
}

module _ (P : ScoredUrl → Type 0) where
  keep_best-All : (c : ScoredUrl) (bs : List ScoredUrl) → P c → All P bs → All P (keep_best c bs)
  unfolding keep_best
  keep_best-All c [] p h = (p, tt)
  keep_best-All c (b ∷ bs) p h = elim (Bool-cases (text_eq.beq b.url c.url)) [
    | inl t ↦ elim (Bool-cases (ltb b.score c.score)) [
      | inl u ↦ rw t (rw u (p, h.1))
      | inr v ↦ rw t (rw v h)
    ]
    | inr f ↦ rw f (h.0, keep_best-All c bs p h.1)
  ]

  best_of-All : (cs bs : List ScoredUrl) → All P cs → All P bs → All P (best_of cs bs)
  unfolding best_of
  best_of-All [] bs h k = k
  best_of-All (c ∷ cs) bs h k = best_of-All cs (keep_best c bs) h.1 (keep_best-All c bs h.0 k)

  insert_url-All : (c : ScoredUrl) (ds : List ScoredUrl) → P c → All P ds → All P (insert_url c ds)
  unfolding insert_url
  insert_url-All c [] p h = (p, tt)
  insert_url-All c (d ∷ ds) p h = elim (Bool-cases (comes_first c d)) [
    | inl t ↦ rw t (p, h)
    | inr f ↦ rw f (h.0, insert_url-All c ds p h.1)
  ]

  sort_urls-All : (cs : List ScoredUrl) → All P cs → All P (sort_urls cs)
  unfolding sort_urls
  sort_urls-All [] h = tt
  sort_urls-All (c ∷ cs) h = insert_url-All c (sort_urls cs) h.0 (sort_urls-All cs h.1)

  choose-All :
      (cap room : ℕ) (per_tier : List (Option Text × ℕ)) (cs : List ScoredUrl)
      → All P cs
      → All P (choose cap room per_tier cs)
  unfolding choose
  choose-All cap room per_tier [] h = tt
  choose-All cap zero per_tier (c ∷ cs) h = tt
  choose-All cap (suc room) per_tier (c ∷ cs) h =
      let n = or_else (get c.tier per_tier) 0 in
      elim (Bool-cases (leb cap n)) [
        | inl t ↦ rw t (choose-All cap (suc room) per_tier cs h.1)
        | inr f ↦ rw f (h.0, choose-All cap room (put c.tier (n + 1) per_tier) cs h.1)
      ]

  select_urls-All :
      (limit cap : ℕ) (cs : List ScoredUrl) → All P cs → All P (select_urls limit cap cs)
  unfolding select_urls
  select_urls-All limit cap cs h =
      choose-All cap limit [] (sort_urls (best_of cs []))
        (sort_urls-All (best_of cs []) (best_of-All cs [] h tt))

-- A page that may be fetched: its path is not excluded, and something speaks for it.
abbrev pub IsAllowed : SiteReader → ScoredUrl → Type 0
IsAllowed site p =
    (url : Text) × (p.fetch_url ≡ site.without_fragment url)
    × (is_excluded site (raw_path site url) ≡ false)
    × (1 ≤ p.score)

none-some : {p : ScoredUrl} → ◌≡◌ {A = Option ScoredUrl} none (some p) → ⊥
none-some e = ground arith

some_inj : {p q : ScoredUrl} → some p ≡ some q → p ≡ q
some_inj e = ground arith

module _ (site : SiteReader) where
  score_url-IsAllowed :
      (url anchor : Text) (p : ScoredUrl) → score_url site url anchor ≡ some p → IsAllowed site p
  unfolding score_url
  score_url-IsAllowed url anchor p e =
      let total = (tier_for site (raw_path site url)).1 + anchor_bonus site anchor in
      elim (Bool-cases (is_excluded site (raw_path site url))) [
        | inl t ↦ absurd (none-some (rw t at e))
        | inr f ↦ elim (Bool-cases (total == 0)) [
          | inl u ↦ absurd (none-some (rw (f, u) at e))
          | inr v ↦
              let same = some_inj (rw (f, v) at e) in
              (url, sym (ap (λ (q : ScoredUrl). q.fetch_url) same), f, rw (← same) (ground arith))
        ]
      ]

  score_links-IsAllowed :
      (links : List (Text × Text)) → All (IsAllowed site) (score_links site links)
  unfolding score_links
  score_links-IsAllowed [] = tt
  score_links-IsAllowed ((url, anchor) ∷ links) = elim (Option-cases (score_url site url anchor)) [
    | inl e ↦ rw (e, score_links) (score_links-IsAllowed links)
    | inr (p, e) ↦
        rw (e, score_links) (score_url-IsAllowed url anchor p e, score_links-IsAllowed links)
  ]

  -- Pages that are allowed, within the limit.
  abbrev AreFine : ℕ → List ScoredUrl → Type 0
  AreFine limit pages = (length pages ≤ limit) × All (IsAllowed site) pages

  select_urls-AreFine :
      (limit : ℕ) (cs : List ScoredUrl)
      → All (IsAllowed site) cs
      → AreFine limit (select_urls limit 2 cs)
  select_urls-AreFine limit cs h =
      ((select_urls-bounded limit 2 cs none).0, select_urls-All (IsAllowed site) limit 2 cs h)

  choose_pages-AreFine :
      (final_url : Text) (limit : ℕ) (cs : List ScoredUrl)
      → All (IsAllowed site) cs
      → AreFine limit (choose_pages site final_url limit cs)
  unfolding choose_pages
  choose_pages-AreFine final_url limit cs h =
      let fixed =
        score_links site
          (map (λ p. bare_link (site.origin_of final_url ++ p)) fixed_fallback_paths) in
      elim (Bool-cases
        (ltb (count_if (λ (c : ScoredUrl). is_some c.tier) (select_urls limit 2 cs)) 2)) [
          | inl t ↦ rw t (
              select_urls-AreFine limit (cs ++ fixed) (
                All-append (IsAllowed site) cs fixed h (
                  score_links-IsAllowed
                    (map (λ p. bare_link (site.origin_of final_url ++ p)) fixed_fallback_paths))))
          | inr f ↦ rw f (select_urls-AreFine limit cs h)
        ]

  discover_from-AreFine :
      (final_url : Text) (limit : ℕ) (linked found : List ScoredUrl)
      → All (IsAllowed site) linked
      → All (IsAllowed site) found
      → AreFine limit (discover_from site final_url limit linked found)
  unfolding discover_from
  discover_from-AreFine final_url limit linked found h k =
      elim (Bool-cases (has_tier linked (txt "contact") && has_tier linked (txt "about"))) [
        | inl t ↦ rw t (select_urls-AreFine limit linked h)
        | inr f ↦ rw f (
            choose_pages-AreFine final_url limit (linked ++ found)
              (All-append (IsAllowed site) linked found h k))
      ]

-- Whatever a site's pages, robots.txt and sitemaps hold, at most `limit` pages are chosen, none of them
-- under an excluded path, by the address that is fetched, and something speaks for each of them.
pub discover_pages-IsAllowed :
    (site : SiteReader) (final_url homepage_html robots_text root_sitemap_text : Text) (limit : ℕ)
    → let pages = discover_pages site final_url homepage_html robots_text root_sitemap_text limit in
      (length pages ≤ limit) × All (IsAllowed site) pages
unfolding discover_pages
discover_pages-IsAllowed site final_url homepage_html robots_text root_sitemap_text limit =
    let own = registrable site.library (site.host_of final_url) in
    let links = sitemap_links site own robots_text root_sitemap_text in
    discover_from-AreFine site final_url limit
      (score_links site (site.extract_links homepage_html final_url)) (score_links site links)
      (score_links-IsAllowed site (site.extract_links homepage_html final_url))
      (score_links-IsAllowed site links)
