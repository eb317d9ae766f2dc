-- ===== src/Pipeline/Sitemaps/Collected.antt =====
-- The collection ends, within its budgets and on the site itself.
use email_extractor.Common.{ℕ, ◌+◌, ◌≤◌, ◌<◌, ◌≡◌, true, length, All, Distinct}
use email_extractor.Pipeline.Sitemaps.{World, Crawl, Turn, finished, going, work_left}

module _ (world : World) where
  -- What holds of the variables; `n` is what may still be found.
  abbrev Keeps : ℕ → Crawl → Type 0
  Keeps n c =
      (length c.seen_docs + c.budget ≡ 4)
      × Distinct c.seen_docs
      × All (λ u. world.same_site u ≡ true) c.seen_docs
      × All (λ u. world.same_site u ≡ true) c.pages
      × (length c.pages ≤ n)

  -- A round keeps it, and leaves less to be done than `work`.
  abbrev GoesOn : ℕ → Turn → Type 0
  GoesOn work (finished c) = Keeps 5000 c
  GoesOn work (going c) = Keeps 4999 c × (work_left c < work)
