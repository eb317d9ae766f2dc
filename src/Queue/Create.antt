-- ===== src/Queue/Create.antt =====
-- `create_job` of app/jobs.py, with `unique_domains` and `_chunks`.
pub mod Numbering
use email_extractor.Common.{
  ℕ, zero, suc, ◌+◌, Bool, true, false, Option, none, some, List, [], ◌∷◌, ◌++◌, if◌then◌else◌,
  Text, mem_text, length, take, drop,
}
use email_extractor.Queue.State.{JobStatus, RowState, Job, Row, Site, Tables}
use email_extractor.Queue.Locks.{insert_site}

-- The loop of `unique_domains`: an item with no domain, or an empty one, is passed over.
unfoldable pub unique_from : List Text → List (Option Text) → List Text
unique_from seen [] = []
unique_from seen (none ∷ items) = unique_from seen items
unique_from seen (some [] ∷ items) = unique_from seen items
unique_from seen (some (c ∷ d) ∷ items) =
    let later = unique_from ((c ∷ d) ∷ seen) items in
    let rest = unique_from seen items in if mem_text (c ∷ d) seen then rest else (c ∷ d) ∷ later

-- `unique_domains`
unfoldable pub unique_domains : List (Option Text) → List Text
unique_domains items = unique_from [] items

unfoldable pub chunks_from : ℕ → ℕ → List Text → List (List Text)
chunks_from zero n xs = []
chunks_from (suc fuel) n [] = []
chunks_from (suc fuel) n (x ∷ xs) = take n (x ∷ xs) ∷ chunks_from fuel n (drop n (x ∷ xs))

-- `_chunks`: slices of `n`, the last one shorter. The loop makes at most one slice for each item.
unfoldable pub chunks : ℕ → List Text → List (List Text)
chunks n xs = chunks_from (length xs) n xs

-- A new row of `job_domains`.
unfoldable pub new_row : (now job_id seq : ℕ) → Text → Row
new_row now job_id seq domain = record {
  job_id = job_id;
  domain = domain;
  seq = seq;
  state = RowState.queued;
  attempts = 0;
  available_at = now;
  claimed_by = none;
  heartbeat_at = none;
  finished_at = none;
  requeued_at = none;
  from_cache = false;
  jina_tokens = 0;
  status = none;
  result = none;
  needs_review = false;
  typesafe_called = false;
  has_phone = false;
  has_form = false;
  has_linkedin = false;
}

-- `enumerate(chunk)` from `seq` on.
unfoldable pub number_rows : (now job_id seq : ℕ) → List Text → List Row
number_rows now job_id seq [] = []
number_rows now job_id seq (d ∷ ds) = new_row now job_id seq d ∷ number_rows now job_id (seq + 1) ds

-- The loop over the chunks, which keeps the number of the next row.
unfoldable pub insert_rows : (now job_id seq : ℕ) → List (List Text) → List Row
insert_rows now job_id seq [] = []
insert_rows now job_id seq (chunk ∷ rest) =
    number_rows now job_id seq chunk ++ insert_rows now job_id (seq + length chunk) rest

unfoldable pub insert_sites : List Text → List Site → List Site
insert_sites [] sites = sites
insert_sites (d ∷ ds) sites = insert_sites ds (insert_site d sites)

abbrev pub is_empty : List Text → Bool
is_empty [] = true
is_empty (_ ∷ _) = false

-- The new row of `jobs`: a job with no valid row is done at once.
unfoldable pub new_job : (now id : ℕ) → Option ℕ → Bool → Option Text → List Text → Job
new_job now id owner fresh webhook_url domains = record {
  id = id;
  owner_id = owner;
  status = if is_empty domains then JobStatus.done else JobStatus.queued;
  fresh = fresh;
  created_at = now;
  started_at = none;
  finished_at = if is_empty domains then some now else none;
  pause_reason = none;
  paused_at = none;
  paused_seconds = 0;
  done_count = 0;
  webhook_url = webhook_url;
}

-- The part of `create_job` that the queue depends on.
unfoldable pub create_job :
    (now id : ℕ) → Option ℕ → Bool → Option Text → List (Option Text) → Tables → Tables
create_job now id owner fresh webhook_url items db =
    let domains = unique_domains items in
    record {
      jobs = db.jobs ++ new_job now id owner fresh webhook_url domains ∷ [];
      rows = db.rows ++ insert_rows now id 0 (chunks 1000 domains);
      sites = insert_sites domains db.sites;
    }
