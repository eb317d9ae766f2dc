-- ===== src/Queue/Claim.antt =====
-- `claim` of app/queue.py, with its two statements `_PICK_JOBS` and `_CLAIM_FROM_JOB`.
use email_extractor.Common.{
  ℕ, ◌+◌, Bool, true, false, not, ◌&&◌, ◌||◌, Option, none, some, List, [], ◌∷◌, ltb, leb, ◌==◌,
  if◌then◌else◌, String, Text, text_eq, any, select, take, count_if, is_some, or_else,
}
use email_extractor.Queue.State.{
  JobStatus, RowState, Token, Job, Row, Tables, is_running, is_queued, is_active, is_queued_job,
  is_at, update,
}

-- `Claim`
pub record Claim : Type 0 where
  pub job_id : ℕ
  pub domain : Text
  pub attempts : ℕ
  pub token : Token
  pub not_before : Option ℕ

-- Owners are told apart by `coalesce(owner_id::text, 'admin')`.
abbrev pub same_owner : Option ℕ → Option ℕ → Bool
same_owner none none = true
same_owner (some a) (some b) = a == b
same_owner _ _ = false

-- `state = 'queued' AND available_at <= now()`
abbrev pub is_available : ℕ → Row → Bool
is_available now r = is_queued r.state && leb r.available_at now

-- The rows of a job that are running: `running.n`.
unfoldable pub job_load : Tables → ℕ → ℕ
job_load db job_id = count_if (λ r. is_running r.state && r.job_id == job_id) db.rows

-- The running rows of all jobs of an owner: `owners.n`.
unfoldable pub owner_load : Tables → Option ℕ → ℕ
owner_load db owner =
    count_if
      (λ r.
        is_running r.state && any (λ j. j.id == r.job_id && same_owner j.owner_id owner) db.jobs)
      db.rows

-- The jobs that `_PICK_JOBS` selects from.
unfoldable pub is_eligible : ℕ → Tables → Job → Bool
is_eligible now db j =
    is_active j.status && any (λ r. r.job_id == j.id && is_available now r) db.rows

-- `ORDER BY coalesce(o.n, 0), coalesce(r.n, 0), j.created_at`: `a` may stand before `b`.
unfoldable pub goes_before : Tables → Job → Job → Bool
goes_before db a b =
    let oa = owner_load db a.owner_id in
    let ob = owner_load db b.owner_id in
    let ra = job_load db a.id in
    let rb = job_load db b.id in
    ltb oa ob || (oa == ob && (ltb ra rb || (ra == rb && leb a.created_at b.created_at)))

unfoldable pub insert_job : Tables → Job → List Job → List Job
insert_job db j [] = j ∷ []
insert_job db j (k ∷ ks) =
    let rest = insert_job db j ks in if goes_before db j k then j ∷ k ∷ ks else k ∷ rest

unfoldable pub sort_jobs : Tables → List Job → List Job
sort_jobs db [] = []
sort_jobs db (j ∷ js) = insert_job db j (sort_jobs db js)

-- `_PICK_JOBS`
unfoldable pub pick_jobs : ℕ → Tables → List Job
pick_jobs now db = take 5 (sort_jobs db (select (is_eligible now db) db.jobs))

-- `ORDER BY seq LIMIT 1`
unfoldable pub earlier : Row → Option Row → Option Row
earlier r none = some r
earlier r (some s) = if leb r.seq s.seq then some r else some s

unfoldable pub first_by_seq : List Row → Option Row
first_by_seq [] = none
first_by_seq (r ∷ rs) = earlier r (first_by_seq rs)

-- The subquery `pick`; `locked` tells the rows that another transaction holds, which
-- `SKIP LOCKED` passes over.
unfoldable pub pick_row : ℕ → (Row → Bool) → ℕ → Tables → Option Row
pick_row now locked job_id db =
    first_by_seq (select (λ r. r.job_id == job_id && is_available now r && not (locked r)) db.rows)

-- What `_CLAIM_FROM_JOB` writes.
unfoldable pub claim_row : ℕ → Token → Row → Row
claim_row now tok r = record r {
  state = RowState.running;
  claimed_by = some tok;
  heartbeat_at = some now;
  attempts = r.attempts + 1;
}

-- `_CLAIM_FROM_JOB`
unfoldable pub claim_from_job : ℕ → (Row → Bool) → Token → ℕ → Tables → Option Row × Tables
claim_from_job now locked tok job_id db = elim (pick_row now locked job_id db) [
  | none ↦ (none, db)
  | some r ↦ (
    some (claim_row now tok r),
    record db { rows = update (is_at r.job_id r.domain) (claim_row now tok) db.rows },
  )
]

-- The update of `jobs` that follows a claim.
unfoldable pub start_job : ℕ → ℕ → Tables → Tables
start_job now job_id db = record db {
  jobs =
      update (λ j. j.id == job_id && (is_queued_job j.status || not (is_some j.started_at)))
        (λ j. record j {
          status = if is_queued_job j.status then JobStatus.running else j.status;
          started_at = some (or_else j.started_at now);
        })
        db.jobs;
}

-- The loop over the picked jobs. Each try makes a token; `serial` is the first one's random part,
-- and the later ones are told apart from it.
unfoldable pub try_jobs : ℕ → (Row → Bool) → String → ℕ → List Job → Tables → Option Claim × Tables
try_jobs now locked worker serial [] db = (none, db)
try_jobs now locked worker serial (j ∷ js) db =
    let tok : Token = record { worker = worker; serial = serial } in
    let (row, db') = claim_from_job now locked tok j.id db in
    elim row [
      | none ↦ try_jobs now locked worker (serial + 1) js db
      | some r ↦ (
        some (record {
          job_id = j.id;
          domain = r.domain;
          attempts = r.attempts;
          token = tok;
          not_before = r.requeued_at;
        }),
        start_job now j.id db',
      )
    ]

-- `claim`
unfoldable pub claim : ℕ → (Row → Bool) → String → ℕ → Tables → Option Claim × Tables
claim now locked worker serial db = try_jobs now locked worker serial (pick_jobs now db) db
