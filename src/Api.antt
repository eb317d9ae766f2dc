-- ===== src/Api.antt =====
-- The guards of app/main.py around a new job: `_create_job` with `_replay`. A fingerprint is a text, as
-- `_fingerprint` makes it.
pub mod Routes
pub mod Replaying
pub mod Limits
pub mod Owning
mod Tests
use email_extractor.Common.{
  ℕ, ◌+◌, Bool, true, false, not, ◌&&◌, ◌||◌, Option, none, some, is_some, List, [], ◌∷◌, ◌++◌, map,
  if◌then◌else◌, ◌==◌, leb, ltb, length, count_if, find_first, Text, txt, eq_text, mem_text,
  is_truthy,
}
use email_extractor.Input.{Library}
use email_extractor.Ingest.{ParsedFile}
use email_extractor.Ingest.Columns.{ColumnGuess}
use email_extractor.Ingest.Preview.{PreparedItem, chosen_column, prepare_items}
use email_extractor.Queue.Claim.{same_owner}
use email_extractor.Queue.State.{JobStatus, Job, Tables, is_active}
use email_extractor.Queue.Create.{create_job}
use email_extractor.Queue.Finish.{requeue_failed}
use email_extractor.Queue.Sweep.{is_unfinished, cancel_job, resume_job}

-- The codes of `ApiError` that these routes answer with.
pub data ApiError : Type 0 where
  unknown_column no_website_column too_many_rows no_rows validation_error : ApiError
  idempotency_conflict invalid_webhook_url job_limit_reached job_not_found : ApiError
  job_not_retryable job_not_paused job_already_finished : ApiError

-- `Principal`
pub record Principal : Type 0 where
  pub user_id : Option ℕ
  pub is_admin : Bool

-- `MAX_ITEMS_PER_JOB`
abbrev pub max_items_per_job : ℕ
max_items_per_job = 50000

-- `IDEMPOTENCY_KEY_MAX`
abbrev pub idempotency_key_max : ℕ
idempotency_key_max = 200

-- `max_active_jobs_per_user`
abbrev pub max_active_jobs : ℕ
max_active_jobs = 3

-- The columns of `jobs` that tell which request made a job.
pub record JobKey : Type 0 where
  pub owner_id : Option ℕ
  pub idempotency_key : Text
  pub fingerprint : Text
  pub job_id : ℕ

pub record Server : Type 0 where
  pub db : Tables
  pub keys : List JobKey

-- The items of an uploaded file, for the column that is asked for or guessed.
pub data Upload : Type 0 where
  refused_upload : ApiError → Upload
  ready : List PreparedItem → Upload

unfoldable pub ready_items : Option (List PreparedItem) → Upload
ready_items none = refused_upload no_website_column
ready_items (some items) = ready items

abbrev pub is_unknown : Option Text → List Text → Bool
is_unknown none headers = false
is_unknown (some []) headers = false
is_unknown (some (c ∷ s)) headers = not (mem_text (c ∷ s) headers)

-- The part of `_create_job` that prepares a file's items.
unfoldable pub prepare_upload : Library → ParsedFile → ColumnGuess → (column : Option Text) → Upload
unfolding ready_items
prepare_upload lib f guess column =
    if is_unknown column f.headers
    then refused_upload unknown_column
    else ready_items (prepare_items lib f guess column)

-- A request for a job; `webhook_ok` is what validate_webhook_url says at the time.
pub record JobRequest : Type 0 where
  pub who : Principal
  pub now : ℕ
  pub new_id : ℕ
  pub items : List (Option Text)
  pub fresh : Bool
  pub webhook_url : Option Text
  pub webhook_ok : Bool
  pub idempotency_key : Option Text
  pub fingerprint : Text

pub data Response : Type 0 where
  failed_with : ApiError → Response
  replayed : ℕ → Response
  created : ℕ → Response

-- `idempotency_key is not None and not (0 < len(idempotency_key) <= IDEMPOTENCY_KEY_MAX)`
unfoldable pub is_bad_key : Option Text → Bool
is_bad_key none = false
is_bad_key (some k) = not (ltb 0 (length k) && leb (length k) idempotency_key_max)

-- The guards before the lock.
unfoldable pub early_error : JobRequest → Option ApiError
unfolding is_bad_key
early_error r =
    if ltb max_items_per_job (length r.items)
    then some too_many_rows
    else if length r.items == 0
    then some no_rows
    else if is_bad_key r.idempotency_key
    then some validation_error
    else none

unfoldable pub is_key_of : Principal → Text → JobKey → Bool
is_key_of who key j = eq_text j.idempotency_key key && same_owner j.owner_id who.user_id

-- The answer for the job that already has the key, if any.
unfoldable pub answer_again : (fingerprint : Text) → Option JobKey → Option Response
answer_again fingerprint none = none
answer_again fingerprint (some j) =
    if is_truthy (some j.fingerprint) && not (eq_text j.fingerprint fingerprint)
    then some (failed_with idempotency_conflict)
    else some (replayed j.job_id)

-- `_replay`
unfoldable pub replay : Principal → (key fingerprint : Text) → List JobKey → Option Response
unfolding is_key_of answer_again
replay who key fingerprint keys = answer_again fingerprint (find_first (is_key_of who key) keys)

-- `Job.owner_id == who.user_id and Job.status in ACTIVE_STATUSES`
unfoldable pub is_unfinished_of : Option ℕ → Job → Bool
is_unfinished_of user j = same_owner j.owner_id user && is_unfinished j.status

unfoldable pub count_unfinished : Option ℕ → Tables → ℕ
unfolding is_unfinished_of
count_unfinished user db = count_if (is_unfinished_of user) db.jobs

-- The guards behind the replay.
unfoldable pub late_error : JobRequest → Tables → Option ApiError
unfolding count_unfinished
late_error r db =
    if is_some r.webhook_url && not r.webhook_ok
    then some invalid_webhook_url
    else if not r.who.is_admin && leb max_active_jobs (count_unfinished r.who.user_id db)
    then some job_limit_reached
    else none

-- The keys with those of a new job.
unfoldable pub keep_key : JobRequest → Option Text → List JobKey → List JobKey
keep_key r none keys = keys
keep_key r (some []) keys = keys
keep_key r (some (c ∷ k)) keys =
    keys
    ++ (record {
      owner_id = r.who.user_id;
      idempotency_key = c ∷ k;
      fingerprint = r.fingerprint;
      job_id = r.new_id;
    }
        ∷ [])

unfoldable pub add_job : JobRequest → Server → Response × Server
unfolding keep_key
add_job r s = (
  created r.new_id,
  record {
    db = create_job r.now r.new_id r.who.user_id r.fresh r.webhook_url r.items s.db;
    keys = keep_key r r.idempotency_key s.keys;
  },
)

unfoldable pub finish_request : JobRequest → Server → Option Response → Response × Server
unfolding late_error add_job
finish_request r s (some answer) = (answer, s)
finish_request r s none = elim (late_error r s.db) [
  | some e ↦ (failed_with e, s)
  | none ↦ add_job r s
]

-- `if idempotency_key:`
unfoldable pub replay_of : JobRequest → Server → Option Text → Option Response
unfolding replay
replay_of r s none = none
replay_of r s (some []) = none
replay_of r s (some (c ∷ k)) = replay r.who (c ∷ k) r.fingerprint s.keys

-- `_create_job`, once the items are prepared.
unfoldable pub post_job : JobRequest → Server → Response × Server
unfolding early_error finish_request replay_of
post_job r s = elim (early_error r) [
  | some e ↦ (failed_with e, s)
  | none ↦ finish_request r s (replay_of r s r.idempotency_key)
]
