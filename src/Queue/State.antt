-- ===== src/Queue/State.antt =====
-- The tables of app/models.py that the queue works on. Times are seconds. Only the columns that the
-- queue reads or writes are kept.
use email_extractor.Common.{
  ℕ, ◌≡◌, ◌↔◌, String, Bool, true, false, not, ◌&&◌, Option, none, some, List, [], ◌∷◌, arith, ◌==◌,
  ==_iff, if◌then◌else◌, string_eq, Text, text_eq, any,
}
use email_extractor.Schemas.{Status, DomainResult}

-- `JOB_STATUSES`
pub data JobStatus : Type 0 where
  queued running paused done failed cancelled : JobStatus

-- `job_domains.state`
pub data RowState : Type 0 where
  queued running done : RowState

-- The values of `DOMAIN_STAGES` that the queue writes.
pub data Stage : Type 0 where
  pending fetching done : Stage

-- `new_token`: the worker's id and the random part. The code joins them by a bar, and tells a
-- worker's tokens by that prefix.
pub record Token : Type 0 where
  pub worker : String
  pub serial : ℕ

abbrev pub same_token : Token → Token → Bool
same_token a b = string_eq.beq a.worker b.worker && a.serial == b.serial

pub same_token_iff : (a b : Token) → (same_token a b ≡ true) ↔ (a ≡ b)
same_token_iff a b = ground (arith, string_eq.beq_iff a.worker b.worker, ==_iff a.serial b.serial)

-- A stored result: one that this version reads back, or a document of an older shape.
pub data Payload : Type 0 where
  dumped : DomainResult → Payload
  stale : Payload

-- A row of `jobs`.
pub record Job : Type 0 where
  pub id : ℕ
  pub owner_id : Option ℕ
  pub status : JobStatus
  pub fresh : Bool
  pub created_at : ℕ
  pub started_at : Option ℕ
  pub finished_at : Option ℕ
  pub pause_reason : Option Text
  pub paused_at : Option ℕ
  pub paused_seconds : ℕ
  pub done_count : ℕ
  pub webhook_url : Option Text

-- A row of `job_domains`.
pub record Row : Type 0 where
  pub job_id : ℕ
  pub domain : Text
  pub seq : ℕ
  pub state : RowState
  pub attempts : ℕ
  pub available_at : ℕ
  pub claimed_by : Option Token
  pub heartbeat_at : Option ℕ
  pub finished_at : Option ℕ
  pub requeued_at : Option ℕ
  pub from_cache : Bool
  pub jina_tokens : ℕ
  pub status : Option Status
  pub result : Option Payload
  pub needs_review : Bool
  pub typesafe_called : Bool
  pub has_phone : Bool
  pub has_form : Bool
  pub has_linkedin : Bool

-- A row of `domains`, the shared cache and the domain locks.
pub record Site : Type 0 where
  pub domain : Text
  pub stage : Stage
  pub status : Option Status
  pub result : Option Payload
  pub finished_at : Option ℕ
  pub attempts : ℕ
  pub lock_owner : Option Token
  pub lock_until : Option ℕ

pub record Tables : Type 0 where
  pub jobs : List Job
  pub rows : List Row
  pub sites : List Site

abbrev pub is_running : RowState → Bool
is_running RowState.running = true
is_running _ = false

abbrev pub is_queued : RowState → Bool
is_queued RowState.queued = true
is_queued _ = false

abbrev pub is_done : RowState → Bool
is_done RowState.done = true
is_done _ = false

-- `status IN ('queued', 'running')`
abbrev pub is_active : JobStatus → Bool
is_active JobStatus.queued = true
is_active JobStatus.running = true
is_active _ = false

abbrev pub is_done_job : JobStatus → Bool
is_done_job JobStatus.done = true
is_done_job _ = false

abbrev pub is_queued_job : JobStatus → Bool
is_queued_job JobStatus.queued = true
is_queued_job _ = false

-- `claimed_by = :token`, which is not true of NULL.
abbrev pub held_by : Token → Option Token → Bool
held_by tok none = false
held_by tok (some t) = same_token t tok

-- `claimed_by LIKE :worker || '|%'`
abbrev pub held_by_worker : String → Option Token → Bool
held_by_worker worker none = false
held_by_worker worker (some t) = string_eq.beq t.worker worker

-- `claimed_by = ANY(:tokens)`
abbrev pub held_by_any : List Token → Option Token → Bool
held_by_any toks owner = any (λ tok. held_by tok owner) toks

-- The row of a job's domain.
abbrev pub is_at : ℕ → Text → Row → Bool
is_at job_id domain r = r.job_id == job_id && text_eq.beq r.domain domain

-- A job's row that is still to be worked on.
abbrev pub is_pending : ℕ → Row → Bool
is_pending job_id r = r.job_id == job_id && not (is_done r.state)

-- `UPDATE ... SET ... WHERE ...`
unfoldable pub update {ℓ} : {A : Type ℓ} → (A → Bool) → (A → A) → List A → List A
update p f [] = []
update p f (x ∷ xs) = (if p x then f x else x) ∷ update p f xs
