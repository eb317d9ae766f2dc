-- ===== src/Queue/Locks.antt =====
-- The shared cache and the domain locks of app/queue.py.
use email_extractor.Common.{
  ℕ, ◌+◌, ◌*◌, max, Bool, true, false, not, ◌&&◌, ◌||◌, Option, none, some, List, [], ◌∷◌, ◌++◌,
  ltb, leb, if◌then◌else◌, Text, text_eq, any, find_first, is_some,
}
use email_extractor.Schemas.{Status, DomainResult, is_fetch_failed}
use email_extractor.Queue.State.{Stage, Payload, dumped, stale, Job, Site, Tables, held_by, update}
use email_extractor.Queue.Claim.{Claim}

-- `LEASE_S`, `HEARTBEAT_S`, `LOCK_BUSY_DELAY_S`, and `settings.cache_days` in seconds.
abbrev pub lease_s : ℕ
lease_s = 90

abbrev pub heartbeat_s : ℕ
heartbeat_s = 20

abbrev pub lock_busy_delay_s : ℕ
lock_busy_delay_s = 10

abbrev pub cache_s : ℕ
cache_s = 90 * 86_400

-- `max(job.created_at, not_before) if not_before else job.created_at`
unfoldable pub floor_of : Job → Option ℕ → ℕ
floor_of job none = job.created_at
floor_of job (some t) = max job.created_at t

unfoldable pub failed_status : Option Status → Bool
failed_status none = false
failed_status (some s) = is_fetch_failed s

-- `cache_usable`; a document that is missing is falsy.
unfoldable pub cache_usable : ℕ → Job → Option ℕ → Option Status → Option Payload → Option ℕ → Bool
cache_usable now job none status result not_before = false
cache_usable now job (some t) status none not_before = false
cache_usable now job (some t) status (some p) not_before =
    if leb (floor_of job not_before) t
    then true
    else if job.fresh || failed_status status
    then false
    else leb now (t + cache_s)

-- `DomainResult.model_validate`, which raises on an older shape.
unfoldable pub validate : Option Payload → Option DomainResult
validate none = none
validate (some stale) = none
validate (some (dumped r)) = some r

-- `cached_result`
unfoldable pub cached_result : ℕ → Tables → Job → Text → Option ℕ → Option DomainResult
cached_result now db job domain not_before =
    elim (find_first (λ s. text_eq.beq s.domain domain) db.sites) [
      | none ↦ none
      | some s ↦
          if cache_usable now job s.finished_at s.status s.result not_before
          then validate s.result
          else none
    ]

-- A new row of `domains`.
unfoldable pub new_site : Text → Site
new_site domain = record {
  domain = domain;
  stage = Stage.pending;
  status = none;
  result = none;
  finished_at = none;
  attempts = 0;
  lock_owner = none;
  lock_until = none;
}

-- `INSERT INTO domains ... ON CONFLICT DO NOTHING`
unfoldable pub insert_site : Text → List Site → List Site
insert_site domain sites =
    if any (λ s. text_eq.beq s.domain domain) sites then sites else sites ++ new_site domain ∷ []

-- `lock_until < now()`, which is not true of NULL.
abbrev pub has_expired : ℕ → Option ℕ → Bool
has_expired now none = false
has_expired now (some t) = ltb t now

-- `domain = :d AND (lock_owner IS NULL OR lock_until < now())`
abbrev pub is_lockable : ℕ → Text → Site → Bool
is_lockable now domain s =
    text_eq.beq s.domain domain && (not (is_some s.lock_owner) || has_expired now s.lock_until)

-- `lock_domain`
unfoldable pub lock_domain : ℕ → Claim → Tables → Bool × Tables
lock_domain now c db =
    let sites = insert_site c.domain db.sites in
    (
      any (is_lockable now c.domain) sites,
      record db {
        sites =
            update (is_lockable now c.domain)
              (λ s. record s {
                lock_owner = some c.token;
                lock_until = some (now + lease_s);
                stage = Stage.fetching;
              })
              sites;
      },
    )

-- What every statement that gives a lock back writes.
unfoldable pub unlocked : Site → Site
unlocked s = record s {
  lock_owner = none;
  lock_until = none;
  stage = if is_some s.finished_at then Stage.done else Stage.pending;
}

-- `domain = :d AND lock_owner = :token`
abbrev pub is_locked_by : Claim → Site → Bool
is_locked_by c s = text_eq.beq s.domain c.domain && held_by c.token s.lock_owner

-- `unlock_domain`
unfoldable pub unlock_domain : Claim → Tables → Tables
unlock_domain c db = record db { sites = update (is_locked_by c) unlocked db.sites }
