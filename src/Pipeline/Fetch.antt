-- ===== src/Pipeline/Fetch.antt =====
-- app/pipeline/fetch.py: the classes of errors, what the answer of the Jina reader comes to, and the
-- retry loop. Times are milliseconds. Whether a page is a bot challenge is an argument
-- (`challenge`), as is what is left of a page when its scripts are stripped (`strip`).
use email_extractor.Common.{
  ℕ, zero, suc, ◌+◌, ◌*◌, Bool, true, false, not, ◌&&◌, ◌||◌, Option, none, some, List, [], ◌∷◌,
  ◌++◌, ltb, leb, ◌==◌, if◌then◌else◌, Text, txt, text_eq, take, length, or_else,
}
pub mod Jina
pub mod Retries

-- `ErrorClass`
pub data ErrorClass : Type 0 where
  transient permanent blocked provider_account bug : ErrorClass

-- `FetchError`, less its message and its status.
pub record FetchError : Type 0 where
  pub error_class : ErrorClass
  pub reason : Text
  pub retry_after : Option ℕ
  pub provider : Bool

-- `FetchError.retryable`
abbrev pub is_transient : ErrorClass → Bool
is_transient ErrorClass.transient = true
is_transient _ = false

abbrev pub is_retryable : FetchError → Bool
is_retryable e = is_transient e.error_class

-- `FetchResult`
pub record FetchResult : Type 0 where
  pub url : Text
  pub final_url : Text
  pub status : ℕ
  pub html : Text
  pub bytes : ℕ
  pub jina_tokens : Option ℕ

abbrev pub is_success : ℕ → Bool
is_success status = leb 200 status && ltb status 300

abbrev pub is_server_error : ℕ → Bool
is_server_error status = leb 500 status && leb status 599

-- `looks_blocked`
unfoldable pub looks_blocked : (challenge : Bool) → ℕ → Bool
looks_blocked challenge status = challenge || status == 403

-- `classify_site_status`; none is success.
unfoldable pub classify_site_status : (challenge : Bool) → ℕ → Option ErrorClass
classify_site_status challenge status =
    if is_success status
    then none
    else if (status == 403 || status == 503) && looks_blocked challenge status
    then some ErrorClass.blocked
    else if status == 429 || is_server_error status
    then some ErrorClass.transient
    else if status == 403
    then some ErrorClass.blocked
    else some ErrorClass.permanent

-- `classify_provider_status`; none is success.
unfoldable pub classify_provider_status : ℕ → Option ErrorClass
classify_provider_status status =
    if is_success status
    then none
    else if status == 401 || status == 402
    then some ErrorClass.provider_account
    else if status == 403
    then some ErrorClass.blocked
    else if status == 409 || status == 422
    then some ErrorClass.permanent
    else if status == 429 || is_server_error status
    then some ErrorClass.transient
    else some ErrorClass.permanent

-- What the body of a successful answer holds.
pub record PageData : Type 0 where
  pub html : Text
  pub http_status : ℕ
  pub url : Text
  pub tokens : Option ℕ

pub data Body : Type 0 where
  not_json no_object no_data : Body
  data_of : PageData → Body

-- An answer of r.jina.ai; `retry_after` is its parsed header.
pub record Reply : Type 0 where
  pub status : ℕ
  pub retry_after : Option ℕ
  pub body : Body

-- What one attempt comes to: a page, a refusal by the open breaker, an error, or the cancellation of the
-- task.
pub data Attempt : Type 0 where
  served : FetchResult → Attempt
  refused : Attempt
  raised : FetchError → Attempt
  cancelled : Attempt

abbrev pub error : ErrorClass → Text → Bool → FetchError
error error_class reason provider = record {
  error_class = error_class;
  reason = reason;
  retry_after = none;
  provider = provider;
}

-- The reason that goes with a class and a status of the provider.
unfoldable pub provider_reason : ErrorClass → ℕ → Text
provider_reason ErrorClass.provider_account status = txt "jina_account"
provider_reason ErrorClass.blocked status = txt "blocked"
provider_reason ErrorClass.permanent status =
    if status == 409
    then txt "page_too_large"
    else if status == 422
    then txt "not_html"
    else txt "homepage"
provider_reason _ status = txt "homepage"

-- An error status of the provider. On a 429 the code also slows the gate's bucket, with `penalize` of
-- `Ratelimit.Bucket`, which is no part of the attempt's outcome.
unfoldable pub provider_error : ErrorClass → Reply → FetchError
provider_error cls reply =
    if is_transient cls && reply.status == 429
    then record (error cls (txt "homepage") false) { retry_after = reply.retry_after }
    else error cls (provider_reason cls reply.status)
        (elim cls [ transient ↦ true | provider_account ↦ true | _ ↦ false ])

-- The page of a successful answer; `is_blank` tells a text of white space.
unfoldable pub jina_data :
    (challenge : Text → Bool)
    → (is_blank : Text → Bool) → (strip : Text → Text) → (cap : ℕ) → Text
    → PageData
    → Attempt
jina_data challenge is_blank strip cap url d =
    let status = if d.http_status == 0 then 200 else d.http_status in
    elim (classify_site_status (challenge d.html) status) [
      | some cls ↦
          raised (error cls (elim cls [ blocked ↦ txt "blocked" | _ ↦ txt "homepage" ]) false)
      | none ↦
          if is_blank d.html
          then raised (error ErrorClass.transient (txt "homepage") false)
          else if looks_blocked (challenge d.html) status
          then raised (error ErrorClass.blocked (txt "blocked") false)
          else served (record {
            url = url;
            final_url = elim d.url [ [] ↦ url | _ ∷ _ ↦ d.url ];
            status = status;
            html = take cap (strip d.html);
            bytes = length d.html;
            jina_tokens = d.tokens;
          })
    ]

-- `JinaFetcher.get_html`'s `go`; a body that is no object raises an AttributeError at `payload.get`, which
-- the retry loop takes for an internal error.
unfoldable pub jina_attempt :
    (challenge : Text → Bool)
    → (is_blank : Text → Bool) → (strip : Text → Text) → (cap : ℕ) → Text
    → Reply
    → Attempt
jina_attempt challenge is_blank strip cap url reply = elim (classify_provider_status reply.status) [
  | some cls ↦ raised (provider_error cls reply)
  | none ↦ elim reply.body [
    | not_json ↦ raised (error ErrorClass.transient (txt "homepage") true)
    | no_object ↦ raised (error ErrorClass.bug (txt "internal_error") false)
    | no_data ↦ raised (error ErrorClass.transient (txt "homepage") true)
    | data_of d ↦ jina_data challenge is_blank strip cap url d
  ]
]

-- The kinds of exceptions that `_exc_to_fetch_error` tells apart.
pub data Exc : Type 0 where
  too_many_redirects certificate connect_error pool_timeout other_http other : Exc

-- `_exc_to_fetch_error`; a connect timeout counts as `connect_error`.
unfoldable pub exc_to_fetch_error : (provider : Bool) → Exc → FetchError
exc_to_fetch_error provider too_many_redirects =
    error ErrorClass.permanent (txt "redirect_loop") false
exc_to_fetch_error provider certificate = error ErrorClass.permanent (txt "ssl_error") false
exc_to_fetch_error provider connect_error = error ErrorClass.transient (txt "homepage") provider
exc_to_fetch_error provider pool_timeout = error ErrorClass.transient (txt "homepage") provider
exc_to_fetch_error provider other_http = error ErrorClass.transient (txt "homepage") false
exc_to_fetch_error provider other = error ErrorClass.bug (txt "internal_error") false

-- `RETRY_DELAYS`
abbrev pub retry_delays : List ℕ
retry_delays = 1_000 ∷ 3_000 ∷ []

-- What a whole call does: how its last attempt ends, whether it is cancelled in the sleep behind it, how many attempts it made, what it reported to the
-- breaker, and how long it slept, where a sleep that is cancelled does not
-- count.
pub record Course : Type 0 where
  pub outcome : Attempt
  pub stopped : Bool
  pub attempts : ℕ
  pub reports : List Bool
  pub sleeps : List ℕ

-- `e.retry_after or jittered(delay)`
unfoldable pub pause_after : (jittered : ℕ → ℕ) → ℕ → FetchError → ℕ
pause_after jittered delay e = elim e.retry_after [
  | none ↦ jittered delay
  | some t ↦ if t == 0 then jittered delay else t
]

-- What is recorded with the breaker after an attempt.
unfoldable pub reported : (backed : Bool) → Attempt → List Bool
reported false a = []
reported true (served r) = true ∷ []
reported true refused = []
reported true cancelled = []
reported true (raised e) = not e.provider ∷ []

-- An attempt after which there is no other.
unfoldable pub last_attempt : (backed : Bool) → Attempt → Course
last_attempt backed a = record {
  outcome = a;
  stopped = false;
  attempts = 1;
  reports = reported backed a;
  sleeps = [];
}

-- An attempt after which the loop may go on, given what it does then, and whether the sleep before is
-- cancelled.
unfoldable pub attempt_then :
    (backed : Bool) → (jittered : ℕ → ℕ) → ℕ → (stopped : Bool) → Course → Attempt → Course
attempt_then backed jittered delay stopped rest (served r) = last_attempt backed (served r)
attempt_then backed jittered delay stopped rest refused = last_attempt backed refused
attempt_then backed jittered delay stopped rest cancelled = last_attempt backed cancelled
attempt_then backed jittered delay stopped rest (raised e) =
    if not (is_retryable e)
    then last_attempt backed (raised e)
    else if stopped
    then record (last_attempt backed (raised e)) { stopped = true }
    else record {
      outcome = rest.outcome;
      stopped = rest.stopped;
      attempts = suc rest.attempts;
      reports = reported backed (raised e) ++ rest.reports;
      sleeps = pause_after jittered delay e ∷ rest.sleeps;
    }

-- `_attempt_with_retries` from an attempt on, with the delays that are left.
unfoldable pub attempt_from :
    (backed : Bool) → (jittered : ℕ → ℕ) → (asleep : ℕ → Bool) → (ℕ → Attempt) → ℕ → List ℕ → Course
attempt_from backed jittered asleep fn k [] = last_attempt backed (fn k)
attempt_from backed jittered asleep fn k (delay ∷ later) =
    attempt_then backed jittered delay (asleep k)
      (attempt_from backed jittered asleep fn (suc k) later) (fn k)

-- `_attempt_with_retries`; `asleep` tells whether the task is cancelled in the sleep behind an attempt.
unfoldable pub attempt_with_retries :
    (backed : Bool) → (jittered : ℕ → ℕ) → (asleep : ℕ → Bool) → (ℕ → Attempt) → Course
attempt_with_retries backed jittered asleep fn =
    attempt_from backed jittered asleep fn 0 retry_delays
