-- ===== src/Export/Counts.antt =====
-- `job_counts` of app/jobs.py: the three aggregates over a job's items and queue entries, and the
-- numbers that are reported. A rate is the pair of its numerator and its denominator.
use email_extractor.Common.{
  ℕ, ◌+◌, ◌*◌, ◌/◌, ◌%◌, ◌≤◌, ◌≡◌, refl, Bool, true, false, not, ◌&&◌, Option, none, some, List, [],
  ◌∷◌, arith, if◌then◌else◌, ◌==◌, ltb, count_if, select, is_some, or_else, Text, txt, text_eq,
  eq_text, eq_text_iff, get, put, get-put,
}
use email_extractor.Schemas.{Status}
use email_extractor.Queue.State.{RowState, is_done, is_running, is_queued, Row}
use email_extractor.Export.{status_text}
use email_extractor.Export.Stream.{Item}

abbrev pub of_job : ℕ → Row → Bool
of_job job_id r = r.job_id == job_id

-- `state = 'done' AND status = ...`
abbrev pub is_done_as : Text → Row → Bool
is_done_as name r =
    is_done r.state && elim r.status [ none ↦ false | some s ↦ eq_text (status_text s) name ]

abbrev pub is_unnamed : Row → Bool
is_unnamed r = is_done r.state && not (is_some r.status)

unfoldable pub sum_tokens : List Row → ℕ
sum_tokens [] = 0
sum_tokens (r ∷ rows) = r.jina_tokens + sum_tokens rows

-- `_BY_STATUS`: a count for each status of a finished row, NULL left out.
unfoldable pub tally : Option Status → RowState → List (Text × ℕ) → List (Text × ℕ)
tally (some s) RowState.done counts =
    put (status_text s) (or_else (get (status_text s) counts) 0 + 1) counts
tally _ _ counts = counts

unfoldable pub by_status : List Row → List (Text × ℕ)
unfolding tally
by_status [] = []
by_status (r ∷ rows) = tally r.status r.state (by_status rows)

-- `round(tokens / fetched)`, which rounds a half to the even neighbour; 0 where nothing was fetched.
unfoldable pub rounded : (tokens fetched : ℕ) → ℕ
rounded tokens fetched =
    if fetched == 0
    then 0
    else if ltb (tokens % fetched * 2) fetched
    then tokens / fetched
    else if ltb fetched (tokens % fetched * 2)
    then tokens / fetched + 1
    else tokens / fetched + tokens / fetched % 2

pub record Counts : Type 0 where
  pub total : ℕ
  pub invalid_rows : ℕ
  pub empty_rows : ℕ
  pub by_status : List (Text × ℕ)
  pub needs_review : ℕ
  pub typesafe_calls : ℕ
  pub tokens_per_domain : ℕ
  pub phones : ℕ
  pub contact_forms : ℕ
  pub linkedin : ℕ
  pub unique_domains : ℕ
  pub done : ℕ
  pub running : ℕ
  pub retrying : ℕ
  pub failed : ℕ
  pub found : ℕ
  pub cached : ℕ
  pub jina_tokens : ℕ
  pub hit_rate : ℕ × ℕ

abbrev pub is_fetched : Row → Bool
is_fetched r = is_done r.state && (not r.from_cache && ltb 0 r.jina_tokens)

abbrev pub is_empty_item : Item → Bool
is_empty_item i = elim i.reason [ none ↦ false | some reason ↦ eq_text reason (txt "empty") ]

-- What is counted over the job's own rows and items.
unfoldable pub count_rows : List Item → List Row → Counts
unfolding by_status rounded sum_tokens
count_rows items rows =
    let done = count_if (λ (r : Row). is_done r.state) rows in
    let found = count_if (is_done_as (txt "found")) rows in
    record {
      total = count_if (λ (i : Item). true) items;
      invalid_rows = count_if (λ (i : Item). i.is_invalid) items;
      empty_rows = count_if is_empty_item items;
      by_status = by_status rows;
      needs_review = count_if (λ (r : Row). r.needs_review) rows;
      typesafe_calls = count_if (λ (r : Row). r.typesafe_called) rows;
      tokens_per_domain = rounded (sum_tokens rows) (count_if is_fetched rows);
      phones = count_if (λ (r : Row). r.has_phone) rows;
      contact_forms = count_if (λ (r : Row). r.has_form) rows;
      linkedin = count_if (λ (r : Row). r.has_linkedin) rows;
      unique_domains = count_if (λ (r : Row). true) rows;
      done = done;
      running = count_if (λ (r : Row). is_running r.state) rows;
      retrying = count_if (λ (r : Row). is_queued r.state && ltb 0 r.attempts) rows;
      failed = count_if (is_done_as (txt "fetch_failed")) rows;
      found = found;
      cached = count_if (λ (r : Row). r.from_cache) rows;
      jina_tokens = sum_tokens rows;
      hit_rate = if done == 0 then (0, 1) else (found, done);
    }

-- `job_counts`: each of its statements reads what is committed when it runs, the last two the rows
-- `counted` and, later, `grouped`.
unfoldable pub job_counts : ℕ → List Item → (counted grouped : List Row) → Counts
unfolding count_rows
job_counts job_id items counted grouped =
    record (count_rows items (select (of_job job_id) counted)) {
      by_status = by_status (select (of_job job_id) grouped);
    }

unfoldable pub sum_counts : List (Text × ℕ) → ℕ
sum_counts [] = 0
sum_counts ((k, n) ∷ counts) = n + sum_counts counts

sum-put :
    (k : Text) (n : ℕ) (counts : List (Text × ℕ))
    → sum_counts (put k n counts) + or_else (get k counts) 0 ≡ sum_counts counts + n
unfolding sum_counts
sum-put k n [] = omega arith
sum-put k n ((j, m) ∷ counts) = ground (arith, sum-put k n counts)

sum-tally :
    (o : Option Status) (state : RowState) (counts : List (Text × ℕ))
    → sum_counts (tally o state counts) + (if is_done state && not (is_some o) then 1 else 0)
      ≡ (if is_done state then 1 else 0) + sum_counts counts
unfolding tally
sum-tally (some s) RowState.done counts =
    omega (arith, sum-put (status_text s) (or_else (get (status_text s) counts) 0 + 1) counts)
sum-tally none RowState.done counts = omega arith
sum-tally none RowState.queued counts = omega arith
sum-tally none RowState.running counts = omega arith
sum-tally (some s) RowState.queued counts = omega arith
sum-tally (some s) RowState.running counts = omega arith

sum-by_status :
    (rows : List Row)
    → sum_counts (by_status rows) + count_if is_unnamed rows
      ≡ count_if (λ (r : Row). is_done r.state) rows
unfolding by_status sum_counts
sum-by_status [] = refl
sum-by_status (r ∷ rows) =
    omega (arith, sum-tally r.status r.state (by_status rows), sum-by_status rows)

get-tally :
    (name : Text) (o : Option Status) (state : RowState) (counts : List (Text × ℕ))
    → or_else (get name (tally o state counts)) 0
      ≡ (if is_done state && elim o [ none ↦ false | some s ↦ eq_text (status_text s) name ]
          then 1
          else 0)
        + or_else (get name counts) 0
unfolding tally
get-tally name (some s) RowState.done counts = ground (
  arith,
  get-put (status_text s) name (or_else (get (status_text s) counts) 0 + 1) counts,
  eq_text_iff (status_text s) name,
)
get-tally name none RowState.done counts = omega arith
get-tally name none RowState.queued counts = omega arith
get-tally name none RowState.running counts = omega arith
get-tally name (some s) RowState.queued counts = omega arith
get-tally name (some s) RowState.running counts = omega arith

get-by_status :
    (name : Text) (rows : List Row)
    → or_else (get name (by_status rows)) 0 ≡ count_if (is_done_as name) rows
unfolding by_status
get-by_status name [] = refl
get-by_status name (r ∷ rows) =
    omega (arith, get-tally name r.status r.state (by_status rows), get-by_status name rows)

done-le :
    (rows : List Row)
    → count_if (λ (r : Row). is_done r.state) rows
        + count_if (λ (r : Row). is_running r.state) rows
        + count_if (λ (r : Row). is_queued r.state && ltb 0 r.attempts) rows
      ≤ count_if (λ (r : Row). true) rows
done-le [] = omega arith
done-le (r ∷ rows) = ground (arith, done-le rows)

-- A status has one name.
named_once :
    (s : Status)
    → (if eq_text (status_text s) (txt "found") then 1 else 0)
        + (if eq_text (status_text s) (txt "fetch_failed") then 1 else 0)
      ≤ 1
unfolding eq_text
named_once Status.invalid_input = omega arith
named_once Status.fetch_failed = omega arith
named_once Status.parked_or_for_sale = omega arith
named_once Status.no_business_email = omega arith
named_once Status.found = omega arith
named_once Status.form_only = omega arith
named_once Status.no_contact_info = omega arith

found_once :
    (o : Option Status) (done : Bool)
    → (if done && elim o [ none ↦ false | some s ↦ eq_text (status_text s) (txt "found") ]
          then 1
          else 0)
        + (if done
              && elim o [ none ↦ false | some s ↦ eq_text (status_text s) (txt "fetch_failed") ]
            then 1
            else 0)
      ≤ (if done then 1 else 0)
found_once none false = omega arith
found_once none true = omega arith
found_once (some s) false = omega arith
found_once (some s) true = named_once s

found-le :
    (rows : List Row)
    → count_if (is_done_as (txt "found")) rows + count_if (is_done_as (txt "fetch_failed")) rows
      ≤ count_if (λ (r : Row). is_done r.state) rows
found-le [] = omega arith
found-le (r ∷ rows) = omega (arith, found_once r.status (is_done r.state), found-le rows)

-- The numbers of a job fit together, also when rows change between the statements: the counts by status
-- add up to the domains that are finished when they are read, but for those finished with no status, and
-- hold the numbers of found and failed domains at that time, which are the reported ones if no row has
-- changed since; and the reported finished, running and waiting domains that were tried already are no
-- more than all, and the found and the failed ones no more than the finished.
pub job_counts-add_up :
    (job_id : ℕ) (items : List Item) (counted grouped : List Row)
    → let c = job_counts job_id items counted grouped in
      let afterwards = job_counts job_id items grouped grouped in
      (sum_counts c.by_status + count_if is_unnamed (select (of_job job_id) grouped)
        ≡ afterwards.done)
      × (or_else (get (txt "found") c.by_status) 0 ≡ afterwards.found)
      × (or_else (get (txt "fetch_failed") c.by_status) 0 ≡ afterwards.failed)
      × (c.done + c.running + c.retrying ≤ c.unique_domains)
      × (c.found + c.failed ≤ c.done)
unfolding job_counts count_rows
job_counts-add_up job_id items counted grouped =
    let own = select (of_job job_id) grouped in
    (
      sum-by_status own,
      get-by_status (txt "found") own,
      get-by_status (txt "fetch_failed") own,
      done-le (select (of_job job_id) counted),
      found-le (select (of_job job_id) counted),
    )
