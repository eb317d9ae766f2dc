-- ===== src/Queue/Tests.antt =====
-- The properties of the queue at concrete tables: one job with a row that waits, and one whose only
-- row runs under a claim.
use email_extractor.Common.{
  ℕ, ◌++◌, ◌≡◌, refl, true, false, Option, none, some, List, [], ◌∷◌, arith, Text, txt, eq_text,
  mem_text,
}
use email_extractor.Schemas.{Status, blank, DomainResult}
use email_extractor.Queue.State.{
  JobStatus, RowState, Stage, Token, dumped, Job, Row, Site, Tables, update,
}
use email_extractor.Queue.Claim.{
  Claim, is_eligible, claim, pick_jobs, sort_jobs, insert_job, goes_before, try_jobs,
  claim_from_job, pick_row, first_by_seq, earlier, claim_row, start_job,
}
use email_extractor.Queue.Locks.{
  insert_site, unlock_domain, failed_status, lock_domain, cached_result,
}
use email_extractor.Queue.Finish.{
  finish, requeue_failed, retried_row, is_retryable_row, is_retryable_payload,
}
use email_extractor.Queue.Sweep.{heartbeat}
use email_extractor.Queue.Consistency.{IsConsistent}
use email_extractor.Queue.Consistency.Steps.{
  here, next, claims, beats, locks, unlocks, Reach-IsConsistent,
}
use email_extractor.Queue.Ownership.{finish-once}
use email_extractor.Queue.Exclusion.Histories.{nothing, then_step, lock_domain-exclusive}
use email_extractor.Queue.Fairness.{IsServed, unlocked_rows, claim-fair}
use email_extractor.Queue.Cache.{cached_result-retried}
use email_extractor.Queue.Create.{unique_domains, number_rows, create_job}
use email_extractor.Queue.Create.Numbering.{create_job-rows}

abbrev pub acme : Text
acme = txt "acme.com"

abbrev pub tok : Token
tok = record { worker = "w1"; serial = 7 }

abbrev pub job : ℕ → Job
job id = record {
  id = id;
  owner_id = none;
  status = JobStatus.running;
  fresh = false;
  created_at = 100;
  started_at = some 120;
  finished_at = none;
  pause_reason = none;
  paused_at = none;
  paused_seconds = 0;
  done_count = 0;
  webhook_url = some (txt "https://hook");
}

abbrev pub row : ℕ → RowState → Option Token → Row
row job_id state claimed_by = record {
  job_id = job_id;
  domain = acme;
  seq = 0;
  state = state;
  attempts = 1;
  available_at = 100;
  claimed_by = claimed_by;
  heartbeat_at = none;
  finished_at = none;
  requeued_at = none;
  from_cache = false;
  jina_tokens = 0;
  status = none;
  result = none;
  needs_review = false;
  typesafe_called = false;
  has_phone = false;
  has_form = false;
  has_linkedin = false;
}

abbrev pub site : Site
site = record {
  domain = acme;
  stage = Stage.pending;
  status = some Status.fetch_failed;
  result = some (dumped (blank acme Status.fetch_failed));
  finished_at = some 150;
  attempts = 1;
  lock_owner = none;
  lock_until = none;
}

-- The tables.
abbrev pub tables : Tables
tables = record {
  jobs = job 1 ∷ job 2 ∷ [];
  rows = row 1 RowState.queued none ∷ row 2 RowState.running (some tok) ∷ [];
  sites = site ∷ [];
}

abbrev pub held : Claim
held = record { job_id = 2; domain = acme; attempts = 1; token = tok; not_before = none }

abbrev lost : Claim
lost = record { job_id = 1; domain = acme; attempts = 1; token = tok; not_before = none }

pub tables-IsConsistent : IsConsistent tables
tables-IsConsistent = record {
  sound = (
    record { held = refl; tried = λ e. cc },
    (record { held = refl; tried = λ e. omega arith }, tt),
  );
  closed = (λ e. cc, (λ e. cc, tt));
}

Reach-IsConsistent_example : IsConsistent (claim 200 unlocked_rows "w2" 1 tables).1
Reach-IsConsistent_example =
    Reach-IsConsistent (next here (claims 200 unlocked_rows "w2" 1)) tables-IsConsistent

abbrev pub answer : DomainResult
answer = blank acme Status.no_contact_info

finish-once_example :
    ((finish 300 held answer false true (finish 200 held answer false true tables).2).0 ≡ false)
    × ((finish 300 held answer false true (finish 200 held answer false true tables).2).2.rows
        ≡ (finish 200 held answer false true tables).2.rows)
finish-once_example = finish-once 200 300 held answer answer false true false true tables

abbrev rival : Claim
rival = record lost { token = record { worker = "w2"; serial = 9 } }

-- The lock's history: the holder's heartbeat, a rival's attempt, and the rival giving its own lock back.
lock_domain-exclusive_example :
    let locked = (lock_domain 200 held tables).1 in
    let u = unlock_domain rival (lock_domain 250 rival (heartbeat 240 (tok ∷ []) locked)).1 in
    lock_domain 330 rival u ≡ (false, u)
unfolding eq_text lock_domain insert_site
lock_domain-exclusive_example =
    lock_domain-exclusive 200 330 330 held rival tables _ (omega arith) refl
      (then_step
        (then_step (then_step nothing (beats 240 (tok ∷ [])) tt) (locks 250 rival) (omega arith))
        (unlocks rival) refl)
      refl (omega arith)

claim-fair_example :
    (j : Job) × (c : Claim) × ((claim 200 unlocked_rows "w2" 1 tables).0 ≡ some c)
    × (c.job_id ≡ j.id)
    × IsServed 200 tables j
unfolding is_eligible
claim-fair_example = claim-fair 200 tables "w2" 1 refl

-- A row that failed for a reason that may pass.
abbrev failed_row : Row
failed_row = record (row 1 RowState.done none) {
  status = some Status.fetch_failed;
  result =
      some (dumped (record (blank acme Status.fetch_failed) { error_reason = some (txt "dns") }));
}

abbrev failed_tables : Tables
failed_tables = record { jobs = job 1 ∷ []; rows = failed_row ∷ []; sites = site ∷ [] }

abbrev again : Claim
again = record {
  job_id = 1;
  domain = acme;
  attempts = 1;
  token = record { worker = "w2"; serial = 1 };
  not_before = some 200;
}

cached_result-retried_example :
    cached_result 500 failed_tables (job 1) again.domain again.not_before ≡ none
unfolding eq_text failed_status mem_text is_retryable_row is_retryable_payload requeue_failed
    retried_row update claim pick_jobs sort_jobs insert_job goes_before is_eligible try_jobs
    claim_from_job pick_row first_by_seq earlier claim_row start_job
cached_result-retried_example =
    cached_result-retried 200 1 150 300 500 1 unlocked_rows "w2" failed_tables failed_tables again
      (job 1) site (λ at. refl, tt) refl refl refl refl (omega arith) refl

abbrev inputs : List (Option Text)
inputs = some acme ∷ none ∷ some (txt "b.org") ∷ some acme ∷ []

create_job-rows_example :
    (create_job 300 3 none false none inputs tables).rows
    ≡ tables.rows ++ number_rows 300 3 0 (unique_domains inputs)
create_job-rows_example = create_job-rows 300 3 none false none inputs tables
