-- ===== src/Api/Tests.antt =====
-- One person's requests on a small server.
use email_extractor.Common.{◌≡◌, refl, true, false, some, [], ◌∷◌, ◌≤◌, arith, txt}
use email_extractor.Queue.Create.{new_job, create_job}
use email_extractor.Api.{
  job_not_found, Principal, Server, JobRequest, replayed, post_job, early_error, is_bad_key,
  finish_request, replay_of, replay, answer_again, late_error, count_unfinished, add_job, keep_key,
  max_active_jobs,
}
use email_extractor.Api.Routes.{retry_route, resume_route, cancel_route}
use email_extractor.Api.Replaying.{again, post_job-replays}
use email_extractor.Api.Limits.Actions.{post, cancel, resume, act_all, act_all-limited}
use email_extractor.Api.Owning.{routes-NotFound}

abbrev ann : Principal
ann = record { user_id = some 7; is_admin = false }

abbrev bob : Principal
bob = record { user_id = some 8; is_admin = false }

abbrev request : JobRequest
request = record {
  who = ann;
  now = 100;
  new_id = 1;
  items = some (txt "acme.com") ∷ [];
  fresh = false;
  webhook_url = some (txt "https://hook.example");
  webhook_ok = true;
  idempotency_key = some (txt "k1");
  fingerprint = txt "f";
}

abbrev empty : Server
empty = record { db = record { jobs = []; rows = []; sites = [] }; keys = [] }

abbrev served : Server
served = (add_job request empty).1

post_job-replays_example : post_job (again request 200 2 false) served ≡ (replayed 1, served)
unfolding post_job early_error is_bad_key finish_request replay_of replay answer_again late_error
    count_unfinished add_job keep_key
post_job-replays_example =
    post_job-replays request empty served 1 107 (txt "1") served [] 200 2 false refl refl refl

act_all-limited_example :
    count_unfinished
      (some 7)
      (act_all
        (post request ∷ cancel ann 150 1 ∷ post (again request 200 2 true) ∷ resume ann 300 2 ∷ [])
        empty).db
    ≤ max_active_jobs
unfolding count_unfinished
act_all-limited_example =
    act_all-limited (some 7)
      (post request ∷ cancel ann 150 1 ∷ post (again request 200 2 true) ∷ resume ann 300 2 ∷ [])
      empty refl (omega arith)

routes-NotFound_example :
    (retry_route bob 200 1 served.db ≡ (some job_not_found, served.db))
    × (resume_route bob 200 1 served.db ≡ (some job_not_found, served.db))
    × (cancel_route bob 200 1 served.db ≡ (some job_not_found, served.db))
unfolding add_job create_job new_job
routes-NotFound_example = routes-NotFound bob 200 1 served.db refl refl
