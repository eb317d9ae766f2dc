-- ===== src/Worker/Tests.antt =====
-- The properties of the worker at the queue's test tables.
use email_extractor.Common.{◌≡◌, ◌⊎◌, refl, true, false, some, Text, txt, eq_text}
use email_extractor.Queue.State.{Tables, update}
use email_extractor.Queue.Claim.{Claim}
use email_extractor.Queue.Locks.{
  cache_usable, floor_of, failed_status, cached_result, is_locked_by, unlocked,
}
use email_extractor.Queue.Finish.{is_claimed_by, finished_row}
use email_extractor.Queue.Sweep.{release_worker}
use email_extractor.Queue.Tests.{job, tables, held, answer}
use email_extractor.Worker.{finished, handle, too_many_attempts}
use email_extractor.Worker.Handling.{is_cancelled, IsReleased, handle-IsReleased}
use email_extractor.Worker.Announcing.{handle-gives_up}

abbrev reason : Text
reason = txt "jina_account"

abbrev quiet : Tables → Tables
quiet db = db

handle-IsReleased_example :
    let after = (handle 200 260 reason held (finished answer) quiet tables).1 in
    ((is_cancelled (finished answer) ≡ true) ⊎ IsReleased held after)
    × IsReleased held (release_worker 300 "w1" after)
unfolding eq_text
handle-IsReleased_example =
    handle-IsReleased 200 260 300 reason held (finished answer) quiet tables (job 2) refl refl

abbrev lost_claim : Claim
lost_claim = record held { token = record { worker = "w3"; serial = 1 } }

abbrev tired : Claim
tired = record held { attempts = 6; not_before = some 190 }

handle-gives_up_example :
    ((handle 200 260 reason tired (finished answer) quiet tables).1.rows
      ≡ update (is_claimed_by tired) (finished_row 200 (too_many_attempts tired) false) tables.rows)
    × ((handle 200 260 reason tired (finished answer) quiet tables).1.sites
        ≡ update (is_locked_by tired) unlocked tables.sites)
unfolding eq_text cached_result cache_usable floor_of failed_status
handle-gives_up_example =
    handle-gives_up 200 260 reason tired (finished answer) quiet tables (job 2) refl refl refl
