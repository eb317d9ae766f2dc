-- ===== src/Queue/Exclusion/Histories.antt =====
-- A domain's lock is kept through every transaction of the others, and through its own heartbeats.
use email_extractor.Common.{
  ℕ, ◌+◌, ◌≤◌, ◌≡◌, true, false, some, List, if◌then◌else◌, Text, text_eq, count_if,
}
use email_extractor.Queue.State.{Token, Site, Tables, held_by, held_by_any, held_by_worker}
use email_extractor.Queue.Claim.{Claim, claim, pick_jobs}
use email_extractor.Queue.Locks.{lease_s, lock_domain}
use email_extractor.Queue.Finish.{
  complete_if_finished, complete_finished_jobs, requeue_failed, requeue,
}
use email_extractor.Queue.Sweep.{transition, pause_active_jobs, reap, cancel_job, resume_paused_for}
use email_extractor.Queue.Create.{create_job, unique_domains}
use email_extractor.Queue.Consistency.Steps.{
  Step, claims, locks, unlocks, requeues, finishes, completes, completes_all, retries, pauses,
  beats, reaps, releases, cancels, transits, resumes, resumes_for, creates,
}
use email_extractor.Queue.Exclusion.{is_site, Holds, lock_domain-Holds, lock_domain-refused}
use email_extractor.Queue.Exclusion.Keeping.{
  Holds-insert_sites, heartbeat-Holds, lock_domain-keeps, unlock_domain-keeps, finish-keeps,
  release_worker-keeps, sites-try_jobs, sites-complete_each, sites-resume_job,
}

-- A transaction that leaves a claim's domain lock alone, as the others' transactions and the claim's own
-- heartbeats do: others use their own tokens, a worker that leaves is not the claim's, and nobody tries the
-- lock behind its lease's end.
abbrev pub Respects : (c : Claim) (until : ℕ) {db u : Tables} → Step db u → Type 0
Respects c until (locks now d) = now ≤ until
Respects c until (unlocks d) = held_by d.token (some c.token) ≡ false
Respects c until (finishes now d result from_cache write_cache) =
    held_by d.token (some c.token) ≡ false
Respects c until (releases now worker) = held_by_worker worker (some c.token) ≡ false
Respects c until _ = Unit

-- The end of the claim's lease behind a transaction: a heartbeat that lists the claim moves it.
abbrev pub lease_after : (c : Claim) (until : ℕ) {db u : Tables} → Step db u → ℕ
lease_after c until (beats now toks) =
    if held_by_any toks (some c.token) then now + lease_s else until
lease_after c until _ = until

-- A history of such transactions, with the lease's end at its start and at its end.
pub data Meanwhile (c : Claim) (start : ℕ) (db : Tables) : ℕ → Tables → Type 0 where
  nothing : Meanwhile c start db start db
  then_step :
      {until : ℕ} {u v : Tables}
      → Meanwhile c start db until u
      → (s : Step u v) → Respects c until s
      → Meanwhile c start db (lease_after c until s) v

-- Tables with the same cache.
same_sites :
    (domain : Text) (tok : Token) (until : ℕ) (xs ys : List Site)
    → ys ≡ xs
    → Holds domain tok until xs
    → Holds domain tok until ys
same_sites domain tok until xs ys same h = rw same h

Step-Holds :
    (c : Claim) (until : ℕ) {db u : Tables} (s : Step db u)
    → Respects c until s
    → Holds c.domain c.token until db.sites
    → Holds c.domain c.token (lease_after c until s) u.sites
unfolding claim requeue complete_if_finished complete_finished_jobs requeue_failed pause_active_jobs
    reap cancel_job transition resume_paused_for create_job
Step-Holds c until {db} (claims now locked worker serial) k h =
    same_sites c.domain c.token until db.sites _
      (sites-try_jobs now locked worker serial (pick_jobs now db) db) h
Step-Holds c until {db} (locks now d) k h = lock_domain-keeps now until c.domain c.token d db k h
Step-Holds c until {db} (unlocks d) k h = unlock_domain-keeps until c.domain c.token d db k h
Step-Holds c until (requeues now d delay counted) k h = h
Step-Holds c until {db} (finishes now d result from_cache write_cache) k h =
    finish-keeps now until c.domain c.token d result from_cache write_cache db k h
Step-Holds c until (completes now job_id) k h = h
Step-Holds c until (completes_all now) k h = h
Step-Holds c until (retries now job_id) k h = h
Step-Holds c until (pauses now reason) k h = h
Step-Holds c until {db} (beats now toks) k h = heartbeat-Holds now until c.domain c.token toks db h
Step-Holds c until (reaps now) k h = h
Step-Holds c until {db} (releases now worker) k h =
    release_worker-keeps now until c.domain c.token worker db k h
Step-Holds c until (cancels now job_id) k h = h
Step-Holds c until (transits now job_id allowed new reason live) k h = h
Step-Holds c until {db} (resumes now job_id) k h =
    same_sites c.domain c.token until db.sites _ (sites-resume_job now job_id db) h
Step-Holds c until {db} (resumes_for now reason) k h =
    same_sites c.domain c.token until db.sites _ (sites-complete_each now _ _) h
Step-Holds c until {db} (creates now id owner fresh webhook_url items f) k h =
    Holds-insert_sites c.domain c.token until (unique_domains items) db.sites h

Meanwhile-Holds :
    (c : Claim) (start : ℕ) (db : Tables) {until : ℕ} {u : Tables}
    → Meanwhile c start db until u
    → Holds c.domain c.token start db.sites
    → Holds c.domain c.token until u.sites
Meanwhile-Holds c start db nothing h = h
Meanwhile-Holds c start db (then_step {until = t} m s k) h =
    Step-Holds c t s k (Meanwhile-Holds c start db m h)

-- A claim that got a domain's lock keeps every other claim out until its lease ends, a lease behind the last
-- heartbeat that listed it: their attempts fail and change nothing. In between, all transactions of the
-- queue may happen in any order, as long as those that give locks back are of other claims and workers, and
-- attempts come before the lease's end. The table has at most one row for the domain.
pub lock_domain-exclusive :
    (now later until : ℕ) (c other : Claim) (db u : Tables)
    → count_if (is_site c.domain) db.sites ≤ 1
    → (lock_domain now c db).0 ≡ true
    → Meanwhile c (now + lease_s) (lock_domain now c db).1 until u
    → other.domain ≡ c.domain
    → later ≤ until
    → lock_domain later other u ≡ (false, u)
lock_domain-exclusive now later until c other db u one got history same soon =
    lock_domain-refused later until c.token other u soon (
      rw same (
        Meanwhile-Holds c (now + lease_s) (lock_domain now c db).1 history
          (lock_domain-Holds now c db one got)))
