-- ===== src/Queue.antt =====
-- app/queue.py: the work queue in Postgres, with the operations of app/main.py and app/jobs.py that
-- change the same tables. Each committed transaction is one step on the tables.
pub mod State
pub mod Claim
pub mod Locks
pub mod Finish
pub mod Sweep
pub mod Create
pub mod Consistency
pub mod Ownership
pub mod Exclusion
pub mod Fairness
pub mod Cache
pub mod Tests
