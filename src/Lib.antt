-- ===== src/Lib.antt =====
-- A verification library for email-extractor, which finds the contact address of each web domain of
-- an uploaded list. An API process (app/main.py, app/jobs.py) turns a list into a job with one row for
-- each domain; worker processes (app/worker.py) claim rows from a queue in Postgres (app/queue.py),
-- run the pipeline (app/pipeline) on each domain and write the result back; every fetch of the
-- pipeline passes a gate with a circuit breaker and a rate limit (app/ratelimit.py). The library
-- models the parts that these processes share or that decide what a domain's answer is.
--
-- Common      the names that the other modules share: native numbers, lists, dictionaries as
--             association lists, and Python's str as its code points (Text).
-- Schemas     app/schemas.py: DomainResult, its candidates and its literals.
-- Ratelimit   app/ratelimit.py. Ratelimit.Breaker is CircuitBreaker: `check`, `record_call` (its
--             `record`), `trip` and `reset` (its `_open` and `_close`), `refresh` (its `state`).
--             Ratelimit.Bucket is TokenBucket with `try_acquire` for one round of `acquire`, and
--             `bucket_script` for the Lua script of RedisTokenBucket. Ratelimit.Gate is FetchGate:
--             `enter` and `exit` are the slot's __aenter__ and __aexit__.
-- Queue       app/queue.py, with `create_job` of app/jobs.py and the job transitions of app/main.py.
--             Queue.State holds the tables of app/models.py; Claim, Locks, Finish, Sweep and Create
--             hold the operations, under the code's names. An operation takes the tables and gives
--             them back changed: it stands for a committed transaction, and the histories of
--             Queue.Consistency.Steps are sequences of them in any order. SQL's UPDATE ... WHERE is
--             `update`; a row that another transaction has locked, which SKIP LOCKED passes over,
--             is told by an argument of `claim`.
-- Worker      app/worker.py: `handle` is what is done with one claim. The pipeline's outcome and what
--             other processes do to the tables while it runs are arguments.
-- Pipeline    app/pipeline: Candidate (extract/emails.py: merge_pages), Judge (typesafe.py), Status
--             (status.py), Fetch (fetch.py), Rank (filter_rank.py), Discovery
--             (discovery/score.py: select), Scoring (discovery/score.py; Pages for robots.py and
--             discover_pages), Sitemaps (discovery/sitemap.py and collect_sitemap_urls), Parked
--             (parked.py), DnsCheck (dns_check.py) and Run (run.py).
-- Extract     app/pipeline/extract: Cloudflare (the decoding of protected addresses), and Blocks for
--             app/pipeline/htmlscan.py.
-- Input       app/pipeline/normalize.py: how an item becomes a web address, a domain or a reason to
--             refuse it.
-- Ingest      app/ingest.py, with the preparation of items in app/jobs.py: an upload's table, the
--             choice of its columns, and the preview.
-- Csv, Export app/jobs.py: the lines of a download and Python's csv reader for them; the columns of a
--             row, the guard against formulas, the cache of results while rows stream, and the counts.
-- Webhook     app/netguard.py and app/webhook.py: which addresses a webhook may reach, and delivery.
-- Api         app/main.py: the guards of a new job (`post_job` is `_create_job` once the items are
--             prepared) over the tables of Queue, and, in Api.Routes, those of the routes that retry,
--             resume and cancel a job.
--
-- Times are natural numbers (seconds in the queue, milliseconds in the rate limiter and the fetcher),
-- passed to the operations that read a clock. Fractions are whole numbers of a unit that makes them
-- exact: tokens are counted in 6,000,000ths, confidences in thousandths; the rounding of floats is
-- not modelled. Ids are numbers. Settings are constants at their defaults. Text is folded to lower case
-- on the ASCII letters only.
--
-- Loops are structural. The breaker's wait takes the list of its rounds, of which 61 are enough, as
-- each nap is at least half a second and the whole wait at most 30. The retry loops recur on the
-- delays or the attempts that are left. `_chunks` takes as fuel the number of the items, since each
-- slice has at least one. `iter_blocks` takes the length of the page and one more, since each turn
-- leaves at least one character behind; `collect_sitemap_urls` takes a number that its queue, its
-- budget and the texts of the robots files bound, and is proved to end with it.
--
-- Not modelled: HTML, XML, the resolver of DNS, HTTP, tldextract and idna, which are libraries' work, with the regular
-- expressions on page texts, and so the extraction of telephone numbers, social profiles and
-- structured data; the direct fetcher with its decoding and redirects; the reading of
-- requests, the listings and estimates of the API, authentication, users, provider keys and the
-- texts of errors; asyncio's scheduling, for which the order of steps and the points of cancellation
-- are arguments (in the worker's handler a cancellation strikes in the pipeline, not between the queue's
-- transactions before and behind it); the failure of Redis and of the database.
pub mod Common
pub mod Schemas
pub mod Ratelimit
pub mod Queue
pub mod Worker
pub mod Pipeline
pub mod Csv
pub mod Export
pub mod Extract
pub mod Input
pub mod Ingest
pub mod Webhook
pub mod Api
