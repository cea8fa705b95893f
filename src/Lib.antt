-- ===== src/Lib.antt =====
-- The creator-engagement collection service: its batch and author jobs, result cache, crawler, and
-- proxies.
--
-- A client posts a batch of links. BatchJobManager (app/services/job_service.py) checks the
-- request, stores a job through a repository (app/repositories/job_repository.py), runs it with
-- workers that call the engagement service (app/services/engagement_service.py), stores each result
-- with the job's counters, closes the job and posts a webhook. The engagement service keeps what it
-- collects in a cache that the collection routes share with the jobs. Its crawler
-- (app/crawlers/engagement.py) calls the handler of a platform, again where that can help, and then
-- a browser. Its requests (app/crawlers/http_client.py) borrow proxies from a pool
-- (app/crawlers/proxy_provider.py) and return each with its outcome. Failures go to an outbox of
-- alerts (app/services/status_alerts.py). A second kind of job collects the works of an author
-- (app/services/author_job_service.py, app/repositories/author_repository.py).
--
-- Files and code:
-- - Models: the job part of app/models/engagement.py, and StoredJob of job_repository.py.
-- - Platforms: traffic_platform of app/crawlers/platforms/source_catalog.py; Platforms/Sources: its
--   table of sources.
-- - Jobs/Memory: MemoryJobRepository, one function to a method. Its children treat the expiry
--   sweep, sequences of calls, creation by idempotency key, result pages, and restarts.
-- - Jobs/Sqlite: SQLiteJobRepository. Statements has one function to a method, on the rows of the
--   two tables; the others set it beside MemoryJobRepository: Sweep (what a database stores, and
--   the expiry sweep), Reads, Pages, Writes, Updates, Appends, Recovery, and Refinement, which runs
--   both through the same calls.
-- - Jobs/Mongo: MongoJobRepository on lists of documents; Writes has its writes, Queries its result
--   pages, requests and recovery; Keys and Expiring treat idempotency keys and the TTL monitor.
-- - Jobs/Service: the state of BatchJobManager, `_ensure_initialized`, `_validate_request`,
--   `_idempotent_response`, `_status_response`. Submission: submit, resume, resume_interrupted,
--   get_status, and cancel under its lock. Cancellation: the whole of cancel, with the end of the
--   task; Marked and Reported treat the job that it leaves and reports. Execution: `_execute_job`, `_collect_one`, `_bounded_result`,
--   `_send_webhook`, `_run_job`. Results: get_results and cursors.
-- - Engagement/Collected: the collection results and their caching times. Engagement/Cache: the
--   cache part of `_fetch_cached`: `find` up to the lookup of a running task, and `keep` from the
--   choice of the caching time. Engagement/Traffic: the limits that the constructor makes of the
--   traffic policies. Engagement/Merging: the running tasks and counted waiters of `_fetch_cached`;
--   Callers and Cancelled treat callers that join and leave, Reuse its composition with the cache.
-- - Proxies/Policy: app/crawlers/proxy_policy.py. Proxies/Pool: AsyncDailiProxyPool, its slots, the
--   sweep, `_eligible` and `_select_available_slot`. Pool/Leasing: the loop of
--   get_requests_proxies, cut where it leaves its lock, and `_replace_ineligible_idle_slot`.
--   Pool/Returns: on_success_for and on_failure_for. Choice, Capacity, Filling and Conservation
--   beside them treat the selection, the pool's room, its filling, and sequences of its calls.
-- - Proxies/Single: the provider that reuses one proxy (AsyncDailiProxyProvider). Proxies/Pace: the
--   rate limiters.
-- - Crawler: EngagementCrawler. Results: EngagementResult and the decisions on one. Protocol: the
--   parts of an attempt of `_run_protocol_handler`, and Protocol/Loop its loop; Attempts and
--   Reports beside it treat that loop, and what it counts and reports. Circuit: the circuit
--   breaker; Streaks its failures in a row. Browser: `_run_browser_fallback`. Responses:
--   `_get_response` and its like. Fetch: `_fetch` from the identified work on; Statistics and
--   Enrichment what it keeps.
-- - Client: CurlAsyncHttpClient, the state of a lease; Requests: `_request_unthrottled` under a
--   lease; Scopes: lease scopes, and requests outside them. Leases, Failed, Returned, Attempts
--   and Unscoped treat the proxies that they take and give back, and their outcomes; Paced the spaced requests of an account.
-- - Alerts/Status: app/core/status_errors.py. Alerts/Outbox: StatusAlerts, its record, result and
--   dispatch; Incidents, Steps and Dispatched treat one recorded error, any sequence of errors and
--   deliveries, and one dispatch.
-- - Authors/Works: the works of AuthorRepository and the result pages of AuthorJobManager; Pages
--   and Counting treat one page and the counts, Reading and Following a client with its cursors.
--   Authors/Batch: submit_batch; Answers, Gathered and Chunks treat its answers, counts and
--   chunked writes.
--   Authors/Retries: the retry loop of `_run`. Authors/Discovery: `_discover`, `_save_page` and
--   `_finish`; Complete treats what a complete job has.
-- - Base: Boolean tests, lists and dictionaries over the native numbers. The files Tests hold runs
--   on small inputs.
--
-- State is passed: a method takes the state and the instant its clock reads, and returns the state
-- it leaves. Raised exceptions are values. Code under a lock is one step; the workers of a job
-- interleave as a relation of takes and finishes (Jobs/Service/Execution/Progress). Instants are
-- microseconds, elapsed times milliseconds. Hashing, URL parsing, base64, JSON sizes and number
-- formats are parameters (`Library`). Python's integers are natural numbers here: every one that is
-- subtracted from stays at or above zero in the states that the theorems speak of. The JSON texts
-- of pydantic in the SQLite tables are a parameter (`Codec`) that reads back what it wrote; the
-- texts of instants are the instants. What the regular expressions of status_errors.py find in a
-- text is a parameter of the text (`Signs`), and so is `safe_reason` of the alerts. A handler's
-- calls, the browser's and the replies to requests are parameters too, each with the time it takes;
-- the loops over them are recursions on the attempts left. Cancelling a call takes no time, and
-- results are never shared between collections. A client that follows cursors reads at most `fuel`
-- pages; fuel above the number of results is enough, since every page but the last has a result.
-- The retry loop of author jobs has fuel too: two more than the shortest delays that fit in the
-- job's time are enough (Authors/Retries). The chunked writes of a batch have the number of jobs as
-- fuel, which each chunk brings down.
--
-- Not modelled: ALTER TABLE on old databases, and database files and connections; aclose of the
-- engagement service and the waiting at its traffic limits; the parsing of the supplier's answer;
-- the crawler's tokens and visitor sessions; the retry through a resolved proxy address; the cards
-- and the posting of alerts; author identities, and the submission and resuming of single author
-- jobs; the HTTP routes, configuration and scripts; BatchJobManager's aclose and the checks of its
-- constructor; logging. Page parsers, browsers, signers and sessions rest on outside formats.
mod Base
pub mod Alerts
pub mod Authors
pub mod Models
pub mod Platforms
pub mod Proxies
pub mod Jobs
pub mod Engagement
pub mod Client
pub mod Crawler
