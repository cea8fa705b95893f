-- ===== src/Jobs/Mongo/Writes.antt =====
-- The writes of MongoJobRepository (app/repositories/mongo_job_repository.py).
use creator_engagement_proje.Base.{
  ℕ, suc, ◌+◌, String, Bool, true, false, not, ◌&&◌, ◌||◌, Option, none, some, List, [], ◌∷◌, ◌++◌,
  map, if◌then◌else◌, ◌==◌, string_key, nat_key, any, select, contains, length,
}
use creator_engagement_proje.Models.{
  StoredJob, CreateJobRequest, JobItemRequest, JobItemResponse, JobStatus,
}
use creator_engagement_proje.Jobs.Memory.{seconds, truthy}
use creator_engagement_proje.Jobs.Mongo.{
  job_document, is_past, has_key, JobDocument, RequestDocument, ResultDocument, Collections,
  Insertion, inserted, duplicate_idempotency, duplicate_key, bulk_write_error, type_error,
  bson_date, bson_dates,
}

-- The deletions before a creation: what expired under its key.
unfoldable pub delete_expired : ℕ → Option String → Collections → Collections
delete_expired now none c = c
delete_expired now (some key) c =
    let ids = map (λ d. d.id) (select (λ d. has_key key d && is_past now d.expires_at) c.jobs) in
    if key == "" then c else record {
      jobs = select (λ d. not (contains ids d.id)) c.jobs;
      results = select (λ d. not (contains ids d.job_id)) c.results;
      requests = select (λ d. not (contains ids d.job_id)) c.requests;
    }

-- insert_many in order: the rest after a duplicate is not inserted.
unfoldable pub insert_requests :
    String → ℕ → Option ℕ → List JobItemRequest → List RequestDocument → Bool × List RequestDocument
insert_requests job_id sequence expires_at [] requests = (true, requests)
insert_requests job_id sequence expires_at (item ∷ items) requests =
    let rest = insert_requests job_id (suc sequence) expires_at items (
      requests
      ++ (record { job_id = job_id; sequence = sequence; item = item; expires_at = expires_at })
        ∷ []) in
    if any (λ d. d.job_id == job_id && d.sequence == sequence) requests
    then (false, requests)
    else rest

abbrev pub holds_key : Option String → JobDocument → Bool
holds_key none d = false
holds_key (some key) d = has_key key d

-- _id and uq_jobs_idempotency_key
unfoldable pub refuses_job : JobDocument → List JobDocument → Bool
refuses_job document jobs =
    any (λ d. d.id == document.id) jobs || any (holds_key document.idempotency_key) jobs

abbrev pub dated : String → Option ℕ → RequestDocument → RequestDocument
dated job_id expires_at d = if d.job_id == job_id then record d { expires_at = expires_at } else d

abbrev pub dated_result : String → Option ℕ → ResultDocument → ResultDocument
dated_result job_id expires_at d =
    if d.job_id == job_id then record d { expires_at = expires_at } else d

-- timedelta(days=1)
abbrev pub one_day : ℕ
one_day = seconds 86400

-- A BulkWriteError is no DuplicateKeyError: what was inserted before it stays until it expires.
unfoldable pub insert_job : ℕ → StoredJob → CreateJobRequest → Collections → Insertion × Collections
unfolding insert_requests refuses_job job_document
insert_job now job request c =
    let stored =
      insert_requests job.job_id 0 (some (bson_date (now + one_day))) request.items c.requests in
    if length request.items == 0
    then (type_error, c)
    else if not stored.0
    then (bulk_write_error, record c { requests = stored.1 })
    else if refuses_job (job_document job) c.jobs
    then (
      (if truthy job.idempotency_key
          then duplicate_idempotency job.idempotency_key
          else duplicate_key),
      record c { requests = select (λ d. not (d.job_id == job.job_id)) stored.1 },
    )
    else (
      inserted,
      record c {
        jobs = c.jobs ++ job_document job ∷ [];
        requests = map (dated job.job_id none) stored.1;
      },
    )

unfoldable pub create_job : ℕ → StoredJob → CreateJobRequest → Collections → Insertion × Collections
unfolding delete_expired insert_job
create_job now job request c = insert_job now job request (delete_expired now job.idempotency_key c)

abbrev pub is_queued : JobStatus → Bool
is_queued status = elim status [ JobStatus.queued ↦ true | _ ↦ false ]

abbrev pub has_value : Option ℕ → Bool
has_value none = false
has_value (some n) = true

unfoldable pub update_job : StoredJob → Collections → Collections
unfolding job_document
update_job job c =
    let updated = map (λ d. if d.id == job.job_id then job_document job else d) c.jobs in
    if has_value job.expires_at || is_queued job.status
    then record {
      jobs = updated;
      results = map (dated_result job.job_id (bson_dates job.expires_at)) c.results;
      requests = map (dated job.job_id (bson_dates job.expires_at)) c.requests;
    }
    else record c { jobs = updated }

-- insert_one, which refuses a result that is there.
unfoldable pub append_result :
    ℕ → String → ℕ → JobItemResponse → Collections → Insertion × Collections
append_result now job_id sequence result c =
    if any (λ d. d.job_id == job_id && d.sequence == sequence) c.results
    then (duplicate_key, c)
    else (
      inserted,
      record c {
        results =
            c.results
            ++ (record {
              job_id = job_id;
              sequence = sequence;
              result = result;
              created_at = bson_date now;
              expires_at = none;
            })
              ∷ [];
      },
    )
