-- ===== src/Jobs/Mongo/Queries.antt =====
-- MongoJobRepository (app/repositories/mongo_job_repository.py): results, requests and recovery,
-- and what the server's TTL monitor deletes.
use creator_engagement_proje.Base.{
  ℕ, ◌+◌, ◌-◌, String, Bool, true, false, not, ◌&&◌, Option, none, some, List, [], ◌∷◌, map, leb,
  if◌then◌else◌, ◌==◌, string_key, nat_key, select, first, tally, length, take,
}
use creator_engagement_proje.Models.{
  StoredJob, CreateJobRequest, JobItemResponse, JobStatus, WebhookStatus, CollectStatus, is_open,
  is_success,
}
use creator_engagement_proje.Jobs.Memory.{seconds, restart_error, is_interrupted_error}
use creator_engagement_proje.Jobs.Mongo.{
  JobDocument, RequestDocument, ResultDocument, Collections, document_to_job, is_past, is_active,
  bson_date,
}
use creator_engagement_proje.Jobs.Mongo.Writes.{dated, dated_result}

-- sort("sequence", ASCENDING), which keeps the order of equals.
unfoldable pub insert_document : ResultDocument → List ResultDocument → List ResultDocument
insert_document d [] = d ∷ []
insert_document d (e ∷ es) =
    let rest = insert_document d es in if leb d.sequence e.sequence then d ∷ e ∷ es else e ∷ rest

unfoldable pub sort_documents : List ResultDocument → List ResultDocument
unfolding insert_document
sort_documents [] = []
sort_documents (d ∷ ds) = insert_document d (sort_documents ds)

-- limit(0) is no limit.
abbrev limited_documents : ℕ → List ResultDocument → List ResultDocument
limited_documents limit ds = if limit == 0 then ds else take limit ds

unfoldable pub get_results : String → ℕ → ℕ → Collections → List JobItemResponse
unfolding sort_documents
get_results job_id offset limit c =
    map (λ d. d.result)
      (limited_documents limit
        (sort_documents (select (λ d. d.job_id == job_id && leb offset d.sequence) c.results)))

-- Without a sort, the documents come by the index of job_id and sequence.
unfoldable pub get_completed_items : String → Collections → List (String × CollectStatus)
unfolding sort_documents
get_completed_items job_id c =
    map (λ d. (d.result.item_id, d.result.status))
      (sort_documents (select (λ d. d.job_id == job_id) c.results))

unfoldable pub insert_input : RequestDocument → List RequestDocument → List RequestDocument
insert_input d [] = d ∷ []
insert_input d (e ∷ es) =
    let rest = insert_input d es in if leb d.sequence e.sequence then d ∷ e ∷ es else e ∷ rest

unfoldable pub sort_inputs : List RequestDocument → List RequestDocument
unfolding insert_input
sort_inputs [] = []
sort_inputs (d ∷ ds) = insert_input d (sort_inputs ds)

-- The inputs of a job, if all of them are there.
abbrev request_of : List RequestDocument → Option JobDocument → Option CreateJobRequest
request_of inputs none = none
request_of inputs (some job) =
    if length inputs == job.progress.total
    then some (record { items = map (λ d. d.item) inputs; webhook_url = job.webhook_url })
    else none

unfoldable pub get_request : ℕ → String → Collections → Option CreateJobRequest
unfolding sort_inputs
get_request now job_id c =
    request_of (sort_inputs (select (λ d. d.job_id == job_id) c.requests))
      (first (λ d. d.id == job_id && is_active now d.expires_at) c.jobs)

abbrev pub has_failed_status : JobStatus → Bool
has_failed_status status = elim status [ JobStatus.failed ↦ true | _ ↦ false ]

unfoldable pub get_interrupted_jobs : ℕ → Collections → List StoredJob
get_interrupted_jobs now c = map document_to_job (
    select
      (λ d.
        has_failed_status d.status
        && is_interrupted_error d.error
        && not d.cancel_requested
        && is_active now d.expires_at)
      c.jobs)

-- The $set of an interrupted job, from its stored results.
unfoldable pub interrupted_document : ℕ → ℕ → List ResultDocument → JobDocument → JobDocument
interrupted_document now retention_seconds results job =
    let stored = select (λ d. d.job_id == job.id) results in
    let success = tally (λ d. is_success d.result) stored in
    record job {
      status = JobStatus.failed;
      progress = record (job.progress) {
        completed = length stored;
        success = success;
        failed = length stored - success;
      };
      finished_at = some (bson_date now);
      webhook_status = elim job.webhook_status [
        | some WebhookStatus.pending ↦ some WebhookStatus.failed
        | other ↦ other
      ];
      error = some restart_error;
      expires_at = some (bson_date (now + seconds retention_seconds));
    }

-- The loop over the open jobs.
unfoldable pub recover_documents : ℕ → ℕ → List JobDocument → Collections → Collections
unfolding interrupted_document
recover_documents now retention_seconds [] c = c
recover_documents now retention_seconds (job ∷ jobs) c =
    let expires_at = some (bson_date (now + seconds retention_seconds)) in
    recover_documents now retention_seconds jobs (record {
      jobs =
          map
            (λ d.
              if d.id == job.id then interrupted_document now retention_seconds c.results d else d)
            c.jobs;
      results = map (dated_result job.id expires_at) c.results;
      requests = map (dated job.id expires_at) c.requests;
    })

unfoldable pub recover_interrupted : ℕ → ℕ → Collections → Collections
unfolding recover_documents
recover_interrupted now retention_seconds c =
    recover_documents now retention_seconds (select (λ d. is_open d.status) c.jobs) c

-- The TTL monitor at an instant: of what has expired, it deletes what it comes to.
unfoldable pub delete_by_ttl :
    ℕ
    → (JobDocument → Bool)
    → (ResultDocument → Bool)
    → (RequestDocument → Bool)
    → Collections
    → Collections
delete_by_ttl now job result request c = record {
  jobs = select (λ d. not (is_past now d.expires_at && job d)) c.jobs;
  results = select (λ d. not (is_past now d.expires_at && result d)) c.results;
  requests = select (λ d. not (is_past now d.expires_at && request d)) c.requests;
}
