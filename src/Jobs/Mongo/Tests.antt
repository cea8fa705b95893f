-- ===== src/Jobs/Mongo/Tests.antt =====
-- A job in MongoJobRepository (app/repositories/mongo_job_repository.py).
use creator_engagement_proje.Base.{
  ◌≡◌, refl, true, false, some, [], arith, is_none, if◌then◌else◌, string_key,
}
use creator_engagement_proje.Models.{StoredJob}
use creator_engagement_proje.Jobs.Tests.{job, request}
use creator_engagement_proje.Jobs.Mongo.{
  Collections, inserted, duplicate_idempotency, bulk_write_error, find_by_idempotency_key, get_job,
  document_to_job, job_document,
}
use creator_engagement_proje.Jobs.Mongo.Writes.{create_job, update_job}
use creator_engagement_proje.Jobs.Mongo.Keys.{create_job-outcome}
use creator_engagement_proje.Jobs.Mongo.Queries.{
  get_interrupted_jobs, get_request, delete_by_ttl, sort_inputs,
}
use creator_engagement_proje.Jobs.Mongo.Expiring.{reads-delete_by_ttl}

abbrev nothing : Collections
nothing = record { jobs = []; results = []; requests = [] }

abbrev keyed : StoredJob
keyed = record job { job_id = "old"; idempotency_key = some "k"; total = 2 }

abbrev stored : Collections
stored = (create_job 100000 keyed request nothing).1

-- A job that has expired at 500000, under the same key.
abbrev finished : Collections
finished = update_job (record keyed { expires_at = some 500000 }) stored

abbrev newer : StoredJob
newer = record keyed { job_id = "new" }

create_job-outcome_example : (create_job 600000 newer request finished).0 ≡ (
    if is_none (find_by_idempotency_key 600000 "k" finished)
    then inserted
    else duplicate_idempotency (some "k"))
unfolding create_job update_job
create_job-outcome_example =
    create_job-outcome 600000 newer request "k" finished refl refl refl (refl, tt) refl refl

expired_key_is_free : (create_job 600000 newer request finished).0 ≡ inserted
unfolding create_job update_job
expired_key_is_free = refl

live_key_is_held : (create_job 400000 newer request finished).0 ≡ duplicate_idempotency (some "k")
unfolding create_job update_job
live_key_is_held = refl

reads-delete_by_ttl_example :
    (get_job 600000 "old" (delete_by_ttl 550000 (λ d. true) (λ d. true) (λ d. false) finished)
      ≡ get_job 600000 "old" finished)
    × (find_by_idempotency_key 600000 "k"
          (delete_by_ttl 550000 (λ d. true) (λ d. true) (λ d. false) finished)
        ≡ find_by_idempotency_key 600000 "k" finished)
    × (get_interrupted_jobs 600000
          (delete_by_ttl 550000 (λ d. true) (λ d. true) (λ d. false) finished)
        ≡ get_interrupted_jobs 600000 finished)
reads-delete_by_ttl_example =
    reads-delete_by_ttl 550000 600000 (λ d. true) (λ d. true) (λ d. false) "old" "k" finished
      (omega arith)

request_is_read : get_request 400000 "old" finished ≡ some request
unfolding create_job update_job get_request sort_inputs
request_is_read = refl

-- A job document is read back as the job, with its dates in milliseconds.
read_back :
    document_to_job (job_document (record keyed { created_at = 5400; started_at = some 7999 }))
    ≡ record keyed { created_at = 5000; started_at = some 7000 }
unfolding document_to_job job_document
read_back = refl

-- Inputs of the same identifiers raise the BulkWriteError, and nothing of the job is stored.
inputs_are_there :
    (create_job 600000 (record keyed { idempotency_key = some "other" }) request stored).0
    ≡ bulk_write_error
unfolding create_job
inputs_are_there = refl
