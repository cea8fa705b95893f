-- ===== src/Jobs/Mongo.antt =====
-- MongoJobRepository (app/repositories/mongo_job_repository.py), by its commands: collections are
-- lists of documents in the order of their insertion, with the unique indexes of
-- `_initialize_sync`; the TTL monitor of the server may delete what has expired.
pub mod Writes
pub mod Expiring
pub mod Keys
pub mod Queries
mod Tests
use creator_engagement_proje.Base.{
  ℕ, zero, suc, ◌+◌, ◌-◌, ◌*◌, ◌/◌, String, Bool, true, false, not, ◌&&◌, ◌||◌, Option, none, some,
  List, [], ◌∷◌, ◌++◌, map, ltb, leb, if◌then◌else◌, ◌==◌, option_beq, string_key, nat_key, any,
  select, first, tally, length, take, contains,
}
use creator_engagement_proje.Models.{
  StoredJob, CreateJobRequest, JobItemRequest, JobItemResponse, JobStatus, WebhookStatus,
  CollectStatus, is_open, is_success,
}
use creator_engagement_proje.Jobs.Memory.{seconds, truthy, restart_error, is_interrupted_error}

pub record ProgressDocument : Type 0 where
  pub total : ℕ
  pub completed : ℕ
  pub success : ℕ
  pub failed : ℕ

-- `id` is the field _id.
pub record JobDocument : Type 0 where
  pub id : String
  pub request_fingerprint : String
  pub idempotency_key : Option String
  pub status : JobStatus
  pub progress : ProgressDocument
  pub duration_ms : ℕ
  pub cost_yuan : ℕ
  pub webhook_url : Option String
  pub webhook_status : Option WebhookStatus
  pub error : Option String
  pub cancel_requested : Bool
  pub created_at : ℕ
  pub started_at : Option ℕ
  pub finished_at : Option ℕ
  pub expires_at : Option ℕ

-- The _id of an input or a result is its job and sequence.
pub record RequestDocument : Type 0 where
  pub job_id : String
  pub sequence : ℕ
  pub item : JobItemRequest
  pub expires_at : Option ℕ

pub record ResultDocument : Type 0 where
  pub job_id : String
  pub sequence : ℕ
  pub result : JobItemResponse
  pub created_at : ℕ
  pub expires_at : Option ℕ

pub record Collections : Type 0 where
  pub jobs : List JobDocument
  pub results : List ResultDocument
  pub requests : List RequestDocument

-- DuplicateIdempotencyKeyError, the DuplicateKeyError of insert_one, the BulkWriteError of
-- insert_many, or its TypeError on an empty list.
pub data Insertion : Type 0 where
  inserted : Insertion
  duplicate_idempotency : Option String → Insertion
  duplicate_key bulk_write_error type_error : Insertion

-- A date of BSON has milliseconds; a comparison with a stored date in the microseconds of `now`
-- comes to the same as one in milliseconds.
abbrev pub bson_date : ℕ → ℕ
bson_date t = t / 1000 * 1000

abbrev pub bson_dates : Option ℕ → Option ℕ
bson_dates none = none
bson_dates (some t) = some (bson_date t)

unfoldable pub job_document : StoredJob → JobDocument
job_document job = record {
  id = job.job_id;
  request_fingerprint = job.fingerprint;
  idempotency_key = job.idempotency_key;
  status = job.status;
  progress = record {
    total = job.total;
    completed = job.completed;
    success = job.success;
    failed = job.failed;
  };
  duration_ms = job.duration_ms;
  cost_yuan = job.cost_yuan;
  webhook_url = job.webhook_url;
  webhook_status = job.webhook_status;
  error = job.error;
  cancel_requested = job.cancel_requested;
  created_at = bson_date job.created_at;
  started_at = bson_dates job.started_at;
  finished_at = bson_dates job.finished_at;
  expires_at = bson_dates job.expires_at;
}

unfoldable pub document_to_job : JobDocument → StoredJob
document_to_job document = record {
  job_id = document.id;
  fingerprint = document.request_fingerprint;
  status = document.status;
  total = document.progress.total;
  completed = document.progress.completed;
  success = document.progress.success;
  failed = document.progress.failed;
  duration_ms = document.duration_ms;
  cost_yuan = document.cost_yuan;
  created_at = document.created_at;
  idempotency_key = document.idempotency_key;
  started_at = document.started_at;
  finished_at = document.finished_at;
  webhook_url = document.webhook_url;
  webhook_status = document.webhook_status;
  error = document.error;
  cancel_requested = document.cancel_requested;
  expires_at = document.expires_at;
}

-- {"$lte": now}, which no null meets, and the test of `_active_filter`.
abbrev pub is_past : ℕ → Option ℕ → Bool
is_past now none = false
is_past now (some t) = leb t now

abbrev pub is_active : ℕ → Option ℕ → Bool
is_active now none = true
is_active now (some t) = ltb now t

abbrev pub converted : Option JobDocument → Option StoredJob
converted none = none
converted (some document) = some (document_to_job document)

unfoldable pub get_job : ℕ → String → Collections → Option StoredJob
get_job now job_id c = converted (first (λ d. d.id == job_id && is_active now d.expires_at) c.jobs)

abbrev pub has_key : String → JobDocument → Bool
has_key key d = option_beq d.idempotency_key (some key)

unfoldable pub find_by_idempotency_key : ℕ → String → Collections → Option StoredJob
find_by_idempotency_key now key c =
    converted (first (λ d. has_key key d && is_active now d.expires_at) c.jobs)
