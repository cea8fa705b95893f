-- ===== src/Jobs/Sqlite.antt =====
-- SQLiteJobRepository of app/repositories/job_repository.py: its tables as lists of rows in the
-- order of insertion, and each method as a function of the database and the instant that
-- `datetime.now` gives. The texts of `isoformat` are the instants: in UTC they sort alike. The JSON
-- texts of pydantic are a parameter `J`.
pub mod Appends
pub mod Pages
pub mod Reads
pub mod Recovery
pub mod Refinement
pub mod Statements
pub mod Sweep
mod Tests
pub mod Updates
pub mod Writes
use creator_engagement_proje.Base.{
  ℕ, zero, suc, ◌+◌, ◌-◌, ◌*◌, String, ◌≡◌, Bool, true, false, not, ◌&&◌, ◌||◌, Option, none, some,
  List, [], ◌∷◌, ◌++◌, map, arith, ltb, leb, if◌then◌else◌, ◌==◌, option_beq, string_key, nat_key,
  any, select, first, tally, length, take, contains, is_none,
}
use creator_engagement_proje.Models.{
  StoredJob, CreateJobRequest, JobItemResponse, JobStatus, WebhookStatus, CollectStatus, is_open,
  is_success,
}
use creator_engagement_proje.Jobs.Memory.{
  seconds, truthy, restart_error, is_interrupted, is_interrupted_error,
}

-- model_dump_json and model_validate_json of the two models, SQLite's json_extract, and what the
-- code relies on: a text that was dumped is read back, and its members are found in it.
pub record Codec (J : Type 0) : Type 0 where
  pub dump_request : CreateJobRequest → J
  pub parse_request : J → CreateJobRequest
  pub dump_result : JobItemResponse → J
  pub parse_result : J → JobItemResponse
  pub extract_item_id : J → String
  pub extract_status : J → CollectStatus
  pub parse-dump_request : (r : CreateJobRequest) → parse_request (dump_request r) ≡ r
  pub parse-dump_result : (r : JobItemResponse) → parse_result (dump_result r) ≡ r
  pub extracted_item_id : (j : J) → extract_item_id j ≡ (parse_result j).item_id
  pub extracted_status : (j : J) → extract_status j ≡ (parse_result j).status

-- A row of batch_jobs. A text that may be NULL is optional; `total` is NULL in old rows.
pub record JobRow (J : Type 0) : Type 0 where
  pub job_id : String
  pub request_json : J
  pub fingerprint : String
  pub idempotency_key : Option String
  pub status : JobStatus
  pub completed : ℕ
  pub success : ℕ
  pub failed : ℕ
  pub duration_ms : ℕ
  pub cost_yuan : ℕ
  pub created_at : ℕ
  pub started_at : Option ℕ
  pub finished_at : Option ℕ
  pub webhook_status : Option WebhookStatus
  pub error : Option String
  pub total : Option ℕ
  pub webhook_url : Option String
  pub cancel_requested : ℕ
  pub expires_at : Option ℕ

-- A row of batch_job_results.
pub record ResultRow (J : Type 0) : Type 0 where
  pub job_id : String
  pub sequence : ℕ
  pub result_json : J

pub record Database (J : Type 0) : Type 0 where
  pub batch_jobs : List (JobRow J)
  pub batch_job_results : List (ResultRow J)
  pub retention_seconds : ℕ

-- A value, or the exception of a write.
pub data Written : Type 0 where
  written : Written
  duplicate_idempotency_key : Option String → Written
  integrity_error : Written

-- int(flag)
abbrev pub int_of : Bool → ℕ
int_of true = 1
int_of false = 0

-- a or b
abbrev pub or_else : Option String → Option String → Option String
or_else a b = if truthy a then a else b

abbrev pub total_or : Option ℕ → ℕ → ℕ
total_or none n = n
total_or (some m) n = m

-- str(url) if url else None
abbrev pub if_truthy : Option String → Option String
if_truthy url = if truthy url then url else none

module _ {J : Type 0} where
  unfoldable pub job_values : StoredJob → J → JobRow J
  job_values job request_json = record {
    job_id = job.job_id;
    request_json = request_json;
    fingerprint = job.fingerprint;
    idempotency_key = job.idempotency_key;
    status = job.status;
    completed = job.completed;
    success = job.success;
    failed = job.failed;
    duration_ms = job.duration_ms;
    cost_yuan = job.cost_yuan;
    created_at = job.created_at;
    started_at = job.started_at;
    finished_at = job.finished_at;
    webhook_status = job.webhook_status;
    error = job.error;
    total = some job.total;
    webhook_url = job.webhook_url;
    cancel_requested = int_of job.cancel_requested;
    expires_at = job.expires_at;
  }

  unfoldable pub row_to_job : Codec J → JobRow J → StoredJob
  row_to_job codec row =
      let request = codec.parse_request row.request_json in
      record {
        job_id = row.job_id;
        fingerprint = row.fingerprint;
        idempotency_key = row.idempotency_key;
        status = row.status;
        total = total_or row.total (length request.items);
        completed = row.completed;
        success = row.success;
        failed = row.failed;
        duration_ms = row.duration_ms;
        cost_yuan = row.cost_yuan;
        created_at = row.created_at;
        started_at = row.started_at;
        finished_at = row.finished_at;
        webhook_url = or_else row.webhook_url (if_truthy request.webhook_url);
        webhook_status = row.webhook_status;
        error = row.error;
        cancel_requested = not (row.cancel_requested == 0);
        expires_at = row.expires_at;
      }
