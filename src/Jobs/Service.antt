-- ===== src/Jobs/Service.antt =====
-- BatchJobManager of app/services/job_service.py: its state, and what its methods share.
-- A method takes the instant that its clock reads give. The libraries that it calls (hashing, URL
-- parsing, JSON sizes, base64, number formats) are the operations of `Library`.
pub mod Submission
pub mod Cancellation
pub mod Execution
pub mod Results
use Prim.Native.String.{◌++◌}
use creator_engagement_proje.Base.{
  ℕ, zero, suc, ◌+◌, ◌-◌, ◌*◌, ◌/◌, min, max, String, ◌≡◌, Bool, true, false, not, ◌&&◌, ◌||◌,
  Option, none, some, List, [], ◌∷◌, map, arith, ltb, leb, if◌then◌else◌, ◌==◌, string_key, nat_key,
  contains, length,
}
use creator_engagement_proje.Base.Dict.{Dict, keys, values, lookup, insert, pop}
use creator_engagement_proje.Models.{
  StoredJob, CreateJobRequest, JobItemRequest, JobItemResponse, JobStatus, WebhookStatus,
  CollectStatus, is_open, is_success,
}
use creator_engagement_proje.Jobs.Memory.{Repository, initialize, recover_interrupted}

pub record Library : Type 0 where
  -- hashlib.sha256(request.model_dump_json(exclude_none=True).encode("utf-8")).hexdigest()
  pub fingerprint : CreateJobRequest → String
  -- urlparse(url).scheme and (urlparse(url).hostname or "").casefold()
  pub scheme : String → String
  pub host : String → String
  -- len(result.model_dump_json().encode("utf-8"))
  pub json_bytes : JobItemResponse → ℕ
  -- base64.urlsafe_b64encode(str(offset).encode("ascii")).decode("ascii")
  pub encode_number : ℕ → String
  -- int(base64.urlsafe_b64decode(cursor.encode("ascii")).decode("ascii")), `none` where a call
  -- raises or the number is negative
  pub decode_number : String → Option ℕ
  -- f"{n:g}", f"{n}"
  pub number_text : ℕ → String

pub record Config : Type 0 where
  pub retention_seconds : ℕ
  pub item_max_concurrency : ℕ
  pub platform_item_max_concurrency : Dict String ℕ
  pub item_timeout_seconds : ℕ
  pub platform_item_timeout_seconds : Dict String ℕ
  pub job_timeout_seconds : ℕ
  pub timeout_batch_size : ℕ
  pub max_items : ℕ
  pub result_max_bytes : ℕ
  pub webhook_allowed_hosts : List String
  pub webhook_max_attempts : ℕ

pub record ActiveJob : Type 0 where
  pub stored : StoredJob
  pub request : CreateJobRequest

-- `tasks` holds the identifiers of the jobs that have a running task.
pub record Manager : Type 0 where
  pub config : Config
  pub active_jobs : Dict String ActiveJob
  pub tasks : Dict String (Unit {0})
  pub initialized : Bool
  pub repository : Repository

pub data JobError : Type 0 where
  value_error : String → JobError
  idempotency_conflict : JobError
  duplicate_key : Option String → JobError

pub data Result {ℓ} (A : Type ℓ) : Type ℓ where
  ok : A → Result A
  raise : JobError → Result A

pub record JobSubmitResponse : Type 0 where
  pub job_id : String
  pub status : JobStatus

pub record JobProgress : Type 0 where
  pub total : ℕ
  pub completed : ℕ
  pub success : ℕ
  pub failed : ℕ

pub record JobStatusResponse : Type 0 where
  pub job_id : String
  pub status : JobStatus
  pub progress : JobProgress
  pub duration_ms : ℕ
  pub cost_yuan : ℕ
  pub created_at : ℕ
  pub started_at : Option ℕ
  pub finished_at : Option ℕ
  pub webhook_status : Option WebhookStatus
  pub error : Option String

unfoldable pub status_response : StoredJob → JobStatusResponse
status_response stored = record {
  job_id = stored.job_id;
  status = stored.status;
  progress = record {
    total = stored.total;
    completed = stored.completed;
    success = stored.success;
    failed = stored.failed;
  };
  duration_ms = stored.duration_ms;
  cost_yuan = stored.cost_yuan;
  created_at = stored.created_at;
  started_at = stored.started_at;
  finished_at = stored.finished_at;
  webhook_status = stored.webhook_status;
  error = stored.error;
}

unfoldable pub idempotent_response : StoredJob → String → Result JobSubmitResponse
idempotent_response stored fingerprint =
    if stored.fingerprint == fingerprint
    then ok (record { job_id = stored.job_id; status = stored.status })
    else raise idempotency_conflict

unfoldable pub ensure_initialized : ℕ → Manager → Manager
ensure_initialized now m = if m.initialized then m else record m {
  repository = recover_interrupted now m.config.retention_seconds (initialize now m.repository);
  initialized = true;
}

-- set(item_ids), as a list.
unfoldable pub deduplicate : List String → List String
deduplicate [] = []
deduplicate (x ∷ xs) = let rest = deduplicate xs in if contains xs x then rest else x ∷ rest

abbrev pub item_ids : List JobItemRequest → List String
item_ids items = map (λ item. item.item_id) items

-- The text of the ValueError that the validation raises, if it does.
unfoldable pub validate_request : Library → Config → CreateJobRequest → Option String
unfolding deduplicate
validate_request lib config request =
    if ltb 0 config.max_items && ltb config.max_items (length request.items)
    then some ("单个异步任务最多允许 " ++ lib.number_text config.max_items ++ " 个采集项")
    else if not (length (deduplicate (item_ids request.items)) == length (item_ids request.items))
    then some "同一异步任务中的 item_id 不能重复"
    else elim request.webhook_url [
      | none ↦ none
      | some url ↦
          if not (lib.scheme url == "https")
          then some "webhook_url 必须使用 HTTPS"
          else if not (contains config.webhook_allowed_hosts (lib.host url))
          then some "webhook_url 域名未加入服务端白名单"
          else none
    ]
