-- ===== src/Models.antt =====
-- app/models/engagement.py (the job part) and StoredJob of app/repositories/job_repository.py.
-- Instants are microseconds since the epoch, in UTC, the resolution of Python's datetime.
-- Money is a number of 1e-8 yuan, the precision to which the code rounds it.
use creator_engagement_proje.Base.{ℕ, String, Bool, true, false, Option, none, List}

pub data JobStatus : Type 0 where
  queued running completed failed cancelled : JobStatus

pub data WebhookStatus : Type 0 where
  pending sent failed : WebhookStatus

pub data CollectStatus : Type 0 where
  success failed : CollectStatus

pub data CollectOperation : Type 0 where
  interactions comments : CollectOperation

pub record EngagementComment : Type 0 where
  pub comment_id : String
  pub author : String
  pub text : String
  pub created_at : Option ℕ
  pub likes : Option ℕ
  pub replies : Option ℕ

pub record CollectResultData : Type 0 where
  pub views : Option ℕ
  pub likes : Option ℕ
  pub total_comments : Option ℕ
  pub shares : Option ℕ
  pub favorites : Option ℕ
  pub coins : Option ℕ
  pub danmaku : Option ℕ
  pub reposts : Option ℕ
  pub recommendations : Option ℕ
  pub comments : Option (List EngagementComment)

-- result={}
abbrev pub empty_result : CollectResultData
empty_result = record {
  views = none;
  likes = none;
  total_comments = none;
  shares = none;
  favorites = none;
  coins = none;
  danmaku = none;
  reposts = none;
  recommendations = none;
  comments = none;
}

pub record JobItemRequest : Type 0 where
  pub url : String
  pub media_name : String
  pub type : CollectOperation
  pub page : Option ℕ
  pub item_id : String

pub record CreateJobRequest : Type 0 where
  pub items : List JobItemRequest
  pub webhook_url : Option String

pub record JobItemResponse : Type 0 where
  pub url : String
  pub media_name : String
  pub type : CollectOperation
  pub status : CollectStatus
  pub complete : Bool
  pub result : CollectResultData
  pub error : Option String
  pub item_id : String
  pub duration_ms : ℕ

pub record StoredJob : Type 0 where
  pub job_id : String
  pub fingerprint : String
  pub status : JobStatus
  pub total : ℕ
  pub completed : ℕ
  pub success : ℕ
  pub failed : ℕ
  pub duration_ms : ℕ
  pub cost_yuan : ℕ
  pub created_at : ℕ
  pub idempotency_key : Option String
  pub started_at : Option ℕ
  pub finished_at : Option ℕ
  pub webhook_url : Option String
  pub webhook_status : Option WebhookStatus
  pub error : Option String
  pub cancel_requested : Bool
  pub expires_at : Option ℕ

-- status in {"queued", "running"}
abbrev pub is_open : JobStatus → Bool
is_open JobStatus.queued = true
is_open JobStatus.running = true
is_open JobStatus.completed = false
is_open JobStatus.failed = false
is_open JobStatus.cancelled = false

-- result.status == "success"
abbrev pub is_success : JobItemResponse → Bool
is_success result = elim result.status [
  | CollectStatus.success ↦ true
  | CollectStatus.failed ↦ false
]
