-- ===== src/Jobs/Service/Submission.antt =====
-- submit, resume, resume_interrupted and get_status of BatchJobManager, and cancel until it releases
-- the lock. The manager's lock makes each of submit, resume and that part of cancel one step;
-- `resume_interrupted` is a sequence of steps.
pub mod Idempotent
pub mod Resumed
use creator_engagement_proje.Base.{
  ℕ, zero, suc, ◌+◌, ◌-◌, ◌*◌, String, ◌≡◌, Bool, true, false, not, ◌&&◌, ◌||◌, Option, none, some,
  List, [], ◌∷◌, map, arith, if◌then◌else◌, ◌==◌, string_key, contains, length, select, tally,
  is_none,
}
use creator_engagement_proje.Base.Dict.{Dict, keys, values, lookup, insert, pop}
use creator_engagement_proje.Models.{
  StoredJob, CreateJobRequest, JobItemRequest, JobItemResponse, JobStatus, WebhookStatus,
  CollectStatus, is_open,
}
use creator_engagement_proje.Jobs.Memory
use creator_engagement_proje.Jobs.Memory.{
  Repository, truthy, create_job, find_by_idempotency_key, get_job, get_request,
  get_completed_items, update_job, get_interrupted_jobs, seconds,
}
use creator_engagement_proje.Jobs.Service.{
  Library, Config, ActiveJob, Manager, JobError, value_error, idempotency_conflict, duplicate_key,
  Result, ok, raise, JobSubmitResponse, JobStatusResponse, status_response, idempotent_response,
  ensure_initialized, validate_request,
}

-- The job that `submit` stores.
unfoldable pub queued_job : ℕ → String → String → Option String → CreateJobRequest → StoredJob
queued_job now job_id fingerprint idempotency_key request = record {
  job_id = job_id;
  fingerprint = fingerprint;
  status = JobStatus.queued;
  total = length request.items;
  completed = 0;
  success = 0;
  failed = 0;
  duration_ms = 0;
  cost_yuan = 0;
  created_at = now;
  idempotency_key = idempotency_key;
  started_at = none;
  finished_at = none;
  webhook_url = request.webhook_url;
  webhook_status = elim request.webhook_url [ some _ ↦ some WebhookStatus.pending | none ↦ none ];
  error = none;
  cancel_requested = false;
  expires_at = none;
}

-- self._active_jobs[job_id] = active; self._tasks[job_id] = asyncio.create_task(…)
pub start : String → StoredJob → CreateJobRequest → Repository → Manager → Manager
start job_id stored request repository m = record m {
  active_jobs = insert job_id (record { stored = stored; request = request }) m.active_jobs;
  tasks = insert job_id tt m.tasks;
  repository = repository;
}

-- The handler of DuplicateIdempotencyKeyError in `submit`.
pub after_duplicate :
    ℕ → Option String → String → Manager → Repository → Result JobSubmitResponse × Manager
after_duplicate now none fingerprint m r = (raise (duplicate_key none), record m { repository = r })
after_duplicate now (some key) fingerprint m r =
    let (existing, r') = find_by_idempotency_key now key r in
    (
      elim existing [
        | none ↦ raise (duplicate_key (some key))
        | some stored ↦ idempotent_response stored fingerprint
      ],
      record m { repository = r' },
    )

pub create :
    ℕ
    → String
    → String
    → Option String
    → CreateJobRequest
    → Manager
    → Repository
    → Result JobSubmitResponse × Manager
unfolding queued_job start after_duplicate
create now job_id fingerprint key request m r =
    let stored = queued_job now job_id fingerprint key request in
    let (outcome, r') = create_job now stored request r in
    elim outcome [
      | Memory.ok _ ↦ (
        ok (record { job_id = job_id; status = JobStatus.queued }),
        start job_id stored request r' m,
      )
      | Memory.duplicate_idempotency_key _ ↦ after_duplicate now key fingerprint m r'
    ]

-- `if idempotency_key:` find the job that holds it.
abbrev pub find_existing : ℕ → Option String → Repository → Option StoredJob × Repository
find_existing now none r = (none, r)
find_existing now (some key) r = if key == "" then (none, r) else find_by_idempotency_key now key r

pub submit_locked :
    ℕ
    → String
    → String
    → Option String
    → CreateJobRequest
    → Manager
    → Result JobSubmitResponse × Manager
unfolding create
submit_locked now job_id fingerprint key request m =
    let (existing, r) = find_existing now key m.repository in
    elim existing [
      | some stored ↦ (idempotent_response stored fingerprint, record m { repository = r })
      | none ↦ create now job_id fingerprint key request m r
    ]

-- `job_id` is the identifier that uuid4 gives.
unfoldable pub submit :
    Library
    → ℕ
    → String
    → CreateJobRequest
    → Option String
    → Manager
    → Result JobSubmitResponse × Manager
unfolding submit_locked
submit lib now job_id request key m =
    let m' = ensure_initialized now m in
    elim (validate_request lib m'.config request) [
      | some reason ↦ (raise (value_error reason), m')
      | none ↦ submit_locked now job_id (lib.fingerprint request) key request m'
    ]

abbrev pub is_completed : JobStatus → Bool
is_completed status = elim status [ JobStatus.completed ↦ true | _ ↦ false ]

abbrev pub succeeded : String × CollectStatus → Bool
succeeded item = elim item.1 [ CollectStatus.success ↦ true | CollectStatus.failed ↦ false ]

-- The inputs that have no stored result.
unfoldable pub pending_items :
    List (String × CollectStatus) → List JobItemRequest → List JobItemRequest
pending_items completed items =
    select (λ item. not (contains (map (λ c. c.0) completed) item.item_id)) items

-- The stored job as `resume` rewrites it.
unfoldable pub requeued : List (String × CollectStatus) → CreateJobRequest → StoredJob → StoredJob
requeued completed request stored = record stored {
  completed = length completed;
  success = tally succeeded completed;
  failed = length completed - tally succeeded completed;
  cancel_requested = false;
  error = none;
  finished_at = none;
  expires_at = none;
  webhook_status = elim request.webhook_url [ some _ ↦ some WebhookStatus.pending | none ↦ none ];
  status = JobStatus.queued;
}

pub resume_request :
    Library
    → ℕ
    → String
    → StoredJob
    → CreateJobRequest
    → Manager
    → Repository
    → Result (Option JobSubmitResponse) × Manager
unfolding requeued pending_items start
resume_request lib now job_id stored request m r = elim (validate_request lib m.config request) [
  | some reason ↦ (raise (value_error reason), record m { repository = r })
  | none ↦
      let (completed, r') = get_completed_items now job_id r in
      let stored' = requeued completed request stored in
      (
        ok (some (record { job_id = job_id; status = JobStatus.queued })),
        start job_id stored' (record request { items = pending_items completed request.items })
            (update_job stored' r') m,
      )
]

pub resume_stored :
    Library
    → ℕ
    → String
    → StoredJob
    → Manager
    → Repository
    → Result (Option JobSubmitResponse) × Manager
unfolding resume_request
resume_stored lib now job_id stored m r =
    if not (is_none (lookup job_id m.tasks)) || is_completed stored.status
    then (
      ok (some (record { job_id = job_id; status = stored.status })),
      record m { repository = r },
    )
    else (let (request, r') = get_request now job_id r in
        elim request [
          | none ↦ (raise (value_error "该历史任务没有保存完整请求，请用原始条目重新提交"), record m { repository = r' })
          | some request ↦ resume_request lib now job_id stored request m r'
        ])

unfoldable pub resume : Library → ℕ → String → Manager → Result (Option JobSubmitResponse) × Manager
unfolding resume_stored
resume lib now job_id m =
    let m' = ensure_initialized now m in
    let (found, r) = get_job now job_id m'.repository in
    elim found [
      | none ↦ (ok none, record m' { repository = r })
      | some stored ↦ resume_stored lib now job_id stored m' r
    ]

-- A ValueError ends only the resumption of its own job; any other error ends the loop.
pub resume_each : Library → ℕ → List StoredJob → Manager → Result (Unit {0}) × Manager
resume_each lib now [] m = (ok tt, m)
resume_each lib now (stored ∷ rest) m =
    let (result, m') = resume lib now stored.job_id m in
    let others = resume_each lib now rest m' in
    elim result [ ok _ ↦ others | raise (value_error _) ↦ others | raise error ↦ (raise error, m') ]

unfoldable pub resume_interrupted : Library → ℕ → Manager → Result (Unit {0}) × Manager
unfolding resume_each
resume_interrupted lib now m =
    let m' = ensure_initialized now m in
    let (jobs, r) = get_interrupted_jobs now m'.repository in
    resume_each lib now jobs (record m' { repository = r })

unfoldable pub get_status : ℕ → String → Manager → Option JobStatusResponse × Manager
get_status now job_id m =
    let m' = ensure_initialized now m in
    let (found, r) = get_job now job_id m'.repository in
    (
      elim found [ none ↦ none | some stored ↦ some (status_response stored) ],
      record m' { repository = r },
    )

-- The active job as `cancel` marks it.
unfoldable pub cancelled_job : ℕ → Config → StoredJob → StoredJob
cancelled_job now config stored = record stored {
  cancel_requested = true;
  status = JobStatus.cancelled;
  error = some "任务已由调用方取消";
  finished_at = some now;
  expires_at = some (now + seconds config.retention_seconds);
}

-- What `cancel` does under the lock with a stored job: the job to report on, and whether its task is
-- cancelled after that.
pub cancel_stored : ℕ → String → StoredJob → Manager → (StoredJob × Bool) × Manager
unfolding cancelled_job
cancel_stored now job_id stored m =
    if not (is_open stored.status)
    then ((stored, false), m)
    else elim (lookup job_id m.active_jobs) [
      | none ↦ ((stored, false), m)
      | some active ↦
          let stored' = cancelled_job now m.config active.stored in
          (
            (stored', not (is_none (lookup job_id m.tasks))),
            record m {
              active_jobs = insert job_id (record active { stored = stored' }) m.active_jobs;
              repository = update_job stored' m.repository;
            },
          )
    ]

-- `cancel` until it releases the lock.
unfoldable pub cancel_locked : ℕ → String → Manager → Option (StoredJob × Bool) × Manager
unfolding cancel_stored
cancel_locked now job_id m =
    let m' = ensure_initialized now m in
    let (found, r) = get_job now job_id m'.repository in
    elim found [
      | none ↦ (none, record m' { repository = r })
      | some stored ↦
          let (report, m'') = cancel_stored now job_id stored (record m' { repository = r }) in
          (some report, m'')
    ]
