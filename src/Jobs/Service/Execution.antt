-- ===== src/Jobs/Service/Execution.antt =====
-- `_run_job`, `_execute_job`, `_collect_one`, `_bounded_result` and `_send_webhook` of
-- BatchJobManager, for one job. `_execute_job` runs many workers at once; here it is cut into the
-- pieces between two suspensions: `begin`, `take` (a worker gets an item), `finish` (a worker has
-- the item's result and stores it) and `settle` (the code after the workers and the `finally`).
-- Elapsed times are milliseconds and arrive as arguments.
pub mod Progress
pub mod Closing
pub mod Webhook
use Prim.Native.String.{◌++◌}
use text.Mathlib.Text.{find?}
use creator_engagement_proje.Base.{
  ℕ, zero, suc, ◌+◌, ◌-◌, ◌*◌, ◌/◌, min, max, String, ◌≡◌, Bool, true, false, not, ◌&&◌, ◌||◌,
  Option, none, some, List, [], ◌∷◌, map, arith, ltb, leb, if◌then◌else◌, ◌==◌, string_key, nat_key,
  length, is_none,
}
use creator_engagement_proje.Base.Dict.{Dict, keys, values, lookup, insert, pop}
use creator_engagement_proje.Models.{
  StoredJob, CreateJobRequest, JobItemRequest, JobItemResponse, JobStatus, WebhookStatus,
  CollectStatus, is_open, is_success, empty_result,
}
use creator_engagement_proje.Jobs.Memory.{
  Repository, update_job, append_result, seconds, shutdown_error,
}
use creator_engagement_proje.Platforms.{Normalize, traffic_platform}
use creator_engagement_proje.Jobs.Service.{Library, Config, ActiveJob}

pub record Run : Type 0 where
  pub stored : StoredJob
  pub queues : Dict String (List JobItemRequest)
  -- the workers that hold no item, and the items that workers hold
  pub idle : Dict String ℕ
  pub in_flight : List (String × JobItemRequest)
  pub argus_failures : ℕ
  pub unavailable : Bool
  pub previous_duration : ℕ
  pub previous_cost : ℕ
  pub repository : Repository

-- The queue of an item; `scoped` says that a collection scope was given.
unfoldable pub queue_key : Normalize → Bool → JobItemRequest → String
queue_key normalize false item = "all"
queue_key normalize true item = elim (normalize item.media_name) [
  | some name ↦ traffic_platform name
  | none ↦ "unsupported"
]

abbrev pub queue_at : String → Dict String (List JobItemRequest) → List JobItemRequest
queue_at k queues = elim (lookup k queues) [ some items ↦ items | none ↦ [] ]

abbrev pub snoc : List JobItemRequest → JobItemRequest → List JobItemRequest
snoc [] x = x ∷ []
snoc (y ∷ ys) x = y ∷ snoc ys x

unfoldable pub enqueue :
    Normalize
    → Bool
    → List JobItemRequest
    → Dict String (List JobItemRequest)
    → Dict String (List JobItemRequest)
unfolding queue_key
enqueue normalize scoped [] queues = queues
enqueue normalize scoped (item ∷ items) queues =
    let k = queue_key normalize scoped item in
    enqueue normalize scoped items (insert k (snoc (queue_at k queues) item) queues)

abbrev pub get_or : Option ℕ → ℕ → ℕ
get_or none d = d
get_or (some n) d = n

unfoldable pub worker_count : Config → String → List JobItemRequest → ℕ
worker_count config platform queue = min config.item_max_concurrency (
    min (get_or (lookup platform config.platform_item_max_concurrency) config.item_max_concurrency)
      (length queue))

unfoldable pub spawn : Config → Dict String (List JobItemRequest) → Dict String ℕ
unfolding worker_count
spawn config [] = []
spawn config ((k, queue) ∷ rest) = (k, worker_count config k queue) ∷ spawn config rest

abbrev pub or_now : Option ℕ → ℕ → ℕ
or_now none now = now
or_now (some t) now = t

abbrev pub started : ℕ → StoredJob → StoredJob
started now stored = record stored {
  status = JobStatus.running;
  error = none;
  started_at = some (or_now stored.started_at now);
}

unfoldable pub begin : Normalize → Config → Bool → ℕ → ActiveJob → Repository → Run
unfolding enqueue spawn
begin normalize config scoped now active r =
    let queues = enqueue normalize scoped active.request.items [] in
    record {
      stored = started now active.stored;
      queues = queues;
      idle = spawn config queues;
      in_flight = [];
      argus_failures = 0;
      unavailable = false;
      previous_duration = active.stored.duration_ms;
      previous_cost = active.stored.cost_yuan;
      repository = update_job (started now active.stored) r;
    }

abbrev pub idle_at : String → Dict String ℕ → ℕ
idle_at k idle = get_or (lookup k idle) 0

-- An idle worker of the queue `k` goes round its loop: it returns (`none`), or gets an item.
unfoldable pub take_item : String → Run → Option Run
take_item k run =
    if run.unavailable || nat_key.same (idle_at k run.idle) 0
    then none
    else elim (queue_at k run.queues) [
      | [] ↦ none
      | item ∷ rest ↦ some (record run {
        queues = insert k rest run.queues;
        idle = insert k (idle_at k run.idle - 1) run.idle;
        in_flight = (k, item) ∷ run.in_flight;
      })
    ]

unfoldable pub failed_item : JobItemRequest → String → JobItemResponse
failed_item item reason = record {
  url = item.url;
  media_name = item.media_name;
  type = item.type;
  status = CollectStatus.failed;
  complete = false;
  result = empty_result;
  error = some reason;
  item_id = item.item_id;
  duration_ms = 0;
}

unfoldable pub item_timeout : Normalize → Config → JobItemRequest → ℕ
item_timeout normalize config item =
    if ltb 0 config.item_timeout_seconds && ltb 0 (length config.platform_item_timeout_seconds)
    then elim (normalize item.media_name) [
      | none ↦ config.item_timeout_seconds
      | some platform ↦
          get_or (lookup platform config.platform_item_timeout_seconds) config.item_timeout_seconds
    ]
    else config.item_timeout_seconds

-- How `await collector(item)`, with what precedes it, ended.
pub data Collected : Type 0 where
  returned : JobItemResponse → Collected
  timed_out raised : Collected

unfoldable pub collect_one :
    Library → Normalize → Config → JobItemRequest → Collected → ℕ → JobItemResponse
unfolding failed_item item_timeout
collect_one lib normalize config item (returned result) elapsed = record result {
  duration_ms = elapsed;
}
collect_one lib normalize config item timed_out elapsed =
    record (failed_item item
      ("单条采集超过 " ++ lib.number_text (item_timeout normalize config item) ++ " 秒")) {
        duration_ms = elapsed;
      }
collect_one lib normalize config item raised elapsed = record (failed_item item "服务器内部错误") {
  duration_ms = elapsed;
}

unfoldable pub bounded_result : Library → Config → JobItemResponse → JobItemResponse
bounded_result lib config result =
    if leb (lib.json_bytes result) config.result_max_bytes then result else record {
      url = result.url;
      media_name = result.media_name;
      type = result.type;
      status = CollectStatus.failed;
      complete = false;
      result = empty_result;
      error = some ("单条结果超过 " ++ lib.number_text config.result_max_bytes ++ " 字节存储上限");
      item_id = result.item_id;
      duration_ms = result.duration_ms;
    }

-- result.error and "ArgusSecurityPlugin" in result.error
abbrev pub is_argus : JobItemResponse → Bool
is_argus result = elim result.error [
  | none ↦ false
  | some reason ↦ not (is_none (find? reason "ArgusSecurityPlugin"))
]

abbrev pub is_douyin : JobItemResponse → Bool
is_douyin result = result.media_name == "douyin" || result.media_name == "抖音"

-- The count of consecutive rejections, and whether the platform counts as unavailable.
unfoldable pub count_argus : JobItemResponse → Run → Run
count_argus result run =
    if is_douyin result
    then (if is_argus result
        then record run {
          argus_failures = run.argus_failures + 1;
          unavailable = run.unavailable || leb 10 (run.argus_failures + 1);
        }
        else if is_success result
        then record run { argus_failures = 0 }
        else run)
    else run

-- `persist_result`, under the manager's lock.
unfoldable pub persist_result : ℕ → JobItemResponse → Run → Run
persist_result elapsed result run =
    let old = run.stored in
    let stored' : StoredJob = record old {
      completed = old.completed + 1;
      success = old.success + (if is_success result then 1 else 0);
      failed = old.failed + (if is_success result then 0 else 1);
      duration_ms = run.previous_duration + elapsed;
    } in
    record run {
      stored = stored';
      repository =
          update_job stored' (append_result old.job_id old.completed result run.repository);
    }

-- Takes one item that a worker of the queue `k` holds out of the items in flight.
abbrev pub release :
    String → String → List (String × JobItemRequest) → List (String × JobItemRequest)
release k item_id [] = []
release k item_id ((j, item) ∷ rest) =
    if j == k && item.item_id == item_id then rest else (j, item) ∷ release k item_id rest

-- A worker of the queue `k` that holds `item` has its result.
unfoldable pub finish : Library → Config → String → JobItemRequest → JobItemResponse → ℕ → Run → Run
unfolding bounded_result count_argus persist_result
finish lib config k item result elapsed run =
    let result' = bounded_result lib config result in
    let run' = persist_result elapsed result' (count_argus result' run) in
    record run' {
      idle = insert k (idle_at k run.idle + 1) run.idle;
      in_flight = release k item.item_id run.in_flight;
    }

-- A cancellation marks the job that the run shares with the manager.
pub data Ending : Type 0 where
  -- the workers are done; an exception that is no cancellation; a cancellation, also by a timeout
  exhausted crashed interrupted : Ending

abbrev pub outcome : Ending → Run → StoredJob
outcome exhausted run =
    let old = run.stored in
    if old.cancel_requested
    then old
    else if run.unavailable
    then record old {
      status = JobStatus.failed;
      error = some "抖音接口多次返回 ArgusSecurityPlugin 拒绝；已停止任务以保留未处理项";
    }
    else record old { status = JobStatus.completed }
outcome crashed run = let old = run.stored in record old { status = JobStatus.failed }
outcome interrupted run = run.stored

-- The `finally` block. `usage` is the number of proxy endpoints that the job added, if its scope was
-- entered; one costs 0.00084 yuan.
abbrev pub close_accounts : Config → ℕ → ℕ → Option ℕ → Run → StoredJob → StoredJob
close_accounts config now elapsed usage run stored = record stored {
  cost_yuan = elim usage [
    | none ↦ stored.cost_yuan
    | some added ↦ run.previous_cost + added * 84000
  ];
  duration_ms = run.previous_duration + elapsed;
  finished_at = some (or_now stored.finished_at now);
  expires_at = some (or_now stored.finished_at now + seconds config.retention_seconds);
}

unfoldable pub settle : Config → ℕ → ℕ → Option ℕ → Ending → Run → StoredJob × Repository
settle config now elapsed usage ending run =
    let stored = close_accounts config now elapsed usage run (outcome ending run) in
    (stored, update_job stored run.repository)

-- How one delivery of the webhook ends: accepted, an httpx.HTTPError, or another exception.
pub data Delivery : Type 0 where
  accepted http_error escaped : Delivery

-- The attempts `attempt`, `attempt + 1`, …, `left` in number. `none`: an exception escapes.
unfoldable pub deliver : ℕ → ℕ → (ℕ → Delivery) → Option WebhookStatus
deliver zero attempt post = some WebhookStatus.failed
deliver (suc left) attempt post =
    let rest = deliver left (suc attempt) post in
    elim (post attempt) [ accepted ↦ some WebhookStatus.sent | http_error ↦ rest | escaped ↦ none ]

-- The job and the repository after `_send_webhook`, and whether an exception escapes.
unfoldable pub send_webhook :
    Config → (ℕ → Delivery) → StoredJob → Repository → (StoredJob × Repository) × Bool
unfolding deliver
send_webhook config post stored r = elim (deliver config.webhook_max_attempts 1 post) [
  | none ↦ ((stored, r), true)
  | some status ↦
      let stored' : StoredJob = record stored { webhook_status = some status } in
      ((stored', update_job stored' r), false)
]

abbrev pub notify :
    Config
    → (ℕ → Delivery)
    → CreateJobRequest
    → StoredJob
    → Repository
    → (StoredJob × Repository) × Bool
notify config post request stored r = elim request.webhook_url [
  | none ↦ ((stored, r), false)
  | some _ ↦ send_webhook config post stored r
]

-- The time that the whole job may take, in seconds; 0 is no limit.
unfoldable pub job_timeout : Config → StoredJob → ℕ
job_timeout config stored = min 86400 (
    config.job_timeout_seconds
    * max 1 ((stored.total + config.timeout_batch_size - 1) / config.timeout_batch_size))

-- How the body of `_run_job` ended: `_execute_job` returned, the job's time was up, or the task was
-- cancelled.
pub data Close : Type 0 where
  returned timed_out cancelled : Close

abbrev pub overdue : Library → Config → ℕ → StoredJob → StoredJob
overdue lib config now stored = record stored {
  status = JobStatus.failed;
  error = some ("任务超过最大执行时间 " ++ lib.number_text (job_timeout config stored) ++ " 秒");
  finished_at = some now;
  expires_at = some (now + seconds config.retention_seconds);
}

abbrev pub shut_down : Config → ℕ → StoredJob → StoredJob
shut_down config now stored =
    if is_open stored.status
    then record stored {
      status = JobStatus.failed;
      error = some shutdown_error;
      finished_at = some now;
      expires_at = some (now + seconds config.retention_seconds);
    }
    else stored

abbrev pub is_pending : Option WebhookStatus → Bool
is_pending (some WebhookStatus.pending) = true
is_pending (some WebhookStatus.sent) = false
is_pending (some WebhookStatus.failed) = false
is_pending none = false

abbrev pub is_some_text : Option String → Bool
is_some_text o = not (is_none o)

-- A pending webhook that is not sent.
abbrev pub unsent : StoredJob → StoredJob
unsent stored = record stored {
  webhook_status =
      if is_pending stored.webhook_status then some WebhookStatus.failed else stored.webhook_status;
}

-- After the webhook of a cancelled job, unless it raised, the job is stored once more.
abbrev pub after_webhook : (StoredJob × Repository) × Bool → (StoredJob × Repository) × Bool
after_webhook ((sent, r), true) = ((sent, r), true)
after_webhook ((sent, r), false) = ((sent, update_job sent r), false)

-- `_run_job` from the end of its body on: the handlers and the webhook.
unfoldable pub close_job :
    Library
    → Config
    → ℕ
    → (ℕ → Delivery)
    → Close
    → CreateJobRequest
    → StoredJob
    → Repository
    → (StoredJob × Repository) × Bool
unfolding send_webhook job_timeout
close_job lib config now post returned request stored r = notify config post request stored r
close_job lib config now post timed_out request stored r =
    let stored' = overdue lib config now stored in
    notify config post request stored' (update_job stored' r)
close_job lib config now post cancelled request stored r =
    let stored' = shut_down config now stored in
    if stored'.cancel_requested && is_some_text request.webhook_url
    then after_webhook (send_webhook config post stored' r)
    else ((unsent stored', update_job (unsent stored') r), false)

-- A cancellation that reaches `_execute_job` comes from the job's timeout, or from `cancel` or a
-- shutdown.
abbrev pub close_after : Ending → Bool → Close
close_after exhausted late = returned
close_after crashed late = returned
close_after interrupted true = timed_out
close_after interrupted false = cancelled

-- `_execute_job` from the end of its workers on, and then `_run_job`.
unfoldable pub run_end :
    Library
    → Config
    → ℕ
    → ℕ
    → ℕ
    → Option ℕ
    → (ℕ → Delivery)
    → Ending
    → Bool
    → CreateJobRequest
    → Run
    → (StoredJob × Repository) × Bool
run_end lib config now later elapsed usage post ending late request run =
    let (stored, r) = settle config now elapsed usage ending run in
    close_job lib config later post (close_after ending late) request stored r
