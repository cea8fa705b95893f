-- ===== src/Jobs/Tests.antt =====
-- Small inputs for the theorems about batch jobs.
use creator_engagement_proje.Base.{
  ℕ, zero, suc, ◌+◌, ◌*◌, String, ◌≡◌, refl, true, false, not, nat_key, none, some, [], ◌∷◌, arith,
  ◌==◌, string_key, if◌then◌else◌, tally, length, leb, contains, select,
}
use creator_engagement_proje.Base.Dict.{lookup, insert, pop, values}
use creator_engagement_proje.Models.{
  StoredJob, CreateJobRequest, JobItemRequest, JobItemResponse, JobStatus, CollectStatus,
  CollectOperation, empty_result, is_success,
}
use creator_engagement_proje.Platforms.{Normalize}
use creator_engagement_proje.Jobs.Memory
use creator_engagement_proje.Jobs.Memory.{
  Repository, empty, store, create_job, update_job, append_result, recover_interrupted,
  find_by_idempotency_key, get_job, get_request, cleanup_expired, results_of,
  duplicate_idempotency_key, is_expired,
}
use creator_engagement_proje.Jobs.Memory.Expiry.{unless_expired, has_expired, cleanup_expired_exact}
use creator_engagement_proje.Jobs.Memory.Idempotency.{
  IsUnique, here, next, create, recover, Steps-IsUnique,
}
use creator_engagement_proje.Jobs.Memory.Replay.{create_job-find}
use creator_engagement_proje.Jobs.Memory.Pages.{HasResults}
use creator_engagement_proje.Jobs.Memory.Recovery.{
  IsRecovered, is_left_open, recover_interrupted_exact,
}
use creator_engagement_proje.Jobs.Service.{
  Library, Config, ActiveJob, Manager, ok, ensure_initialized, validate_request, status_response,
}
use creator_engagement_proje.Jobs.Service.Submission.{
  submit, resume, cancel_locked, get_status, queued_job, cancelled_job,
}
use creator_engagement_proje.Jobs.Service.Submission.Idempotent.{submit-replay}
use creator_engagement_proje.Jobs.Service.Submission.Resumed.{resume-pending, result_ids}
use creator_engagement_proje.Jobs.Service.Cancellation.{TaskEnd, executing, unstarted, cancel}
use creator_engagement_proje.Jobs.Service.Cancellation.Reported.{cancel-status}
use creator_engagement_proje.Jobs.Service.Cancellation.Marked.{IsMarked}
use creator_engagement_proje.Jobs.Service.Execution.{
  Run, begin, take_item, finish, collect_one, timed_out, bounded_result, Delivery, accepted,
  http_error, deliver, run_end, exhausted,
}
use creator_engagement_proje.Jobs.Service.Execution.Progress.{
  Trace, start, take, done, IsAccounted, begin_complete,
}
use creator_engagement_proje.Jobs.Service.Execution.Closing.{IsClosed, run_end-IsClosed}
use creator_engagement_proje.Jobs.Service.Results.{read_all, read_all-exact}

-- A number as that many strokes, in place of base64.
abbrev strokes : ℕ → String
strokes zero = ""
strokes (suc n) = String.◌∷◌ "1" (strokes n)

abbrev count_strokes : String → ℕ
count_strokes String.[] = 0
count_strokes (String.◌∷◌ c s) = suc (count_strokes s)

strokes_codec : (n : ℕ) → some (count_strokes (strokes n)) ≡ some n
strokes_codec zero = refl
strokes_codec (suc n) = ground (arith, strokes_codec n)

abbrev lib : Library
lib = record {
  fingerprint = λ request. elim request.webhook_url [ none ↦ "plain" | some url ↦ url ];
  scheme = λ url. "https";
  host = λ url. url;
  json_bytes = λ result. 100;
  encode_number = strokes;
  decode_number = λ s. some (count_strokes s);
  number_text = strokes;
}

abbrev config : Config
config = record {
  retention_seconds = 86400;
  item_max_concurrency = 2;
  platform_item_max_concurrency = [];
  item_timeout_seconds = 90;
  platform_item_timeout_seconds = [];
  job_timeout_seconds = 1800;
  timeout_batch_size = 500;
  max_items = 0;
  result_max_bytes = 1000;
  webhook_allowed_hosts = [];
  webhook_max_attempts = 3;
}

abbrev fresh : Manager
fresh = record {
  config = config;
  active_jobs = [];
  tasks = [];
  initialized = true;
  repository = empty;
}

abbrev pub item : String → JobItemRequest
item id = record {
  url = "https://weibo.com/1/a";
  media_name = "weibo";
  type = CollectOperation.interactions;
  page = none;
  item_id = id;
}

abbrev pub request : CreateJobRequest
request = record { items = item "a" ∷ item "b" ∷ []; webhook_url = none }

abbrev pub result : String → JobItemResponse
result id = record {
  url = "https://weibo.com/1/a";
  media_name = "weibo";
  type = CollectOperation.interactions;
  status = CollectStatus.success;
  complete = true;
  result = empty_result;
  error = none;
  item_id = id;
  duration_ms = 5;
}

abbrev pub job : StoredJob
job = record {
  job_id = "j";
  fingerprint = "plain";
  status = JobStatus.queued;
  total = 2;
  completed = 0;
  success = 0;
  failed = 0;
  duration_ms = 0;
  cost_yuan = 0;
  created_at = 0;
  idempotency_key = some "k";
  started_at = none;
  finished_at = none;
  webhook_url = none;
  webhook_status = none;
  error = none;
  cancel_requested = false;
  expires_at = none;
}

-- What the tests compute with.
program : Unit {0}
unfolding lookup insert pop create_job update_job append_result recover_interrupted
    find_by_idempotency_key get_job get_request cleanup_expired store submit resume cancel_locked
    get_status queued_job cancelled_job ensure_initialized validate_request begin take_item finish
    collect_one bounded_result deliver run_end
program = tt

abbrev stored_once : Repository
stored_once = record {
  jobs = ("j", job) ∷ [];
  requests = ("j", request) ∷ [];
  results = ("j", (0, result "a") ∷ []) ∷ [];
}

empty-IsUnique : IsUnique empty
unfolding program
empty-IsUnique = record { distinct = tt; unique = λ i j k hi hj he. cc }

Steps-IsUnique_example : IsUnique (recover_interrupted 9 60 (create_job 5 job request empty).1)
Steps-IsUnique_example =
    Steps-IsUnique
      (next (next here (create 5 job request empty))
        (recover 9 60 (create_job 5 job request empty).1))
      empty-IsUnique

create_job-find_example :
    ((find_by_idempotency_key 9 "k" (create_job 5 job request empty).1).0
      ≡ unless_expired 9 (some job))
    × ((create_job 9 job request (create_job 5 job request empty).1).0
        ≡ (if is_expired 9 job then Memory.ok tt else duplicate_idempotency_key (some "k")))
unfolding program
create_job-find_example =
    create_job-find 5 9 "k" job job request empty empty-IsUnique refl refl refl refl

cleanup_expired_exact_example :
    ((get_job 7 "j" stored_once).0 ≡ unless_expired 7 (lookup "j" stored_once.jobs))
    × ((get_request 7 "j" stored_once).0 ≡ (
        if has_expired 7 (lookup "j" stored_once.jobs)
        then none
        else lookup "j" stored_once.requests))
    × (results_of "j" (cleanup_expired 7 stored_once)
        ≡ (if has_expired 7 (lookup "j" stored_once.jobs) then [] else results_of "j" stored_once))
cleanup_expired_exact_example = cleanup_expired_exact 7 stored_once "j" (refl, tt)

recover_interrupted_exact_example :
    IsRecovered 7 60
      (values (results_of "j" stored_once))
      (lookup "j" stored_once.jobs)
      (lookup "j" (recover_interrupted 7 60 stored_once).jobs)
    × (is_left_open (lookup "j" (recover_interrupted 7 60 stored_once).jobs) ≡ false)
    × (results_of "j" (recover_interrupted 7 60 stored_once) ≡ results_of "j" stored_once)
recover_interrupted_exact_example = recover_interrupted_exact 7 60 stored_once "j" (refl, tt)

submit-replay_example :
    let m' = (submit lib 5 "j" request (some "k") fresh).1 in
    submit lib 9 "i" request (some "k") m' ≡ (
      ok (record { job_id = "j"; status = JobStatus.queued }),
      record m' { repository = cleanup_expired 9 m'.repository },
    )
unfolding program
submit-replay_example =
    submit-replay lib 5 9 "j" "i" "k" request request fresh empty-IsUnique refl refl refl refl

-- A manager that finds the job failed with one of its two results.
abbrev broken_job : StoredJob
broken_job = record job {
  status = JobStatus.failed;
  completed = 1;
  success = 1;
  expires_at = some 100;
}

abbrev broken : Manager
broken = record fresh { repository = record stored_once { jobs = ("j", broken_job) ∷ [] } }

resume-pending_example :
    (a : ActiveJob) × ((resume lib 7 "j" broken).0
      ≡ ok (some (record { job_id = "j"; status = JobStatus.queued })))
    × (lookup "j" (resume lib 7 "j" broken).1.active_jobs ≡ some a)
    × (lookup "j" (resume lib 7 "j" broken).1.tasks ≡ some tt)
    × (a.request.items
        ≡ select (λ i. not (contains (result_ids (result "a" ∷ [])) i.item_id)) request.items)
    × (a.stored.completed ≡ length (result "a" ∷ []))
    × (a.stored.success ≡ tally is_success (result "a" ∷ []))
    × (a.stored.success + a.stored.failed ≡ a.stored.completed)
    × (a.stored.completed + length a.request.items ≡ length request.items)
    × HasResults "j" (result "a" ∷ []) (resume lib 7 "j" broken).1.repository
unfolding program
resume-pending_example =
    resume-pending lib 7 "j" broken_job request (result "a" ∷ []) broken (refl, tt) refl refl refl
      refl refl refl refl (refl, tt) (refl, tt)

abbrev running : Manager
running = record fresh {
  repository = stored_once;
  active_jobs = ("j", record { stored = job; request = request }) ∷ [];
  tasks = ("j", tt) ∷ [];
}

abbrev normalize : Normalize
normalize name = some name

abbrev one_item : ActiveJob
one_item = record { stored = job; request = record { items = item "a" ∷ []; webhook_url = none } }

abbrev waiting : Repository
waiting = record { jobs = ("j", job) ∷ []; requests = []; results = [] }

abbrev begun : Run
begun = begin normalize config false 3 one_item waiting

-- The cancellation finds the task in its execution, while a worker stores a result.
abbrev in_execution : TaskEnd
in_execution = executing 8 8 90 none (λ n. http_error) begun ((result "a", 60) ∷ [])

cancel-status_example :
    let m' = (cancel lib 7 "j" in_execution running).1 in
    (j : StoredJob) × ((cancel lib 7 "j" in_execution running).0 ≡ some (status_response j))
    × IsMarked config 7 "j" j m'.repository
    × ((get_status 9 "j" m').0
        ≡ (if leb (7 + 86400 * 1000000) 9 then none else some (status_response j)))
    × ((cancel lib 9 "j" unstarted m').0
        ≡ (if leb (7 + 86400 * 1000000) 9 then none else some (status_response j)))
unfolding program
cancel-status_example =
    cancel-status lib 7 9 "j" in_execution unstarted running job
      (record { stored = job; request = request }) (refl, tt) refl refl refl refl refl

abbrev after_take : Run
after_take = elim (take_item "all" begun) [ some run ↦ run | none ↦ begun ]

abbrev answer : JobItemResponse
answer = collect_one lib normalize config (item "a") timed_out 90000

abbrev at_end : Run
at_end = finish lib config "all" (item "a") answer 90000 after_take

trace : Trace lib config begun (bounded_result lib config answer ∷ []) at_end
unfolding program
trace = done "all" (item "a") answer 90000 (take "all" start refl) (omega arith) refl

begin_complete_example :
    ((id : String)
      → tally (λ x. x.item_id == id) (bounded_result lib config answer ∷ [])
        ≡ tally (λ i. i.item_id == id) one_item.request.items)
    × IsAccounted (bounded_result lib config answer ∷ []) at_end
    × (at_end.stored.completed ≡ one_item.stored.completed + length one_item.request.items)
unfolding program
begin_complete_example =
    begin_complete lib normalize config false 3 one_item waiting []
      (bounded_result lib config answer ∷ []) at_end refl refl refl refl refl trace refl

abbrev post : ℕ → Delivery
post n = if n == 2 then accepted else http_error

run_end-IsClosed_example :
    let s = (run_end lib config 7 8 90 (some 2) post exhausted false request at_end).0 in
    IsClosed config "j" s.0 s.1
unfolding program
run_end-IsClosed_example =
    run_end-IsClosed lib config 7 8 90 (some 2) post exhausted false request at_end refl (λ e. cc)

read_all-exact_example : read_all 3 lib 7 "j" 1 none broken ≡ some (result "a" ∷ [])
unfolding lookup
read_all-exact_example =
    read_all-exact lib 7 "j" 1 3 broken_job (result "a" ∷ []) broken refl (refl, tt) refl refl refl
      strokes_codec (omega arith) refl refl (omega arith)
