-- ===== src/Jobs/Memory.antt =====
-- MemoryJobRepository of app/repositories/job_repository.py. Each method takes the instant that
-- `datetime.now` gives and returns the repository that it leaves. The copies that the methods make
-- (`replace`, `model_copy`) are the values themselves.
pub mod Drop
pub mod Expiry
pub mod Idempotency
pub mod Replay
pub mod Pages
pub mod Recovery
pub mod Update
use creator_engagement_proje.Base.{
  ℕ, zero, suc, ◌+◌, ◌-◌, ◌*◌, String, ◌≡◌, Bool, true, false, not, ◌&&◌, ◌||◌, Option, none, some,
  List, [], ◌∷◌, map, arith, ltb, leb, if◌then◌else◌, ◌==◌, option_beq, string_key, nat_key, any,
  select, first, tally, length, take,
}
use creator_engagement_proje.Base.Dict.{Dict, keys, values, lookup, insert, pop}
use creator_engagement_proje.Models.{
  StoredJob, CreateJobRequest, JobItemResponse, JobStatus, WebhookStatus, CollectStatus, is_open,
  is_success,
}

pub record Repository : Type 0 where
  pub jobs : Dict String StoredJob
  pub requests : Dict String CreateJobRequest
  pub results : Dict String (Dict ℕ JobItemResponse)

abbrev pub empty : Repository
empty = record { jobs = []; requests = []; results = [] }

-- DuplicateIdempotencyKeyError, beside a value.
pub data Outcome {ℓ} (A : Type ℓ) : Type ℓ where
  ok : A → Outcome A
  duplicate_idempotency_key : Option String → Outcome A

-- timedelta(seconds=n)
abbrev pub seconds : ℕ → ℕ
seconds n = n * 1000000

-- job.expires_at is not None and job.expires_at <= now
abbrev pub is_expired : ℕ → StoredJob → Bool
is_expired now job = elim job.expires_at [ none ↦ false | some t ↦ leb t now ]

unfoldable pub expired : ℕ → Dict String StoredJob → List String
expired now jobs = keys (select (λ e. is_expired now e.1) jobs)

unfoldable pub forget : String → Repository → Repository
forget k r = record { jobs = pop k r.jobs; requests = pop k r.requests; results = pop k r.results }

unfoldable pub forget_all : List String → Repository → Repository
forget_all [] r = r
forget_all (k ∷ ks) r = forget_all ks (forget k r)

unfoldable pub cleanup_expired : ℕ → Repository → Repository
unfolding expired forget forget_all
cleanup_expired now r = forget_all (expired now r.jobs) r

unfoldable pub initialize : ℕ → Repository → Repository
initialize now r = cleanup_expired now r

-- The truth value of an optional text.
abbrev pub truthy : Option String → Bool
truthy none = false
truthy (some s) = not (s == "")

unfoldable pub store : StoredJob → CreateJobRequest → Repository → Repository
store job request r = record {
  jobs = insert job.job_id job r.jobs;
  requests = insert job.job_id request r.requests;
  results = insert job.job_id [] r.results;
}

-- any(existing.idempotency_key == job.idempotency_key for existing in self._jobs.values())
abbrev pub key_taken : Option String → Dict String StoredJob → Bool
key_taken key jobs = any (λ e. option_beq e.1.idempotency_key key) jobs

unfoldable pub create_job :
    ℕ → StoredJob → CreateJobRequest → Repository → Outcome (Unit {0}) × Repository
unfolding store
create_job now job request r =
    let r' = cleanup_expired now r in
    if truthy job.idempotency_key && key_taken job.idempotency_key r'.jobs
    then (duplicate_idempotency_key job.idempotency_key, r')
    else (ok tt, store job request r')

unfoldable pub get_job : ℕ → String → Repository → Option StoredJob × Repository
get_job now job_id r = let r' = cleanup_expired now r in (lookup job_id r'.jobs, r')

unfoldable pub find_by_idempotency_key : ℕ → String → Repository → Option StoredJob × Repository
find_by_idempotency_key now key r =
    let r' = cleanup_expired now r in
    (first (λ job. option_beq job.idempotency_key (some key)) (values r'.jobs), r')

unfoldable pub update_job : StoredJob → Repository → Repository
update_job job r = elim (lookup job.job_id r.jobs) [
  | some _ ↦ record r { jobs = insert job.job_id job r.jobs }
  | none ↦ r
]

-- self._results.get(job_id, {})
abbrev pub results_of : String → Repository → Dict ℕ JobItemResponse
results_of job_id r = elim (lookup job_id r.results) [ some results ↦ results | none ↦ [] ]

unfoldable pub append_result : String → ℕ → JobItemResponse → Repository → Repository
append_result job_id sequence result r = record r {
  results = insert job_id (insert sequence result (results_of job_id r)) r.results;
}

-- sorted(results), with the value of each key.
unfoldable pub insert_sorted : ℕ × JobItemResponse → Dict ℕ JobItemResponse → Dict ℕ JobItemResponse
insert_sorted x [] = x ∷ []
insert_sorted x (y ∷ ys) =
    let rest = insert_sorted x ys in if leb x.0 y.0 then x ∷ y ∷ ys else y ∷ rest

unfoldable pub sorted : Dict ℕ JobItemResponse → Dict ℕ JobItemResponse
sorted [] = []
sorted (x ∷ xs) = insert_sorted x (sorted xs)

unfoldable pub page_of : ℕ → ℕ → Dict ℕ JobItemResponse → List JobItemResponse
unfolding sorted insert_sorted
page_of offset limit results = take limit (values (select (λ e. leb offset e.0) (sorted results)))

unfoldable pub get_results : ℕ → String → ℕ → ℕ → Repository → List JobItemResponse × Repository
unfolding page_of
get_results now job_id offset limit r =
    let r' = cleanup_expired now r in (page_of offset limit (results_of job_id r'), r')

abbrev pub restart_error : String
restart_error = "服务重启，任务未完成"

abbrev pub shutdown_error : String
shutdown_error = "服务关闭，任务未完成"

abbrev pub is_interrupted_error : Option String → Bool
is_interrupted_error none = false
is_interrupted_error (some e) = e == shutdown_error || e == restart_error

-- `replace(job, status="failed", …)` of one interrupted job.
unfoldable pub interrupted : ℕ → ℕ → List JobItemResponse → StoredJob → StoredJob
interrupted now retention_seconds results job = record job {
  status = JobStatus.failed;
  completed = length results;
  success = tally is_success results;
  failed = length results - tally is_success results;
  finished_at = some now;
  webhook_status = elim job.webhook_status [
    | some WebhookStatus.pending ↦ some WebhookStatus.failed
    | other ↦ other
  ];
  error = some restart_error;
  expires_at = some (now + seconds retention_seconds);
}

-- The loop over list(self._jobs.items()).
unfoldable pub recover_each : ℕ → ℕ → Dict String StoredJob → Repository → Repository
recover_each now retention_seconds [] r = r
recover_each now retention_seconds ((job_id, job) ∷ rest) r =
    recover_each now retention_seconds rest (
      if is_open job.status
      then record r {
        jobs =
            insert job_id (interrupted now retention_seconds (values (results_of job_id r)) job)
              r.jobs;
      }
      else r)

unfoldable pub recover_interrupted : ℕ → ℕ → Repository → Repository
unfolding interrupted recover_each
recover_interrupted now retention_seconds r = recover_each now retention_seconds r.jobs r

unfoldable pub get_completed_items :
    ℕ → String → Repository → List (String × CollectStatus) × Repository
get_completed_items now job_id r =
    let r' = cleanup_expired now r in
    (map (λ result. (result.item_id, result.status)) (values (results_of job_id r')), r')

unfoldable pub get_request : ℕ → String → Repository → Option CreateJobRequest × Repository
get_request now job_id r = let r' = cleanup_expired now r in (lookup job_id r'.requests, r')

abbrev pub is_interrupted : StoredJob → Bool
is_interrupted job =
    elim job.status [ JobStatus.failed ↦ true | _ ↦ false ]
    && is_interrupted_error job.error
    && not job.cancel_requested

unfoldable pub get_interrupted_jobs : ℕ → Repository → List StoredJob × Repository
get_interrupted_jobs now r =
    let r' = cleanup_expired now r in (select is_interrupted (values r'.jobs), r')
