-- ===== src/Jobs/Memory/Recovery.antt =====
-- What `recover_interrupted` of MemoryJobRepository does to the jobs that a restart found open.
use creator_engagement_proje.Base.{
  ℕ, ◌+◌, ◌*◌, String, ◌≡◌, refl, false, Option, none, some, List, [], ◌∷◌, arith, Bool-cases, inl,
  inr, if◌then◌else◌, string_key, IsDistinct, tally-le-length, length, Bool, tally,
}
use creator_engagement_proje.Base.Dict.{
  Dict, keys, values, lookup, insert, lookup-insert, contains-keys,
}
use creator_engagement_proje.Models.{
  JobStatus, WebhookStatus, StoredJob, JobItemResponse, is_open, is_success,
}
use creator_engagement_proje.Jobs.Memory.{
  Repository, interrupted, recover_each, recover_interrupted, results_of, restart_error,
}

-- The status of a webhook that was pending is failed.
abbrev webhook_after : Option WebhookStatus → Option WebhookStatus
webhook_after (some WebhookStatus.pending) = some WebhookStatus.failed
webhook_after (some WebhookStatus.sent) = some WebhookStatus.sent
webhook_after (some WebhookStatus.failed) = some WebhookStatus.failed
webhook_after none = none

-- A job that was open and the same job after a restart, given its results: what changes and to
-- what, and that nothing else does.
pub record IsRestarted (now retention : ℕ) (results : List JobItemResponse)
    (before after : StoredJob) : Type 0 where
  pub status : after.status ≡ JobStatus.failed
  pub error : after.error ≡ some restart_error
  pub completed : after.completed ≡ length results
  pub success : after.success ≡ tally is_success results
  pub shared : after.success + after.failed ≡ after.completed
  pub finished_at : after.finished_at ≡ some now
  pub expires_at : after.expires_at ≡ some (now + retention * 1000000)
  pub webhook : after.webhook_status ≡ webhook_after before.webhook_status
  pub same : after ≡ record before {
    status = after.status;
    error = after.error;
    completed = after.completed;
    success = after.success;
    failed = after.failed;
    finished_at = after.finished_at;
    expires_at = after.expires_at;
    webhook_status = after.webhook_status;
  }

-- The stored job of an identifier before a restart and after it: a queued or running one is
-- restarted, another one and a missing one stay.
abbrev IsRestartedIf :
    JobStatus → ℕ → ℕ → List JobItemResponse → StoredJob → Option StoredJob → Type 0
IsRestartedIf JobStatus.queued now retention results job after =
    (job' : StoredJob) × (after ≡ some job') × IsRestarted now retention results job job'
IsRestartedIf JobStatus.running now retention results job after =
    (job' : StoredJob) × (after ≡ some job') × IsRestarted now retention results job job'
IsRestartedIf JobStatus.completed now retention results job after = after ≡ some job
IsRestartedIf JobStatus.failed now retention results job after = after ≡ some job
IsRestartedIf JobStatus.cancelled now retention results job after = after ≡ some job

abbrev pub IsRecovered : ℕ → ℕ → List JobItemResponse → Option StoredJob → Option StoredJob → Type 0
IsRecovered now retention results none after = after ≡ none
IsRecovered now retention results (some job) after =
    IsRestartedIf job.status now retention results job after

results-recover_each :
    (now retention : ℕ) (entries : Dict String StoredJob) (r : Repository)
    → (recover_each now retention entries r).results ≡ r.results
unfolding recover_each
results-recover_each now retention [] r = refl
results-recover_each now retention ((k, job) ∷ rest) r = elim (Bool-cases (is_open job.status)) [
  | inl found ↦ rw (found, recover_each) (results-recover_each now retention rest _)
  | inr closed ↦ rw (closed, recover_each) (results-recover_each now retention rest r)
]

after : ℕ → ℕ → Dict ℕ JobItemResponse → Option StoredJob → Option StoredJob → Option StoredJob
after now retention results listed stored = elim listed [
  | none ↦ stored
  | some job ↦
      if is_open job.status then some (interrupted now retention (values results) job) else stored
]

jobs-recover_each :
    (now retention : ℕ) (entries : Dict String StoredJob) (r : Repository) (i : String)
    → IsDistinct (keys entries)
    → lookup i (recover_each now retention entries r).jobs
      ≡ after now retention (results_of i r) (lookup i entries) (lookup i r.jobs)
unfolding recover_each lookup after
jobs-recover_each now retention [] r i dist = refl
jobs-recover_each now retention ((k, job) ∷ rest) r i dist =
    elim (Bool-cases (is_open job.status)) [
      | inl found ↦
          let job' = interrupted now retention (values (results_of k r)) job in
          let r' : Repository = record r { jobs = insert k job' r.jobs } in
          rw (found, recover_each)
            (ground (
              arith,
              found,
              jobs-recover_each now retention rest r' i dist.1,
              lookup-insert k i job' r.jobs,
              contains-keys k rest,
              string_key.same_iff k i,
            ))
      | inr closed ↦
          rw (closed, recover_each)
            (ground (
              arith,
              closed,
              jobs-recover_each now retention rest r i dist.1,
              contains-keys k rest,
              string_key.same_iff k i,
            ))
    ]

abbrev pub recovered : ℕ → ℕ → List JobItemResponse → Option StoredJob → Option StoredJob
recovered now retention results none = none
recovered now retention results (some job) =
    if is_open job.status then some (interrupted now retention results job) else some job

pub jobs-recover_interrupted :
    (now retention : ℕ) (r : Repository) (i : String)
    → IsDistinct (keys r.jobs)
    → lookup i (recover_interrupted now retention r).jobs
      ≡ recovered now retention (values (results_of i r)) (lookup i r.jobs)
unfolding recover_interrupted after
jobs-recover_interrupted now retention r i dist =
    ground (arith, jobs-recover_each now retention r.jobs r i dist)

interrupted-IsRestarted :
    (now retention : ℕ) (results : List JobItemResponse) (job : StoredJob)
    → IsRestarted now retention results job (interrupted now retention results job)
unfolding interrupted
interrupted-IsRestarted now retention results job = record {
  status = refl;
  error = refl;
  completed = refl;
  success = refl;
  shared = omega (arith, tally-le-length is_success results);
  finished_at = refl;
  expires_at = refl;
  webhook = elim job.webhook_status [
    | none ↦ refl
    | some status ↦ elim status [
      | WebhookStatus.pending ↦ refl
      | WebhookStatus.sent ↦ refl
      | WebhookStatus.failed ↦ refl
    ]
  ];
  same = refl;
}

recovered-IsRestartedIf :
    (status : JobStatus) (now retention : ℕ) (results : List JobItemResponse) (job : StoredJob)
    → IsRestartedIf status now retention results job
        (if is_open status then some (interrupted now retention results job) else some job)
recovered-IsRestartedIf JobStatus.queued now retention results job =
    (_, refl, interrupted-IsRestarted now retention results job)
recovered-IsRestartedIf JobStatus.running now retention results job =
    (_, refl, interrupted-IsRestarted now retention results job)
recovered-IsRestartedIf JobStatus.completed now retention results job = refl
recovered-IsRestartedIf JobStatus.failed now retention results job = refl
recovered-IsRestartedIf JobStatus.cancelled now retention results job = refl

recovered-IsRecovered :
    (now retention : ℕ) (results : List JobItemResponse) (stored : Option StoredJob)
    → IsRecovered now retention results stored (recovered now retention results stored)
recovered-IsRecovered now retention results none = refl
recovered-IsRecovered now retention results (some job) =
    recovered-IsRestartedIf job.status now retention results job

abbrev pub is_left_open : Option StoredJob → Bool
is_left_open none = false
is_left_open (some job) = is_open job.status

is_left_open-recovered :
    (now retention : ℕ) (results : List JobItemResponse) (stored : Option StoredJob)
    → is_left_open (recovered now retention results stored) ≡ false
unfolding interrupted
is_left_open-recovered now retention results none = refl
is_left_open-recovered now retention results (some job) = ground arith

-- After a restart every job that was queued or running is failed with the restart error, its
-- counters are those of the results that were stored, its webhook is failed if it was pending, it
-- expires after the retention time and nothing else of it changes; every other job is as it was, no
-- job is queued or running, and no result has changed.
pub recover_interrupted_exact :
    (now retention : ℕ) (r : Repository) (i : String)
    → IsDistinct (keys r.jobs)
    → IsRecovered now retention
        (values (results_of i r))
        (lookup i r.jobs)
        (lookup i (recover_interrupted now retention r).jobs)
      × (is_left_open (lookup i (recover_interrupted now retention r).jobs) ≡ false)
      × (results_of i (recover_interrupted now retention r) ≡ results_of i r)
recover_interrupted_exact now retention r i dist =
    rw (jobs-recover_interrupted now retention r i dist) (
      recovered-IsRecovered now retention (values (results_of i r)) (lookup i r.jobs),
      is_left_open-recovered now retention (values (results_of i r)) (lookup i r.jobs),
      (unfold recover_interrupted in ground (arith, results-recover_each now retention r.jobs r)),
    )
