-- ===== src/Jobs/Service/Cancellation.antt =====
-- `cancel` of BatchJobManager (app/services/job_service.py): the step under the lock, and then the
-- end of the task that it cancels and awaits.
pub mod Marked
pub mod Reported
use creator_engagement_proje.Base.{
  ℕ, String, Bool, true, false, Option, none, some, List, [], ◌∷◌, string_key,
}
use creator_engagement_proje.Base.Dict.{lookup, pop}
use creator_engagement_proje.Models.{StoredJob, CreateJobRequest, JobItemResponse}
use creator_engagement_proje.Jobs.Memory.{Repository}
use creator_engagement_proje.Jobs.Service.{
  Library, Config, ActiveJob, Manager, JobStatusResponse, status_response,
}
use creator_engagement_proje.Jobs.Service.Submission.{cancel_locked}
use creator_engagement_proje.Jobs.Service.Execution.{
  Run, Delivery, interrupted, cancelled, persist_result, bounded_result, close_job, run_end,
}

-- Where the cancellation finds the task of a job: before its first step, so that nothing of it
-- runs; before the execution of the job; or in it. In the last case `run` has the queues and the
-- accounts of the run, and `writes` are the results, with the times, that workers are storing and
-- whose storing they await before they end. A cancellation that finds the closing of a run is not
-- modelled.
pub data TaskEnd : Type 0 where
  unstarted : TaskEnd
  waiting : (later : ℕ) (post : ℕ → Delivery) → TaskEnd
  executing :
      (now later elapsed : ℕ) (usage : Option ℕ) (post : ℕ → Delivery) (run : Run)
      (writes : List (JobItemResponse × ℕ))
      → TaskEnd

-- The workers' `await write_task` on a cancellation.
unfoldable pub finish_writes : Library → Config → List (JobItemResponse × ℕ) → Run → Run
unfolding persist_result bounded_result
finish_writes lib config [] run = run
finish_writes lib config ((result, elapsed) ∷ writes) run =
    finish_writes lib config writes (persist_result elapsed (bounded_result lib config result) run)

-- The job and the repository when the cancelled task has ended. The run has the job in common with
-- `cancel`.
unfoldable pub end_of_task :
    Library → Config → TaskEnd → CreateJobRequest → StoredJob → Repository → StoredJob × Repository
unfolding finish_writes close_job run_end
end_of_task lib config unstarted request stored r = (stored, r)
end_of_task lib config (waiting later post) request stored r =
    (close_job lib config later post cancelled request stored r).0
end_of_task lib config (executing now later elapsed usage post run writes) request stored r =
    (run_end lib config now later elapsed usage post interrupted false request
      (finish_writes lib config writes (record run { stored = stored; repository = r }))).0

-- The `finally` of `_run_job`, which a task that never started does not come to.
abbrev pub forget_task : TaskEnd → String → Manager → Manager
forget_task unstarted job_id m = m
forget_task (waiting later post) job_id m = record m {
  active_jobs = pop job_id m.active_jobs;
  tasks = pop job_id m.tasks;
}
forget_task (executing now later elapsed usage post run writes) job_id m = record m {
  active_jobs = pop job_id m.active_jobs;
  tasks = pop job_id m.tasks;
}

abbrev pub active_request : Option ActiveJob → CreateJobRequest
active_request none = record { items = []; webhook_url = none }
active_request (some active) = active.request

-- After the lock: the job to report on, and whether a task of it is cancelled.
unfoldable pub after_lock :
    Library
    → String
    → TaskEnd
    → Option (StoredJob × Bool)
    → Manager
    → Option JobStatusResponse × Manager
unfolding end_of_task
after_lock lib job_id ending none m = (none, m)
after_lock lib job_id ending (some (stored, false)) m = (some (status_response stored), m)
after_lock lib job_id ending (some (stored, true)) m =
    let (ended, r) =
      end_of_task lib m.config ending (active_request (lookup job_id m.active_jobs)) stored
        m.repository in
    (some (status_response ended), forget_task ending job_id (record m { repository = r }))

unfoldable pub cancel :
    Library → ℕ → String → TaskEnd → Manager → Option JobStatusResponse × Manager
unfolding cancel_locked after_lock
cancel lib now job_id ending m =
    let (report, m') = cancel_locked now job_id m in after_lock lib job_id ending report m'
