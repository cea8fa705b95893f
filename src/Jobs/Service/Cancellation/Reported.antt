-- ===== src/Jobs/Service/Cancellation/Reported.antt =====
-- What `cancel` of BatchJobManager (app/services/job_service.py) promises.
use creator_engagement_proje.Base.{
  ℕ, ◌+◌, ◌*◌, String, ◌≡◌, refl, true, false, not, Bool, none, some, ap, ◌∙◌, sym, subst, leb,
  arith, if◌then◌else◌, string_key, is_none, IsDistinct,
}
use creator_engagement_proje.Base.Dict.{lookup, keys, insert}
use creator_engagement_proje.Models.{StoredJob, is_open}
use creator_engagement_proje.Jobs.Memory.{get_job, cleanup_expired, update_job, is_expired}
use creator_engagement_proje.Jobs.Memory.Expiry.{jobs-cleanup_expired, cleanup_expired-IsDistinct}
use creator_engagement_proje.Jobs.Memory.Update.{update_job_self, update_job-IsDistinct}
use creator_engagement_proje.Jobs.Service.{
  Library, Config, ActiveJob, Manager, status_response, ensure_initialized,
}
use creator_engagement_proje.Jobs.Service.Submission.{cancelled_job, cancel_locked, get_status}
use creator_engagement_proje.Jobs.Service.Cancellation.{
  TaskEnd, unstarted, waiting, executing, active_request, after_lock, cancel,
}
use creator_engagement_proje.Jobs.Service.Cancellation.Marked.{IsMarked, IsMarked-end_of_task}

-- A manager that is initialized and whose repository holds a job that is marked.
abbrev IsHeld : Config → ℕ → String → StoredJob → Manager → Type 0
IsHeld config now job_id job m =
    IsMarked config now job_id job m.repository × (m.initialized ≡ true)

after_lock-IsHeld :
    (lib : Library) (now : ℕ) (job_id : String) (ending : TaskEnd) (job : StoredJob)
    (has_task : Bool) (m : Manager)
    → IsHeld m.config now job_id job m
    → let done = after_lock lib job_id ending (some (job, has_task)) m in
      (job' : StoredJob) × (done.0 ≡ some (status_response job'))
      × IsHeld m.config now job_id job' done.1
unfolding after_lock
after_lock-IsHeld lib now job_id ending job false m h = (job, refl, h)
after_lock-IsHeld lib now job_id unstarted job true m h = (
  _,
  refl,
  (
    IsMarked-end_of_task m.config now job_id lib unstarted
        (active_request (lookup job_id m.active_jobs)) job m.repository h.0,
    h.1,
  ),
)
after_lock-IsHeld lib now job_id (waiting later post) job true m h = (
  _,
  refl,
  (
    IsMarked-end_of_task m.config now job_id lib (waiting later post)
        (active_request (lookup job_id m.active_jobs)) job m.repository h.0,
    h.1,
  ),
)
after_lock-IsHeld lib now job_id (executing at later elapsed usage post run writes) job true m h = (
  _,
  refl,
  (
    IsMarked-end_of_task m.config now job_id lib (executing at later elapsed usage post run writes)
        (active_request (lookup job_id m.active_jobs)) job m.repository h.0,
    h.1,
  ),
)

after_lock-IsHeld-same :
    (lib : Library) (config : Config) (now : ℕ) (job_id : String) (ending : TaskEnd)
    (job : StoredJob) (has_task : Bool) (m : Manager)
    → m.config ≡ config
    → IsHeld config now job_id job m
    → let done = after_lock lib job_id ending (some (job, has_task)) m in
      (job' : StoredJob) × (done.0 ≡ some (status_response job'))
      × IsHeld config now job_id job' done.1
after_lock-IsHeld-same lib config now job_id ending job has_task m same =
    subst
      (λ c.
        IsHeld c now job_id job m
        → let done = after_lock lib job_id ending (some (job, has_task)) m in
          (job' : StoredJob) × (done.0 ≡ some (status_response job'))
          × IsHeld c now job_id job' done.1)
      same (after_lock-IsHeld lib now job_id ending job has_task m)

module _ (now : ℕ) (job_id : String) (m : Manager) where
  abbrev begun : Manager
  begun = ensure_initialized now m

  abbrev marked_manager : ActiveJob → Manager
  marked_manager active =
      let job = cancelled_job now m.config active.stored in
      record begun {
        active_jobs = insert job_id (record active { stored = job }) begun.active_jobs;
        repository = update_job job (cleanup_expired now begun.repository);
      }

  cancel_locked_open :
      (stored : StoredJob) (active : ActiveJob)
      → (get_job now job_id begun.repository).0 ≡ some stored
      → is_open stored.status ≡ true
      → lookup job_id m.active_jobs ≡ some active
      → cancel_locked now job_id m ≡ (
        some (cancelled_job now m.config active.stored, not (is_none (lookup job_id m.tasks))),
        marked_manager active,
      )
  unfolding cancel_locked get_job ensure_initialized
  cancel_locked_open stored active found opened running = ground (arith, found, opened, running)

  marked_manager-IsHeld :
      (stored : StoredJob) (active : ActiveJob)
      → IsDistinct (keys begun.repository.jobs)
      → (get_job now job_id begun.repository).0 ≡ some stored
      → active.stored.job_id ≡ job_id
      → IsHeld m.config now job_id
          (cancelled_job now m.config active.stored)
          (marked_manager active)
  unfolding cancelled_job get_job
  marked_manager-IsHeld stored active distinct found own = (
    record {
      status = refl;
      requested = refl;
      error = refl;
      finished_at = refl;
      expires_at = refl;
      own = own;
      in_sync =
          ap (λ i. lookup i (marked_manager active).repository.jobs) (sym own)
          ∙ update_job_self (cancelled_job now m.config active.stored) stored
              (cleanup_expired now begun.repository)
              (ap (λ i. lookup i (cleanup_expired now begun.repository).jobs) own ∙ found);
      distinct =
          update_job-IsDistinct (cancelled_job now m.config active.stored)
            (cleanup_expired now begun.repository)
            (cleanup_expired-IsDistinct now begun.repository distinct);
    },
    unfold ensure_initialized in ground arith,
  )

-- What is seen of a job that is marked.
module _ (lib : Library) (config : Config) (now later : ℕ) (job_id : String) (job : StoredJob)
    (m : Manager) (h : IsHeld config now job_id job m) where
  abbrev over : Bool
  over = leb (now + config.retention_seconds * 1000000) later

  get_status-IsHeld :
      (get_status later job_id m).0 ≡ (if over then none else some (status_response job))
  unfolding get_status get_job ensure_initialized
  get_status-IsHeld = ground (
    arith,
    h.1,
    h.0.in_sync,
    h.0.expires_at,
    jobs-cleanup_expired later m.repository h.0.distinct job_id,
  )

  cancel-IsHeld :
      (ending : TaskEnd)
      → (cancel lib later job_id ending m).0 ≡ (if over then none else some (status_response job))
  unfolding cancel cancel_locked after_lock get_job ensure_initialized
  cancel-IsHeld ending = ground (
    arith,
    h.1,
    h.0.in_sync,
    h.0.expires_at,
    h.0.status,
    jobs-cleanup_expired later m.repository h.0.distinct job_id,
  )

-- Cancelling a job that is queued or running and has not expired, whether the cancellation finds its
-- task, if it has one, before its first step, before the job's execution or in it, whatever results
-- are being stored then, and whatever becomes of the webhook: when the task has ended the answer
-- reports a job that is cancelled, with its finishing time, and stored as it is reported. From then
-- on, until the retention time has passed, a status request shows that job, and another
-- cancellation reports it again; when the retention time has passed neither finds it.
pub cancel-status :
    (lib : Library) (now later : ℕ) (job_id : String) (ending other : TaskEnd) (m : Manager)
    (stored : StoredJob) (active : ActiveJob)
    → let r = (ensure_initialized now m).repository in
      IsDistinct (keys r.jobs)
      → lookup job_id r.jobs ≡ some stored
      → is_expired now stored ≡ false
      → is_open stored.status ≡ true
      → lookup job_id m.active_jobs ≡ some active
      → active.stored.job_id ≡ job_id
      → let m' = (cancel lib now job_id ending m).1 in
        let over = leb (now + m.config.retention_seconds * 1000000) later in
        (job : StoredJob) × ((cancel lib now job_id ending m).0 ≡ some (status_response job))
        × IsMarked m.config now job_id job m'.repository
        × ((get_status later job_id m').0 ≡ (if over then none else some (status_response job)))
        × ((cancel lib later job_id other m').0
            ≡ (if over then none else some (status_response job)))
unfolding cancel
cancel-status lib now later job_id ending other m stored active dist there live opened running own =
    let r = (ensure_initialized now m).repository in
    let found : (get_job now job_id r).0 ≡ some stored =
      unfold get_job in ground (arith, jobs-cleanup_expired now r dist job_id) in
    rw (cancel_locked_open now job_id m stored active found opened running) (
      let done =
        after_lock-IsHeld-same lib m.config now job_id ending
          (cancelled_job now m.config active.stored) (not (is_none (lookup job_id m.tasks)))
          (marked_manager now job_id m active) (unfold ensure_initialized in ground arith)
          (marked_manager-IsHeld now job_id m stored active dist found own) in
      (
        done.0,
        done.1,
        done.2.0,
        get_status-IsHeld lib m.config now later job_id done.0 _ done.2,
        cancel-IsHeld lib m.config now later job_id done.0 _ done.2 other,
      ))
