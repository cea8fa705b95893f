-- ===== src/Jobs/Service/Cancellation/Marked.antt =====
-- What the end of a cancelled task (app/services/job_service.py) leaves of the marks of its job.
use creator_engagement_proje.Base.{
  ℕ, ◌+◌, ◌*◌, String, ◌≡◌, refl, true, false, ◌&&◌, Bool, Option, none, some, List, [], ◌∷◌, ap,
  ◌∙◌, sym, arith, string_key, IsDistinct, Bool-cases, inl, inr,
}
use creator_engagement_proje.Base.Dict.{lookup, keys}
use creator_engagement_proje.Models.{
  StoredJob, JobStatus, CreateJobRequest, JobItemResponse, WebhookStatus, is_open,
}
use creator_engagement_proje.Jobs.Memory.{Repository, update_job, append_result}
use creator_engagement_proje.Jobs.Memory.Update.{update_job_self, update_job-IsDistinct}
use creator_engagement_proje.Jobs.Service.{Library, Config}
use creator_engagement_proje.Jobs.Service.Execution.{
  Run, Delivery, interrupted, cancelled, persist_result, bounded_result, close_job, run_end, settle,
  send_webhook, after_webhook, deliver, unsent, is_some_text,
}
use creator_engagement_proje.Jobs.Service.Cancellation.{
  TaskEnd, unstarted, waiting, executing, finish_writes, end_of_task,
}

-- The job is marked cancelled at an instant, expires the retention time after it, and is stored as
-- it is.
pub record IsMarked (config : Config) (now : ℕ) (job_id : String) (job : StoredJob) (r : Repository)
    : Type 0 where
  pub status : job.status ≡ JobStatus.cancelled
  pub requested : job.cancel_requested ≡ true
  pub error : job.error ≡ some "任务已由调用方取消"
  pub finished_at : job.finished_at ≡ some now
  pub expires_at : job.expires_at ≡ some (now + config.retention_seconds * 1000000)
  pub own : job.job_id ≡ job_id
  pub in_sync : lookup job_id r.jobs ≡ some job
  pub distinct : IsDistinct (keys r.jobs)

module _ (config : Config) (now : ℕ) (job_id : String) where
  -- An update that leaves the marks.
  IsMarked-update_job :
      (job next : StoredJob) (r : Repository)
      → IsMarked config now job_id job r
      → next.status ≡ job.status
      → next.cancel_requested ≡ job.cancel_requested
      → next.error ≡ job.error
      → next.finished_at ≡ some now
      → next.expires_at ≡ some (now + config.retention_seconds * 1000000)
      → next.job_id ≡ job.job_id
      → IsMarked config now job_id next (update_job next r)
  IsMarked-update_job job next r h status requested error finished expires own = record {
    status = status ∙ h.status;
    requested = requested ∙ h.requested;
    error = error ∙ h.error;
    finished_at = finished;
    expires_at = expires;
    own = own ∙ h.own;
    in_sync =
        ap (λ i. lookup i (update_job next r).jobs) (sym (own ∙ h.own))
        ∙ update_job_self next job r (ap (λ i. lookup i r.jobs) (own ∙ h.own) ∙ h.in_sync);
    distinct = update_job-IsDistinct next r h.distinct;
  }

  IsMarked-finish_writes :
      (lib : Library) (writes : List (JobItemResponse × ℕ)) (run : Run)
      → IsMarked config now job_id run.stored run.repository
      → let run' = finish_writes lib config writes run in
        IsMarked config now job_id run'.stored run'.repository
  unfolding finish_writes persist_result append_result
  IsMarked-finish_writes lib [] run h = h
  IsMarked-finish_writes lib ((result, elapsed) ∷ writes) run h =
      let bounded = bounded_result lib config result in
      let old = run.stored in
      IsMarked-finish_writes lib writes (persist_result elapsed bounded run) (
        IsMarked-update_job run.stored (persist_result elapsed bounded run).stored
          (append_result old.job_id old.completed bounded run.repository)
          (record {
            status = h.status;
            requested = h.requested;
            error = h.error;
            finished_at = h.finished_at;
            expires_at = h.expires_at;
            own = h.own;
            in_sync = h.in_sync;
            distinct = h.distinct;
          })
          refl refl refl h.finished_at h.expires_at refl)

  IsMarked-settle :
      (at elapsed : ℕ) (usage : Option ℕ) (run : Run)
      → IsMarked config now job_id run.stored run.repository
      → let s = settle config at elapsed usage interrupted run in IsMarked config now job_id s.0 s.1
  unfolding settle
  IsMarked-settle at elapsed usage run h =
      IsMarked-update_job run.stored _ run.repository h refl refl refl
        (ground (arith, h.finished_at)) (ground (arith, h.finished_at)) refl

  IsMarked-send_webhook :
      (post : ℕ → Delivery) (job : StoredJob) (r : Repository)
      → IsMarked config now job_id job r
      → let s = (send_webhook config post job r).0 in IsMarked config now job_id s.0 s.1
  unfolding send_webhook
  IsMarked-send_webhook post job r h = go (deliver config.webhook_max_attempts 1 post) refl
    where
      go :
          (sent : Option WebhookStatus)
          → deliver config.webhook_max_attempts 1 post ≡ sent
          → let s = (send_webhook config post job r).0 in IsMarked config now job_id s.0 s.1
      go none e = rw (e, send_webhook) h
      go (some status) e =
          rw (e, send_webhook)
            (IsMarked-update_job job (record job { webhook_status = some status }) r h refl refl
              refl h.finished_at h.expires_at refl)

  IsMarked-after_webhook :
      (s : (StoredJob × Repository) × Bool)
      → IsMarked config now job_id s.0.0 s.0.1
      → let t = (after_webhook s).0 in IsMarked config now job_id t.0 t.1
  IsMarked-after_webhook ((job, r), true) h = h
  IsMarked-after_webhook ((job, r), false) h =
      IsMarked-update_job job job r h refl refl refl h.finished_at h.expires_at refl

  IsMarked-close_job :
      (lib : Library) (later : ℕ) (post : ℕ → Delivery) (request : CreateJobRequest)
      (job : StoredJob) (r : Repository)
      → IsMarked config now job_id job r
      → let s = (close_job lib config later post cancelled request job r).0 in
        IsMarked config now job_id s.0 s.1
  unfolding close_job
  IsMarked-close_job lib later post request job r h =
      let closed : is_open job.status ≡ false = ap is_open h.status in
      elim (Bool-cases (job.cancel_requested && is_some_text request.webhook_url)) [
        | inl told ↦
            rw (closed, told, close_job)
              (IsMarked-after_webhook (send_webhook config post job r)
                (IsMarked-send_webhook post job r h))
        | inr untold ↦
            rw (closed, untold, close_job)
              (IsMarked-update_job job (unsent job) r h refl refl refl h.finished_at h.expires_at
                refl)
      ]

  pub IsMarked-end_of_task :
      (lib : Library) (ending : TaskEnd) (request : CreateJobRequest) (job : StoredJob)
      (r : Repository)
      → IsMarked config now job_id job r
      → let s = end_of_task lib config ending request job r in IsMarked config now job_id s.0 s.1
  unfolding end_of_task run_end
  IsMarked-end_of_task lib unstarted request job r h = h
  IsMarked-end_of_task lib (waiting later post) request job r h =
      IsMarked-close_job lib later post request job r h
  IsMarked-end_of_task lib (executing at later elapsed usage post run writes) request job r h =
      let run' = finish_writes lib config writes (record run { stored = job; repository = r }) in
      let s = settle config at elapsed usage interrupted run' in
      IsMarked-close_job lib later post request s.0 s.1 (
        IsMarked-settle at elapsed usage run'
          (IsMarked-finish_writes lib writes (record run { stored = job; repository = r }) h))
