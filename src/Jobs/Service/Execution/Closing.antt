-- ===== src/Jobs/Service/Execution/Closing.antt =====
-- The ends of a run: the `finally` of `_execute_job`, and `_run_job`.
use creator_engagement_proje.Base.{
  ℕ, ◌+◌, String, ◌≡◌, ◌≢◌, refl, inl, inr, Bool, true, false, ◌&&◌, Option, none, some, ap, ◌∙◌,
  sym, arith, string_key, Bool-cases,
}
use creator_engagement_proje.Base.Dict.{lookup}
use creator_engagement_proje.Models.{StoredJob, CreateJobRequest, JobStatus, WebhookStatus, is_open}
use creator_engagement_proje.Jobs.Memory.{Repository, update_job, seconds}
use creator_engagement_proje.Jobs.Memory.Update.{update_job_self}
use creator_engagement_proje.Jobs.Service.{Library, Config}
use creator_engagement_proje.Jobs.Service.Execution.{
  Run, or_now, is_some_text, unsent, after_webhook, Ending, exhausted, crashed, interrupted,
  outcome, close_accounts, settle, Delivery, deliver, send_webhook, notify, cancelled, overdue,
  shut_down, close_job, run_end,
}

-- The job is over, dated, due to expire after the retention time, and stored as it is.
pub record IsClosed (config : Config) (job_id : String) (stored : StoredJob) (r : Repository)
    : Type 0 where
  pub closed : is_open stored.status ≡ false
  pub finished : ℕ
  pub dated : stored.finished_at ≡ some finished
  pub expires : stored.expires_at ≡ some (finished + seconds config.retention_seconds)
  pub own : stored.job_id ≡ job_id
  pub in_sync : lookup job_id r.jobs ≡ some stored

-- An update of the job that leaves its end alone.
restore :
    {config : Config} {job_id : String} {stored : StoredJob} {r : Repository} (next : StoredJob)
    → IsClosed config job_id stored r
    → next.status ≡ stored.status
    → next.finished_at ≡ stored.finished_at
    → next.expires_at ≡ stored.expires_at
    → next.job_id ≡ stored.job_id
    → IsClosed config job_id next (update_job next r)
restore {job_id = job_id} {stored = stored} {r = r} next c hs hf he hj = record {
  closed = ap is_open hs ∙ c.closed;
  finished = c.finished;
  dated = hf ∙ c.dated;
  expires = he ∙ c.expires;
  own = hj ∙ c.own;
  in_sync =
      ap (λ i. lookup i (update_job next r).jobs) (sym (hj ∙ c.own))
      ∙ update_job_self next stored r (ap (λ i. lookup i r.jobs) (hj ∙ c.own) ∙ c.in_sync);
}

module _ (config : Config) (post : ℕ → Delivery) where
  send_webhook-IsClosed :
      {job_id : String} (stored : StoredJob) (r : Repository)
      → IsClosed config job_id stored r
      → let s = (send_webhook config post stored r).0 in IsClosed config job_id s.0 s.1
  unfolding send_webhook
  send_webhook-IsClosed {job_id} stored r c = go (deliver config.webhook_max_attempts 1 post) refl
    where
      go :
          (sent : Option WebhookStatus)
          → deliver config.webhook_max_attempts 1 post ≡ sent
          → let s = (send_webhook config post stored r).0 in IsClosed config job_id s.0 s.1
      go none e = rw (e, send_webhook) c
      go (some status) e =
          rw (e, send_webhook)
            (restore (record stored { webhook_status = some status }) c refl refl refl refl)

  notify-IsClosed :
      {job_id : String} (request : CreateJobRequest) (stored : StoredJob) (r : Repository)
      → IsClosed config job_id stored r
      → let s = (notify config post request stored r).0 in IsClosed config job_id s.0 s.1
  notify-IsClosed {job_id} request stored r c = go request.webhook_url refl
    where
      go :
          (url : Option String)
          → request.webhook_url ≡ url
          → let s = (notify config post request stored r).0 in IsClosed config job_id s.0 s.1
      go none e = rw e c
      go (some _) e = rw e (send_webhook-IsClosed stored r c)

module _ (config : Config) (now elapsed : ℕ) (usage : Option ℕ) (run : Run)
    (held : lookup run.stored.job_id run.repository.jobs ≡ some run.stored) where
  settle_in_sync :
      (ending : Ending)
      → let s = settle config now elapsed usage ending run in
        (s.0.job_id ≡ run.stored.job_id) × (lookup run.stored.job_id s.1.jobs ≡ some s.0)
  unfolding settle
  settle_in_sync exhausted =
      let own : (outcome exhausted run).job_id ≡ run.stored.job_id = ground arith in
      (own, stored_at (close_accounts config now elapsed usage run (outcome exhausted run)) own)
    where
      stored_at :
          (s : StoredJob)
          → s.job_id ≡ run.stored.job_id
          → lookup run.stored.job_id (update_job s run.repository).jobs ≡ some s
      stored_at s own =
          ap (λ i. lookup i (update_job s run.repository).jobs) (sym own)
          ∙ update_job_self s run.stored run.repository
              (ap (λ i. lookup i run.repository.jobs) own ∙ held)
  settle_in_sync crashed = (refl, update_job_self _ run.stored run.repository held)
  settle_in_sync interrupted = (refl, update_job_self _ run.stored run.repository held)

  -- Without an interruption the job is closed when its workers are done.
  settle-IsClosed :
      (ending : Ending)
      → ending ≢ interrupted
      → (run.stored.cancel_requested ≡ true → run.stored.status ≡ JobStatus.cancelled)
      → let s = settle config now elapsed usage ending run in
        IsClosed config run.stored.job_id s.0 s.1
  settle-IsClosed ending whole marked = record {
    closed = unfold settle in closed_by ending whole;
    finished = or_now (outcome ending run).finished_at now;
    dated = unfold settle in refl;
    expires = unfold settle in refl;
    own = (settle_in_sync ending).0;
    in_sync = (settle_in_sync ending).1;
  }
    where
      closed_by : (e : Ending) → e ≢ interrupted → is_open (outcome e run).status ≡ false
      closed_by exhausted _ = ground (arith, marked)
      closed_by crashed _ = refl
      closed_by interrupted no_way = absurd (no_way refl)

-- Storing a job that is over in place of an earlier state of it.
store-IsClosed :
    (config : Config) {job_id : String} (stored old : StoredJob) (r : Repository) (finished : ℕ)
    → is_open stored.status ≡ false
    → stored.finished_at ≡ some finished
    → stored.expires_at ≡ some (finished + seconds config.retention_seconds)
    → stored.job_id ≡ job_id
    → lookup job_id r.jobs ≡ some old
    → IsClosed config job_id stored (update_job stored r)
store-IsClosed config stored old r finished closed dated expires own held = record {
  closed = closed;
  finished = finished;
  dated = dated;
  expires = expires;
  own = own;
  in_sync =
      ap (λ i. lookup i (update_job stored r).jobs) (sym own)
      ∙ update_job_self stored old r (ap (λ i. lookup i r.jobs) own ∙ held);
}

after_webhook-IsClosed :
    (config : Config) {job_id : String} (s : (StoredJob × Repository) × Bool)
    → IsClosed config job_id s.0.0 s.0.1
    → IsClosed config job_id (after_webhook s).0.0 (after_webhook s).0.1
after_webhook-IsClosed config ((stored, r), true) c = c
after_webhook-IsClosed config ((stored, r), false) c = restore stored c refl refl refl refl

-- The handler of a cancellation, on a job whose accounts are settled.
cancelled-IsClosed :
    (lib : Library) (config : Config) (later : ℕ) (post : ℕ → Delivery) (request : CreateJobRequest)
    {job_id : String} (stored : StoredJob) (r : Repository) (finished : ℕ)
    → (stored.cancel_requested ≡ true → stored.status ≡ JobStatus.cancelled)
    → stored.finished_at ≡ some finished
    → stored.expires_at ≡ some (finished + seconds config.retention_seconds)
    → stored.job_id ≡ job_id
    → lookup job_id r.jobs ≡ some stored
    → let s = (close_job lib config later post cancelled request stored r).0 in
      IsClosed config job_id s.0 s.1
unfolding close_job
cancelled-IsClosed lib config later post request {job_id} stored r finished marked dated expires own
      held =
    let stored' = shut_down config later stored in
    elim (Bool-cases (is_open stored.status)) [
      | inl opened ↦
          let unmarked : stored.cancel_requested ≡ false = ground arith in
          rw (opened, unmarked, close_job)
            (store-IsClosed config _ stored r later refl refl refl own held)
      | inr closed ↦
          elim (Bool-cases (stored.cancel_requested && is_some_text request.webhook_url)) [
            | inl told ↦
                rw (closed, told, close_job)
                  (after_webhook-IsClosed config (send_webhook config post stored r) (
                    send_webhook-IsClosed config post stored r (record {
                      closed = closed;
                      finished = finished;
                      dated = dated;
                      expires = expires;
                      own = own;
                      in_sync = held;
                    })))
            | inr untold ↦
                rw (closed, untold, close_job)
                  (store-IsClosed config (unsent stored) stored r finished closed dated expires own
                    held)
          ]
    ]

-- However the run of a stored job ends (its workers done, an exception, the job's timeout, a
-- cancellation or a shutdown), and whatever becomes of the webhook: the job is neither queued nor
-- running, it has a finishing time and expires the retention time after it, and the repository
-- holds it as it is. A job whose cancellation was requested is taken to be marked cancelled.
pub run_end-IsClosed :
    (lib : Library) (config : Config) (now later elapsed : ℕ) (usage : Option ℕ)
    (post : ℕ → Delivery) (ending : Ending) (late : Bool) (request : CreateJobRequest) (run : Run)
    → lookup run.stored.job_id run.repository.jobs ≡ some run.stored
    → (run.stored.cancel_requested ≡ true → run.stored.status ≡ JobStatus.cancelled)
    → let s = (run_end lib config now later elapsed usage post ending late request run).0 in
      IsClosed config run.stored.job_id s.0 s.1
unfolding run_end
run_end-IsClosed lib config now later elapsed usage post exhausted late request run held marked =
    let (stored, r) = settle config now elapsed usage exhausted run in
    unfold close_job in
    notify-IsClosed config post request stored r
      (settle-IsClosed config now elapsed usage run held exhausted (λ e. cc) marked)
run_end-IsClosed lib config now later elapsed usage post crashed late request run held marked =
    let (stored, r) = settle config now elapsed usage crashed run in
    unfold close_job in
    notify-IsClosed config post request stored r
      (settle-IsClosed config now elapsed usage run held crashed (λ e. cc) marked)
run_end-IsClosed lib config now later elapsed usage post interrupted true request run held marked =
    let (stored, r) = settle config now elapsed usage interrupted run in
    let (own, in_sync) = settle_in_sync config now elapsed usage run held interrupted in
    unfold close_job in
    notify-IsClosed config post request (overdue lib config later stored)
      (update_job (overdue lib config later stored) r)
      (store-IsClosed config (overdue lib config later stored) stored r later refl refl refl own
        in_sync)
run_end-IsClosed lib config now later elapsed usage post interrupted false request run held marked =
    let (stored, r) = settle config now elapsed usage interrupted run in
    let (own, in_sync) = settle_in_sync config now elapsed usage run held interrupted in
    cancelled-IsClosed lib config later post request stored r (or_now run.stored.finished_at now)
      (unfold settle in marked) (unfold settle in refl) (unfold settle in refl) own in_sync
