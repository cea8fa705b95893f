-- ===== src/Jobs/Service/Submission/Idempotent.antt =====
-- What a caller of `submit` gets who sends an Idempotency-Key twice.
use creator_engagement_proje.Base.{
  ℕ, String, ◌≡◌, refl, true, false, none, some, subst, arith, if◌then◌else◌, ◌==◌, string_key,
  is_none, Bool-cases, inl, inr,
}
use creator_engagement_proje.Base.Dict.{lookup, lookup-insert_self}
use creator_engagement_proje.Models.{StoredJob, CreateJobRequest, JobStatus}
use creator_engagement_proje.Jobs.Memory
use creator_engagement_proje.Jobs.Memory.{
  Repository, truthy, create_job, find_by_idempotency_key, cleanup_expired, store, initialize,
  recover_interrupted,
}
use creator_engagement_proje.Jobs.Memory.Expiry.{cleanup_expired_idem}
use creator_engagement_proje.Jobs.Memory.Idempotency.{
  IsUnique, cleanup_expired-IsUnique, create_job-IsUnique, recover_interrupted-IsUnique,
}
use creator_engagement_proje.Jobs.Memory.Replay.{find-exact, create_job-exact}
use creator_engagement_proje.Jobs.Service.{
  Library, Manager, idempotency_conflict, ok, raise, ensure_initialized, validate_request,
  idempotent_response,
}
use creator_engagement_proje.Jobs.Service.Submission.{queued_job, start, submit}

pub ensure_initialized-IsUnique :
    (now : ℕ) (m : Manager) → IsUnique m.repository → IsUnique (ensure_initialized now m).repository
unfolding ensure_initialized initialize
ensure_initialized-IsUnique now m u = elim (Bool-cases m.initialized) [
  | inl done ↦ rw (done, ensure_initialized) u
  | inr fresh ↦
      rw (fresh, ensure_initialized)
        (recover_interrupted-IsUnique now m.config.retention_seconds
          (cleanup_expired now m.repository) (cleanup_expired-IsUnique now m.repository u))
]

pub ensure_initialized_idem :
    (now later : ℕ) (m : Manager)
    → ensure_initialized later (ensure_initialized now m) ≡ ensure_initialized now m
unfolding ensure_initialized
ensure_initialized_idem now later m = ground arith

module _ (lib : Library) (now : ℕ) (job_id key : String) (request : CreateJobRequest)
    (m : Manager) where
  abbrev begun : Manager
  begun = ensure_initialized now m

  abbrev made : StoredJob
  made = queued_job now job_id (lib.fingerprint request) (some key) request

  -- A new key: the job is stored, and its task started.
  submit_new :
      IsUnique m.repository
      → (key == "") ≡ false
      → validate_request lib m.config request ≡ none
      → is_none (find_by_idempotency_key now key begun.repository).0 ≡ true
      → submit lib now job_id request (some key) m ≡ (
        ok (record { job_id = job_id; status = JobStatus.queued }),
        start job_id made request (store made request (cleanup_expired now begun.repository)) begun,
      )
  unfolding submit ensure_initialized find_by_idempotency_key queued_job
  submit_new u nonempty valid new =
      let u' = ensure_initialized-IsUnique now m u in
      let r = cleanup_expired now begun.repository in
      ground (
        arith,
        valid,
        nonempty,
        new,
        cleanup_expired_idem now begun.repository u'.distinct,
        create_job-exact now key made request r refl nonempty,
      )

  store_new :
      IsUnique begun.repository
      → (key == "") ≡ false
      → is_none (find_by_idempotency_key now key begun.repository).0 ≡ true
      → create_job now made request begun.repository
        ≡ (Memory.ok tt, store made request (cleanup_expired now begun.repository))
  unfolding queued_job
  store_new u nonempty new =
      ground (arith, new, create_job-exact now key made request begun.repository refl nonempty)

  store_new-IsUnique :
      IsUnique begun.repository
      → (key == "") ≡ false
      → is_none (find_by_idempotency_key now key begun.repository).0 ≡ true
      → IsUnique (store made request (cleanup_expired now begun.repository))
  store_new-IsUnique u nonempty new =
      subst (λ (c : Memory.Outcome (Unit {0}) × Repository). IsUnique c.1)
        (store_new u nonempty new) (create_job-IsUnique now made request begun.repository u)

-- Submitting twice under one nonempty idempotency key, the first time when no live job holds it:
-- the second call, at any later instant and whatever identifier it would have drawn, starts no task
-- and stores no job. It answers with the first job if the request has the same fingerprint, and
-- otherwise raises the conflict error.
pub submit-replay :
    (lib : Library) (now later : ℕ) (job_id job_id' key : String)
    (request request' : CreateJobRequest) (m : Manager)
    → IsUnique m.repository
    → (key == "") ≡ false
    → validate_request lib m.config request ≡ none
    → validate_request lib m.config request' ≡ none
    → is_none (find_by_idempotency_key now key (ensure_initialized now m).repository).0 ≡ true
    → let m' = (submit lib now job_id request (some key) m).1 in
      submit lib later job_id' request' (some key) m' ≡ (
        if lib.fingerprint request == lib.fingerprint request'
            then ok (record { job_id = job_id; status = JobStatus.queued })
            else raise idempotency_conflict,
        record m' { repository = cleanup_expired later m'.repository },
      )
submit-replay lib now later job_id job_id' key request request' m u nonempty valid valid' new =
    let first = submit_new lib now job_id key request m u nonempty valid new in
    let begun_m = ensure_initialized now m in
    let job = queued_job now job_id (lib.fingerprint request) (some key) request in
    let r1 = store job request (cleanup_expired now begun_m.repository) in
    let u1 =
      store_new-IsUnique lib now job_id key request m (ensure_initialized-IsUnique now m u) nonempty
        new in
    let stored : lookup job_id r1.jobs ≡ some job =
      unfold store queued_job in
      lookup-insert_self job_id job (cleanup_expired now begun_m.repository).jobs in
    let found = find-exact later key job_id job r1 u1 nonempty stored (unfold queued_job in refl) in
    rw first (
      unfold submit start ensure_initialized idempotent_response queued_job
        find_by_idempotency_key in
      ground (arith, valid', nonempty, found))
