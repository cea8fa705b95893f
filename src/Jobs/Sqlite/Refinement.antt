-- ===== src/Jobs/Sqlite/Refinement.antt =====
-- SQLiteJobRepository and MemoryJobRepository under the same calls.
use creator_engagement_proje.Base.{
  ℕ, String, ◌≡◌, refl, ap, sym, ◌∙◌, subst, true, false, not, ◌||◌, [], string_key, contains,
  is_none,
}
use creator_engagement_proje.Base.Dict.{lookup}
use creator_engagement_proje.Models.{StoredJob, CreateJobRequest, JobItemResponse}
use creator_engagement_proje.Jobs.Memory
use creator_engagement_proje.Jobs.Memory.{Repository, empty, truthy}
use creator_engagement_proje.Jobs.Sqlite.{Codec, Database}
use creator_engagement_proje.Jobs.Sqlite.Statements.{
  cleanup_expired, create_job, update_job, append_result, recover_interrupted, refuses,
}
use creator_engagement_proje.Jobs.Sqlite.Sweep.{ids, stored_in, IsValid, stored_in-cleanup_expired}
use creator_engagement_proje.Jobs.Sqlite.Writes.{
  Fits, create_job-stored_in, cleanup_expired-IsValid,
}
use creator_engagement_proje.Jobs.Sqlite.Updates.{IsUpdate, update_job-stored_in}
use creator_engagement_proje.Jobs.Sqlite.Appends.{append_result-stored_in}
use creator_engagement_proje.Jobs.Sqlite.Recovery.{recover_interrupted-stored_in}

module _ {J : Type 0} where
  abbrev pub no_rows : ℕ → Database J
  no_rows retention_seconds = record {
    batch_jobs = [];
    batch_job_results = [];
    retention_seconds = retention_seconds;
  }

-- A database and an in-memory repository after the same calls, as the job manager makes them: jobs
-- are created under new identifiers and without an empty idempotency key, a job is updated without
-- a change of the columns that an update leaves alone, each result gets a sequence number of its
-- own, and a job that has finished is to expire. `swept` is what get_job, find_by_idempotency_key,
-- get_request and get_interrupted_jobs do to the state.
pub data Together {J : Type 0} (codec : Codec J) : Database J → Repository → Type 0 where
  opened : (retention_seconds : ℕ) → Together codec (no_rows retention_seconds) empty
  swept :
      {db : Database J} {r : Repository} (now : ℕ)
      → Together codec db r
      → Together codec (cleanup_expired now db) (Memory.cleanup_expired now r)
  created :
      {db : Database J} {r : Repository} (now : ℕ) (job : StoredJob) (request : CreateJobRequest)
      → contains (ids db.batch_jobs) job.job_id ≡ false
      → (is_none job.idempotency_key || truthy job.idempotency_key) ≡ true
      → Fits job request
      → Together codec db r
      → Together codec
          (create_job codec now job request db).1
          (Memory.create_job now job request r).1
  updated :
      {db : Database J} {r : Repository} (job : StoredJob)
      → IsUpdate job (lookup job.job_id r.jobs)
      → (is_none job.finished_at || not (is_none job.expires_at)) ≡ true
      → Together codec db r
      → Together codec (update_job job db) (Memory.update_job job r)
  appended :
      {db : Database J} {r : Repository} (job_id : String) (sequence : ℕ) (result : JobItemResponse)
      → refuses job_id sequence db ≡ false
      → Together codec db r
      → Together codec
          (append_result codec job_id sequence result db).1
          (Memory.append_result job_id sequence result r)
  restarted :
      {db : Database J} {r : Repository} (now retention_seconds : ℕ)
      → Together codec db r
      → Together codec
          (recover_interrupted codec now retention_seconds db)
          (Memory.cleanup_expired now (Memory.recover_interrupted now retention_seconds r))

-- The database refines the in-memory repository: after the same calls, made as the job manager
-- makes them, the tables store exactly what the in-memory repository holds (jobs, requests and
-- results, in the same order), their keys are kept, and every finished job is to expire. A
-- restart of the database also sweeps.
pub Together-stored_in :
    {J : Type 0} {codec : Codec J} {db : Database J} {r : Repository}
    → Together codec db r
    → (stored_in codec db ≡ r) × IsValid db
Together-stored_in (opened retention) = (refl, record { distinct = tt; owned = tt; dated = tt })
Together-stored_in {codec} (swept {db} {r} now calls) =
    let h = Together-stored_in calls in
    (
      stored_in-cleanup_expired codec now db h.1 ∙ ap (Memory.cleanup_expired now) h.0,
      cleanup_expired-IsValid now db h.1,
    )
Together-stored_in {codec} (created {db} {r} now job request fresh keyed fits calls) =
    let h = Together-stored_in calls in
    let made = create_job-stored_in codec now job request db h.1 fresh keyed fits in
    (made.1 ∙ ap (λ s. (Memory.create_job now job request s).1) h.0, made.2)
Together-stored_in {codec} (updated {db} {r} job same dated calls) =
    let h = Together-stored_in calls in
    let made =
      update_job-stored_in codec job db h.1
        (subst (λ (s : Repository). IsUpdate job (lookup job.job_id s.jobs)) (sym h.0) same)
        dated in
    (made.0 ∙ ap (Memory.update_job job) h.0, made.1)
Together-stored_in {codec} (appended {db} {r} job_id sequence result accepts calls) =
    let h = Together-stored_in calls in
    let made = append_result-stored_in codec job_id sequence result db h.1 accepts in
    (made.1 ∙ ap (Memory.append_result job_id sequence result) h.0, made.2)
Together-stored_in {codec} (restarted {db} {r} now retention calls) =
    let h = Together-stored_in calls in
    let made = recover_interrupted-stored_in codec now retention db h.1 in
    (
      made.0
          ∙ ap (λ s. Memory.cleanup_expired now (Memory.recover_interrupted now retention s)) h.0,
      made.1,
    )
