-- ===== src/Jobs/Sqlite/Reads.antt =====
-- The methods of SQLiteJobRepository that sweep and read, against those of MemoryJobRepository.
use creator_engagement_proje.Base.{
  ℕ, String, ◌≡◌, refl, ap, ◌∙◌, sym, Bool, some, List, [], ◌∷◌, map, arith, string_key, nat_key,
  select, ◌==◌, first, option_beq,
}
use creator_engagement_proje.Base.Dict.{values, lookup}
use creator_engagement_proje.Models.{StoredJob}
use creator_engagement_proje.Jobs.Memory
use creator_engagement_proje.Jobs.Memory.{Repository, is_interrupted}
use creator_engagement_proje.Jobs.Sqlite.{Codec, JobRow, Database, row_to_job}
use creator_engagement_proje.Jobs.Sqlite.Statements.{
  cleanup_expired, get_job, find_by_idempotency_key, get_request, get_interrupted_jobs, same_key,
  job_of_row, request_of_row, is_interrupted_row,
}
use creator_engagement_proje.Jobs.Sqlite.Sweep.{stored_in, IsValid, stored_in-cleanup_expired}

module _ {J : Type 0} (codec : Codec J) where
  first-rows :
      (test : StoredJob → Bool) (same : JobRow J → Bool) (rows : List (JobRow J))
      → ((row : JobRow J) → test (row_to_job codec row) ≡ same row)
      → first test (values (map (λ row. (row.job_id, row_to_job codec row)) rows))
        ≡ job_of_row codec (first same rows)
  first-rows test same [] h = refl
  first-rows test same (row ∷ rows) h = ground (arith, h row, first-rows test same rows h)

  select-values :
      (test : StoredJob → Bool) (same : JobRow J → Bool) (rows : List (JobRow J))
      → ((row : JobRow J) → test (row_to_job codec row) ≡ same row)
      → select test (values (map (λ row. (row.job_id, row_to_job codec row)) rows))
        ≡ map (row_to_job codec) (select same rows)
  select-values test same [] h = refl
  select-values test same (row ∷ rows) h = ground (arith, h row, select-values test same rows h)

  pub lookup-jobs :
      (job_id : String) (rows : List (JobRow J))
      → lookup job_id (map (λ row. (row.job_id, row_to_job codec row)) rows)
        ≡ job_of_row codec (first (λ row. row.job_id == job_id) rows)
  unfolding lookup
  lookup-jobs job_id [] = refl
  lookup-jobs job_id (row ∷ rows) = ground (arith, lookup-jobs job_id rows)

  lookup-requests :
      (job_id : String) (rows : List (JobRow J))
      → lookup job_id (map (λ row. (row.job_id, codec.parse_request row.request_json)) rows)
        ≡ request_of_row codec (first (λ row. row.job_id == job_id) rows)
  unfolding lookup
  lookup-requests job_id [] = refl
  lookup-requests job_id (row ∷ rows) = ground (arith, lookup-requests job_id rows)

  same_key_row :
      (key : String) (row : JobRow J)
      → option_beq (row_to_job codec row).idempotency_key (some key) ≡ same_key (some key) row
  unfolding row_to_job
  same_key_row key row = refl

  interrupted_row_same :
      (row : JobRow J) → is_interrupted (row_to_job codec row) ≡ is_interrupted_row row
  unfolding row_to_job
  interrupted_row_same row = ground arith

  module _ (now : ℕ) (db : Database J) (h : IsValid db) where
    -- On a database with its keys kept and its finished jobs dated, each method that sweeps and
    -- reads gives what it gives on the repository that the database stores, and leaves the
    -- database that stores what that repository becomes: get_job, find_by_idempotency_key,
    -- get_request and get_interrupted_jobs.
    pub reads-stored_in :
        (job_id key : String)
        → (((get_job codec now job_id db).0 ≡ (Memory.get_job now job_id (stored_in codec db)).0)
            × (stored_in codec (get_job codec now job_id db).1
                ≡ (Memory.get_job now job_id (stored_in codec db)).1))
          × (((find_by_idempotency_key codec now key db).0
                ≡ (Memory.find_by_idempotency_key now key (stored_in codec db)).0)
              × (stored_in codec (find_by_idempotency_key codec now key db).1
                  ≡ (Memory.find_by_idempotency_key now key (stored_in codec db)).1))
          × (((get_request codec now job_id db).0
                ≡ (Memory.get_request now job_id (stored_in codec db)).0)
              × (stored_in codec (get_request codec now job_id db).1
                  ≡ (Memory.get_request now job_id (stored_in codec db)).1))
          × (((get_interrupted_jobs codec now db).0
                ≡ (Memory.get_interrupted_jobs now (stored_in codec db)).0)
              × (stored_in codec (get_interrupted_jobs codec now db).1
                  ≡ (Memory.get_interrupted_jobs now (stored_in codec db)).1))
    unfolding get_job find_by_idempotency_key get_request get_interrupted_jobs Memory.get_job
        Memory.find_by_idempotency_key Memory.get_request Memory.get_interrupted_jobs
    reads-stored_in job_id key = (
      (sym (lookup-jobs job_id rows) ∙ ap (λ r. lookup job_id r.jobs) swept, swept),
      (
        sym (
              first-rows (λ job. option_beq job.idempotency_key (some key)) (same_key (some key))
                rows (same_key_row key))
            ∙ ap (λ r. first (λ job. option_beq job.idempotency_key (some key)) (values r.jobs))
                swept,
        swept,
      ),
      (sym (lookup-requests job_id rows) ∙ ap (λ r. lookup job_id r.requests) swept, swept),
      (
        sym (select-values is_interrupted is_interrupted_row rows interrupted_row_same)
            ∙ ap (λ r. select is_interrupted (values r.jobs)) swept,
        swept,
      ),
    )
      where
        rows : List (JobRow J)
        rows = (cleanup_expired now db).batch_jobs

        swept :
            stored_in codec (cleanup_expired now db)
            ≡ Memory.cleanup_expired now (stored_in codec db)
        swept = stored_in-cleanup_expired codec now db h
