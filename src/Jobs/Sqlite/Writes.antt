-- ===== src/Jobs/Sqlite/Writes.antt =====
-- create_job of SQLiteJobRepository, against that of
-- MemoryJobRepository.
use creator_engagement_proje.Base.{
  ℕ, String, ◌≡◌, refl, Bool, true, false, not, ◌&&◌, ◌||◌, Option, none, some, List, [], ◌∷◌, ◌++◌,
  map, arith, string_key, nat_key, contains, select, ◌==◌, All, is_none, any, Bool-cases, inl, inr,
  All-append_one,
}
use creator_engagement_proje.Base.Select.{
  All-select, All-imp, select-IsDistinct, insert_new_row, IsDistinct-append_one,
  contains-append_one, contains-map-select,
}
use creator_engagement_proje.Models.{StoredJob, CreateJobRequest}
use creator_engagement_proje.Jobs.Memory
use creator_engagement_proje.Jobs.Memory.{Repository, Outcome, key_taken, truthy}
use creator_engagement_proje.Jobs.Sqlite.{
  Codec, JobRow, ResultRow, Database, Written, row_to_job, job_values, or_else, if_truthy, int_of,
  written,
}
use creator_engagement_proje.Jobs.Sqlite.Statements.{
  is_over, cascade, cleanup_expired, create_job, same_key, violates,
}
use creator_engagement_proje.Jobs.Sqlite.Sweep.{
  ids, of_job, stored_in, IsValid, is_dated, stored_in-cleanup_expired,
}

-- What a job must be for its row to give it back.
abbrev pub Fits : StoredJob → CreateJobRequest → Type 0
Fits job request =
    (or_else job.webhook_url (if_truthy request.webhook_url) ≡ job.webhook_url)
    × ((is_none job.finished_at || not (is_none job.expires_at)) ≡ true)

pub cancel_flag : (b : Bool) → not (int_of b == 0) ≡ b
cancel_flag true = refl
cancel_flag false = refl

-- The answer of the in-memory repository, as an outcome of a statement.
abbrev pub as_written : Outcome (Unit {0}) → Written
as_written (Outcome.ok _) = written
as_written (Outcome.duplicate_idempotency_key key) = Written.duplicate_idempotency_key key

module _ {J : Type 0} where
  owned-cascade :
      (rows : List (JobRow J)) (xs : List (ResultRow J))
      → All (λ x. contains (ids rows) x.job_id ≡ true) (cascade rows xs)
  owned-cascade rows [] = tt
  owned-cascade rows (x ∷ xs) = elim (Bool-cases (contains (ids rows) x.job_id)) [
    | inl there ↦ rw there (there, owned-cascade rows xs)
    | inr gone ↦ rw gone (owned-cascade rows xs)
  ]

  pub cleanup_expired-IsValid :
      (now : ℕ) (db : Database J) → IsValid db → IsValid (cleanup_expired now db)
  unfolding cleanup_expired
  cleanup_expired-IsValid now db h =
      let rows = select (λ row. not (is_over now db.retention_seconds row)) db.batch_jobs in
      record {
        distinct = select-IsDistinct (λ (row : JobRow J). row.job_id) _ db.batch_jobs h.distinct;
        owned = owned-cascade rows db.batch_job_results;
        dated = All-select (λ row. is_dated row ≡ true) _ db.batch_jobs h.dated;
      }

  pub of_job_none :
      (codec : Codec J) (job_id : String) (rows : List (JobRow J)) (xs : List (ResultRow J))
      → contains (ids rows) job_id ≡ false
      → All (λ x. contains (ids rows) x.job_id ≡ true) xs
      → of_job codec job_id xs ≡ []
  of_job_none codec job_id rows [] fresh h = refl
  of_job_none codec job_id rows (x ∷ xs) fresh h =
      ground
        (arith, of_job_none codec job_id rows xs fresh h.1, string_key.same_iff x.job_id job_id)

  pub any-rows :
      (job_id : String) (rows : List (JobRow J))
      → any (λ row. row.job_id == job_id) rows ≡ contains (ids rows) job_id
  any-rows job_id [] = refl
  any-rows job_id (row ∷ rows) = ground (arith, any-rows job_id rows)

  row_to_job-job_values :
      (codec : Codec J) (job : StoredJob) (request : CreateJobRequest)
      → Fits job request
      → row_to_job codec (job_values job (codec.dump_request request)) ≡ job
  unfolding row_to_job job_values
  row_to_job-job_values codec job request fits =
      rw (codec.parse-dump_request request, fits.0, cancel_flag job.cancel_requested)

  key_taken-rows :
      (codec : Codec J) (key : String) (rows : List (JobRow J))
      → key_taken (some key) (map (λ row. (row.job_id, row_to_job codec row)) rows)
        ≡ any (same_key (some key)) rows
  unfolding row_to_job
  key_taken-rows codec key [] = refl
  key_taken-rows codec key (row ∷ rows) = ground (arith, key_taken-rows codec key rows)

  -- Adding a row for a new job is storing the job.
  store-row :
      (codec : Codec J) (job : StoredJob) (request : CreateJobRequest) (db : Database J)
      → IsValid db
      → contains (ids db.batch_jobs) job.job_id ≡ false
      → Fits job request
      → stored_in codec (record db {
        batch_jobs = db.batch_jobs ++ job_values job (codec.dump_request request) ∷ [];
      })
        ≡ Memory.store job request (stored_in codec db)
  unfolding Memory.store job_values
  store-row codec job request db h fresh fits =
      λ i. record { jobs = jobs_path i; requests = requests_path i; results = results_path i }
    where
      rows : List (JobRow J)
      rows = db.batch_jobs

      row : JobRow J
      row = job_values job (codec.dump_request request)

      id : JobRow J → String
      id r = r.job_id

      wanted : Repository
      wanted = Memory.store job request (stored_in codec db)

      given : Repository
      given = stored_in codec (record db { batch_jobs = rows ++ row ∷ [] })

      jobs_path : given.jobs ≡ wanted.jobs
      jobs_path =
          insert_new_row id (row_to_job codec) row job rows fresh
            (row_to_job-job_values codec job request fits)

      requests_path : given.requests ≡ wanted.requests
      requests_path =
          insert_new_row id (λ r. codec.parse_request r.request_json) row request rows fresh
            (codec.parse-dump_request request)

      results_path : given.results ≡ wanted.results
      results_path =
          insert_new_row id (λ r. of_job codec r.job_id db.batch_job_results) row [] rows fresh
            (of_job_none codec job.job_id rows db.batch_job_results fresh h.owned)

  none_same : (rows : List (JobRow J)) → any (same_key none) rows ≡ false
  none_same [] = refl
  none_same (row ∷ rows) = none_same rows

  -- The constraints are violated exactly if the in-memory repository finds the key taken.
  violates-key_taken :
      (codec : Codec J) (job : StoredJob) (rows : List (JobRow J))
      → contains (ids rows) job.job_id ≡ false
      → (is_none job.idempotency_key || truthy job.idempotency_key) ≡ true
      → violates job rows ≡ (
          truthy job.idempotency_key
          && key_taken job.idempotency_key (map (λ row. (row.job_id, row_to_job codec row)) rows))
  violates-key_taken codec job rows fresh keyed = go job.idempotency_key refl
    where
      go :
          (o : Option String)
          → job.idempotency_key ≡ o
          → violates job rows ≡ (
              truthy job.idempotency_key
              && key_taken job.idempotency_key
                  (map (λ row. (row.job_id, row_to_job codec row)) rows))
      go none e = rw (e, any-rows job.job_id rows, fresh) (none_same rows)
      go (some key) e =
          let t : truthy (some key) ≡ true = rw e at keyed in
          rw (e, any-rows job.job_id rows, fresh, t, key_taken-rows codec key rows)

  -- On a valid database, for a job with a new identifier and no empty idempotency key, whose
  -- webhook is that of its request and which is to expire if it has finished: create_job succeeds
  -- or reports the duplicate key as it does on the repository that the database stores, and leaves
  -- a valid database, which stores what that repository becomes.
  pub create_job-stored_in :
      (codec : Codec J) (now : ℕ) (job : StoredJob) (request : CreateJobRequest) (db : Database J)
      → IsValid db
      → contains (ids db.batch_jobs) job.job_id ≡ false
      → (is_none job.idempotency_key || truthy job.idempotency_key) ≡ true
      → Fits job request
      → ((create_job codec now job request db).0
          ≡ as_written (Memory.create_job now job request (stored_in codec db)).0)
        × (stored_in codec (create_job codec now job request db).1
            ≡ (Memory.create_job now job request (stored_in codec db)).1)
        × IsValid (create_job codec now job request db).1
  unfolding create_job Memory.create_job
  create_job-stored_in codec now job request db h fresh keyed fits =
      rw (← swept, test)
        (elim (Bool-cases taken) [
          | inl clash ↦
              rw clash
                (let t : truthy job.idempotency_key ≡ true = ground arith in rw t refl, refl, valid)
          | inr free ↦ rw free (refl, store-row codec job request db' valid fresh' fits, added)
        ])
    where
      db' : Database J
      db' = cleanup_expired now db

      swept : stored_in codec db' ≡ Memory.cleanup_expired now (stored_in codec db)
      swept = stored_in-cleanup_expired codec now db h

      fresh' : contains (ids db'.batch_jobs) job.job_id ≡ false
      fresh' =
          unfold cleanup_expired in
          contains-map-select (λ (row : JobRow J). row.job_id) _ job.job_id db.batch_jobs fresh

      valid : IsValid db'
      valid = cleanup_expired-IsValid now db h

      row : JobRow J
      row = job_values job (codec.dump_request request)

      added : IsValid (record db' { batch_jobs = db'.batch_jobs ++ row ∷ [] })
      added = record {
        distinct =
            unfold job_values in
            IsDistinct-append_one (λ (r : JobRow J). r.job_id) row db'.batch_jobs valid.distinct
              fresh';
        owned =
            All-imp (λ x. contains (ids db'.batch_jobs) x.job_id ≡ true)
              (λ x. contains (ids (db'.batch_jobs ++ row ∷ [])) x.job_id ≡ true)
              db'.batch_job_results
              (λ x there. rw (
                contains-append_one (λ (r : JobRow J). r.job_id) x.job_id row db'.batch_jobs,
                there,
              ))
              valid.owned;
        dated =
            unfold job_values in
            All-append_one (λ r. is_dated r ≡ true) db'.batch_jobs row valid.dated fits.1;
      }

      taken : Bool
      taken = truthy job.idempotency_key && key_taken job.idempotency_key (stored_in codec db').jobs

      test : violates job db'.batch_jobs ≡ taken
      test = violates-key_taken codec job db'.batch_jobs fresh' keyed
