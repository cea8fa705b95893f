-- ===== src/Jobs/Sqlite/Statements.antt =====
-- The methods of SQLiteJobRepository (app/repositories/job_repository.py), by their statements.
use creator_engagement_proje.Base.{
  ℕ, ◌+◌, ◌-◌, String, Bool, true, false, not, ◌&&◌, ◌||◌, Option, none, some, List, [], ◌∷◌, ◌++◌,
  map, ltb, leb, if◌then◌else◌, ◌==◌, option_beq, string_key, nat_key, any, select, first, tally,
  length, take, contains,
}
use creator_engagement_proje.Models.{
  StoredJob, CreateJobRequest, JobItemResponse, JobStatus, WebhookStatus, CollectStatus, is_open,
}
use creator_engagement_proje.Jobs.Memory.{seconds, truthy, restart_error, is_interrupted_error}
use creator_engagement_proje.Jobs.Sqlite.{
  Codec, JobRow, ResultRow, Database, Written, written, duplicate_idempotency_key, integrity_error,
  int_of, job_values, row_to_job,
}

-- CASE WHEN webhook_status = 'pending' THEN 'failed' ELSE webhook_status END
abbrev pub abandoned : Option WebhookStatus → Option WebhookStatus
abandoned status = elim status [
  | some WebhookStatus.pending ↦ some WebhookStatus.failed
  | other ↦ other
]

module _ {J : Type 0} where
  -- The WHERE of the DELETE, with the cutoff on the other side.
  abbrev pub is_over : ℕ → ℕ → JobRow J → Bool
  is_over now retention row = elim row.expires_at [
    | some t ↦ leb t now
    | none ↦ elim row.finished_at [ none ↦ false | some f ↦ ltb (f + seconds retention) now ]
  ]

  -- ON DELETE CASCADE
  abbrev pub cascade : List (JobRow J) → List (ResultRow J) → List (ResultRow J)
  cascade rows results = select (λ x. contains (map (λ row. row.job_id) rows) x.job_id) results

  unfoldable pub cleanup_expired : ℕ → Database J → Database J
  cleanup_expired now db =
      let rows = select (λ row. not (is_over now db.retention_seconds row)) db.batch_jobs in
      record db { batch_jobs = rows; batch_job_results = cascade rows db.batch_job_results }

  -- _initialize_sync creates the tables that are missing.
  unfoldable pub initialize : ℕ → Database J → Database J
  initialize retention_seconds db = record db { retention_seconds = retention_seconds }

  -- UNIQUE: NULL is no duplicate of NULL.
  abbrev pub same_key : Option String → JobRow J → Bool
  same_key none row = false
  same_key (some key) row = option_beq row.idempotency_key (some key)

  -- The INSERT violates PRIMARY KEY (job_id) or UNIQUE (idempotency_key).
  abbrev pub violates : StoredJob → List (JobRow J) → Bool
  violates job rows =
      any (λ row. row.job_id == job.job_id) rows || any (same_key job.idempotency_key) rows

  unfoldable pub create_job :
      Codec J → ℕ → StoredJob → CreateJobRequest → Database J → Written × Database J
  unfolding cleanup_expired job_values
  create_job codec now job request db =
      let db' = cleanup_expired now db in
      if violates job db'.batch_jobs
      then (
        (if truthy job.idempotency_key
            then duplicate_idempotency_key job.idempotency_key
            else integrity_error),
        db',
      )
      else (
        written,
        record db' {
          batch_jobs = db'.batch_jobs ++ job_values job (codec.dump_request request) ∷ [];
        },
      )

  abbrev pub job_of_row : Codec J → Option (JobRow J) → Option StoredJob
  job_of_row codec none = none
  job_of_row codec (some row) = some (row_to_job codec row)

  unfoldable pub get_job : Codec J → ℕ → String → Database J → Option StoredJob × Database J
  unfolding cleanup_expired
  get_job codec now job_id db =
      let db' = cleanup_expired now db in
      (job_of_row codec (first (λ row. row.job_id == job_id) db'.batch_jobs), db')

  unfoldable pub find_by_idempotency_key :
      Codec J → ℕ → String → Database J → Option StoredJob × Database J
  unfolding cleanup_expired
  find_by_idempotency_key codec now key db =
      let db' = cleanup_expired now db in
      (job_of_row codec (first (same_key (some key)) db'.batch_jobs), db')

  -- The columns that the UPDATE sets.
  unfoldable pub updated : StoredJob → JobRow J → JobRow J
  updated job row = record row {
    status = job.status;
    completed = job.completed;
    success = job.success;
    failed = job.failed;
    duration_ms = job.duration_ms;
    cost_yuan = job.cost_yuan;
    started_at = job.started_at;
    finished_at = job.finished_at;
    webhook_status = job.webhook_status;
    error = job.error;
    cancel_requested = int_of job.cancel_requested;
    expires_at = job.expires_at;
  }

  abbrev pub update_where :
      (JobRow J → Bool) → (JobRow J → JobRow J) → List (JobRow J) → List (JobRow J)
  update_where test change rows = map (λ row. if test row then change row else row) rows

  unfoldable pub update_job : StoredJob → Database J → Database J
  unfolding updated
  update_job job db = record db {
    batch_jobs = update_where (λ row. row.job_id == job.job_id) (updated job) db.batch_jobs;
  }

  -- FOREIGN KEY (job_id) and PRIMARY KEY (job_id, sequence).
  abbrev pub refuses : String → ℕ → Database J → Bool
  refuses job_id sequence db =
      not (any (λ row. row.job_id == job_id) db.batch_jobs)
      || any (λ x. x.job_id == job_id && x.sequence == sequence) db.batch_job_results

  unfoldable pub append_result :
      Codec J → String → ℕ → JobItemResponse → Database J → Written × Database J
  append_result codec job_id sequence result db =
      if refuses job_id sequence db then (integrity_error, db) else (
        written,
        record db {
          batch_job_results =
              db.batch_job_results
              ++ (record {
                job_id = job_id;
                sequence = sequence;
                result_json = codec.dump_result result;
              })
                ∷ [];
        },
      )

  abbrev pub rows_of : String → Database J → List (ResultRow J)
  rows_of job_id db = select (λ x. x.job_id == job_id) db.batch_job_results

  -- ORDER BY sequence
  unfoldable pub insert_sorted : ResultRow J → List (ResultRow J) → List (ResultRow J)
  insert_sorted x [] = x ∷ []
  insert_sorted x (y ∷ ys) =
      let rest = insert_sorted x ys in if leb x.sequence y.sequence then x ∷ y ∷ ys else y ∷ rest

  unfoldable pub sorted : List (ResultRow J) → List (ResultRow J)
  sorted [] = []
  sorted (x ∷ xs) = insert_sorted x (sorted xs)

  -- LIMIT stands after ORDER BY and WHERE.
  unfoldable pub get_results : Codec J → String → ℕ → ℕ → Database J → List JobItemResponse
  unfolding sorted insert_sorted
  get_results codec job_id offset limit db =
      map (λ x. codec.parse_result x.result_json)
        (take limit (sorted (select (λ x. leb offset x.sequence) (rows_of job_id db))))

  -- Without ORDER BY, the rows come by the index of PRIMARY KEY (job_id, sequence).
  unfoldable pub get_completed_items : Codec J → String → Database J → List (String × CollectStatus)
  unfolding sorted insert_sorted
  get_completed_items codec job_id db =
      map (λ x. (codec.extract_item_id x.result_json, codec.extract_status x.result_json))
        (sorted (rows_of job_id db))

  abbrev pub request_of_row : Codec J → Option (JobRow J) → Option CreateJobRequest
  request_of_row codec none = none
  request_of_row codec (some row) = some (codec.parse_request row.request_json)

  unfoldable pub get_request :
      Codec J → ℕ → String → Database J → Option CreateJobRequest × Database J
  unfolding cleanup_expired
  get_request codec now job_id db =
      let db' = cleanup_expired now db in
      (request_of_row codec (first (λ row. row.job_id == job_id) db'.batch_jobs), db')

  abbrev pub is_interrupted_row : JobRow J → Bool
  is_interrupted_row row =
      elim row.status [ JobStatus.failed ↦ true | _ ↦ false ]
      && is_interrupted_error row.error
      && row.cancel_requested == 0

  unfoldable pub get_interrupted_jobs : Codec J → ℕ → Database J → List StoredJob × Database J
  unfolding cleanup_expired
  get_interrupted_jobs codec now db =
      let db' = cleanup_expired now db in
      (map (row_to_job codec) (select is_interrupted_row db'.batch_jobs), db')

  -- json_extract(result_json, '$.status') = 'success'
  abbrev pub extracted_success : Codec J → ResultRow J → Bool
  extracted_success codec x = elim (codec.extract_status x.result_json) [
    | CollectStatus.success ↦ true
    | CollectStatus.failed ↦ false
  ]

  unfoldable pub interrupted_row : ℕ → ℕ → ℕ → ℕ → JobRow J → JobRow J
  interrupted_row now retention_seconds completed success row = record row {
    status = JobStatus.failed;
    completed = completed;
    success = success;
    failed = completed - success;
    finished_at = some now;
    webhook_status = abandoned row.webhook_status;
    error = some restart_error;
    expires_at = some (now + seconds retention_seconds);
  }

  -- The loop over the rows that were open when it began.
  unfoldable pub recover_each : Codec J → ℕ → ℕ → List (JobRow J) → Database J → Database J
  unfolding interrupted_row
  recover_each codec now retention_seconds [] db = db
  recover_each codec now retention_seconds (row ∷ others) db =
      let rows = rows_of row.job_id db in
      recover_each codec now retention_seconds others (record db {
        batch_jobs =
            update_where (λ other. other.job_id == row.job_id)
              (interrupted_row now retention_seconds (length rows)
                (tally (extracted_success codec) rows))
              db.batch_jobs;
      })

  unfoldable pub recover_interrupted : Codec J → ℕ → ℕ → Database J → Database J
  unfolding recover_each cleanup_expired
  recover_interrupted codec now retention_seconds db = cleanup_expired now (
      recover_each codec now retention_seconds (select (λ row. is_open row.status) db.batch_jobs)
        db)
