-- ===== src/Jobs/Sqlite/Updates.antt =====
-- update_job of SQLiteJobRepository, against that of MemoryJobRepository.
use creator_engagement_proje.Base.{
  String, ◌≡◌, refl, ◌∙◌, sym, Bool, true, false, not, ◌||◌, Option, none, some, List, [], ◌∷◌, map,
  arith, string_key, nat_key, contains, ◌==◌, All, IsDistinct, is_none, Bool-cases, inl, inr,
}
use creator_engagement_proje.Base.Dict.{Dict, lookup, insert}
use creator_engagement_proje.Models.{StoredJob}
use creator_engagement_proje.Jobs.Memory
use creator_engagement_proje.Jobs.Memory.{Repository, Outcome, key_taken, truthy}
use creator_engagement_proje.Jobs.Sqlite.{Codec, JobRow, Database, row_to_job}
use creator_engagement_proje.Jobs.Sqlite.Statements.{update_job, updated, update_where}
use creator_engagement_proje.Jobs.Sqlite.Sweep.{ids, of_job, stored_in, IsValid, is_dated}
use creator_engagement_proje.Jobs.Sqlite.Writes.{cancel_flag}
use creator_engagement_proje.Jobs.Memory.{results_of}

-- The columns that update_job leaves alone have the values of the job.
abbrev pub SameFixed : StoredJob → StoredJob → Type 0
SameFixed job old =
    (old.job_id ≡ job.job_id)
    × (old.fingerprint ≡ job.fingerprint)
    × (old.total ≡ job.total)
    × (old.created_at ≡ job.created_at)
    × (old.idempotency_key ≡ job.idempotency_key)
    × (old.webhook_url ≡ job.webhook_url)

abbrev pub IsUpdate : StoredJob → Option StoredJob → Type 0
IsUpdate job none = Unit
IsUpdate job (some old) = SameFixed job old

-- What update_job does to a dictionary of jobs.
abbrev put_back : StoredJob → Dict String StoredJob → Dict String StoredJob
put_back job jobs = elim (lookup job.job_id jobs) [
  | none ↦ jobs
  | some _ ↦ insert job.job_id job jobs
]

put_back_here :
    (job : StoredJob) (k : String) (old : StoredJob) (d : Dict String StoredJob)
    → (k == job.job_id) ≡ true
    → put_back job ((k, old) ∷ d) ≡ (k, job) ∷ d
unfolding lookup insert
put_back_here job k old d here = ground arith

put_back_other :
    (job : StoredJob) (k : String) (old : StoredJob) (d : Dict String StoredJob)
    → (k == job.job_id) ≡ false
    → put_back job ((k, old) ∷ d) ≡ (k, old) ∷ put_back job d
unfolding lookup insert
put_back_other job k old d other = ground arith

put_back-update_job :
    (job : StoredJob) (r : Repository)
    → Memory.update_job job r ≡ record r { jobs = put_back job r.jobs }
unfolding Memory.update_job
put_back-update_job job r = ground arith

module _ {J : Type 0} where
  row_to_job-updated :
      (codec : Codec J) (job : StoredJob) (row : JobRow J)
      → SameFixed job (row_to_job codec row)
      → row_to_job codec (updated job row) ≡ job
  unfolding row_to_job updated
  row_to_job-updated codec job row same = λ i. record {
    job_id = same.0 i;
    fingerprint = same.1 i;
    status = job.status;
    total = same.2 i;
    completed = job.completed;
    success = job.success;
    failed = job.failed;
    duration_ms = job.duration_ms;
    cost_yuan = job.cost_yuan;
    created_at = same.3 i;
    idempotency_key = same.4 i;
    started_at = job.started_at;
    finished_at = job.finished_at;
    webhook_url = same.5 i;
    webhook_status = job.webhook_status;
    error = job.error;
    cancel_requested = cancel_flag job.cancel_requested i;
    expires_at = job.expires_at;
  }

  update_absent :
      (job : StoredJob) (rows : List (JobRow J))
      → contains (ids rows) job.job_id ≡ false
      → update_where (λ row. row.job_id == job.job_id) (updated job) rows ≡ rows
  update_absent job [] h = refl
  update_absent job (row ∷ rows) h = ground (arith, update_absent job rows)

  jobs-update :
      (codec : Codec J) (job : StoredJob) (rows : List (JobRow J))
      → IsDistinct (ids rows)
      → IsUpdate job (lookup job.job_id (map (λ row. (row.job_id, row_to_job codec row)) rows))
      → map
          (λ row. (row.job_id, row_to_job codec row))
          (update_where (λ row. row.job_id == job.job_id) (updated job) rows)
        ≡ put_back job (map (λ row. (row.job_id, row_to_job codec row)) rows)
  unfolding lookup
  jobs-update codec job [] h same = refl
  jobs-update codec job (row ∷ rows) h same = elim (Bool-cases (row.job_id == job.job_id)) [
    | inl here ↦
        let k : row.job_id ≡ job.job_id = (string_key.same_iff row.job_id job.job_id).0 here in
        let absent : contains (ids rows) job.job_id ≡ false = (rw k at h.0) in
        let fixed : SameFixed job (row_to_job codec row) = (rw here at same) in
        rw
          (
            put_back_here job row.job_id (row_to_job codec row) tail here,
            here,
            update_absent job rows absent,
          )
          (unfold updated in λ i. (row.job_id, row_to_job-updated codec job row fixed i) ∷ tail)
    | inr other ↦
        rw (put_back_other job row.job_id (row_to_job codec row) tail other, other)
          (λ i.
            (row.job_id, row_to_job codec row)
            ∷ jobs-update codec job rows h.1 (rw other at same) i)
  ]
    where
      tail : Dict String StoredJob
      tail = map (λ row. (row.job_id, row_to_job codec row)) rows

  -- What an update of other columns leaves as it is.
  update_kept :
      {V : Type 0} (f : JobRow J → V) (test : JobRow J → Bool) (change : JobRow J → JobRow J)
      (rows : List (JobRow J))
      → ((row : JobRow J) → f (change row) ≡ f row)
      → map f (update_where test change rows) ≡ map f rows
  update_kept f test change [] same = refl
  update_kept f test change (row ∷ rows) same = elim (Bool-cases (test row)) [
    | inl yes' ↦ rw yes' (λ i. same row i ∷ update_kept f test change rows same i)
    | inr no' ↦ rw no' (λ i. f row ∷ update_kept f test change rows same i)
  ]

  ids-update :
      (test : JobRow J → Bool) (change : JobRow J → JobRow J) (rows : List (JobRow J))
      → ((row : JobRow J) → (change row).job_id ≡ row.job_id)
      → ids (update_where test change rows) ≡ ids rows
  ids-update test change rows same = update_kept (λ row. row.job_id) test change rows same

  All-update :
      (Q : JobRow J → Type 0) (test : JobRow J → Bool) (change : JobRow J → JobRow J)
      (rows : List (JobRow J))
      → ((row : JobRow J) → Q (change row))
      → All Q rows
      → All Q (update_where test change rows)
  All-update Q test change [] made h = tt
  All-update Q test change (row ∷ rows) made h = elim (Bool-cases (test row)) [
    | inl hit ↦ rw hit (made row, All-update Q test change rows made h.1)
    | inr miss ↦ rw miss (h.0, All-update Q test change rows made h.1)
  ]

  -- On a valid database, for a job that is absent or keeps the columns that update_job does not
  -- set, and that is to expire if it has finished: update_job leaves a valid database, which
  -- stores what update_job makes of the repository that the old one stores.
  pub update_job-stored_in :
      (codec : Codec J) (job : StoredJob) (db : Database J)
      → IsValid db
      → IsUpdate job (lookup job.job_id (stored_in codec db).jobs)
      → (is_none job.finished_at || not (is_none job.expires_at)) ≡ true
      → (stored_in codec (update_job job db) ≡ Memory.update_job job (stored_in codec db))
        × IsValid (update_job job db)
  unfolding update_job updated
  update_job-stored_in codec job db h same dated = (
    stores ∙ sym (put_back-update_job job (stored_in codec db)),
    record {
      distinct = rw same_ids h.distinct;
      owned = rw same_ids h.owned;
      dated =
          All-update (λ row. is_dated row ≡ true) test (updated job) db.batch_jobs (λ row. dated)
            h.dated;
    },
  )
    where
      test : JobRow J → Bool
      test row = row.job_id == job.job_id

      same_ids : ids (update_where test (updated job) db.batch_jobs) ≡ ids db.batch_jobs
      same_ids = ids-update test (updated job) db.batch_jobs (λ row. refl)

      stores :
          stored_in codec (update_job job db)
          ≡ record (stored_in codec db) { jobs = put_back job (stored_in codec db).jobs }
      stores = λ i. record {
        jobs = jobs-update codec job db.batch_jobs h.distinct same i;
        requests =
            update_kept (λ row. (row.job_id, codec.parse_request row.request_json)) test
              (updated job) db.batch_jobs (λ row. refl) i;
        results =
            update_kept (λ row. (row.job_id, of_job codec row.job_id db.batch_job_results)) test
              (updated job) db.batch_jobs (λ row. refl) i;
      }
