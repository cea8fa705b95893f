-- ===== src/Jobs/Sqlite/Sweep.antt =====
-- The tables of SQLiteJobRepository read as the dictionaries of MemoryJobRepository, and the expiry
-- sweep of both.
use creator_engagement_proje.Base.{
  ℕ, String, ◌≡◌, refl, ap, ◌∙◌, sym, Bool, true, false, not, ◌||◌, List, [], ◌∷◌, map, arith,
  string_key, nat_key, contains, select, ◌==◌, All, IsDistinct, is_none, Option-cases, inl, inr,
}
use creator_engagement_proje.Base.Dict.{Dict, keys}
use creator_engagement_proje.Base.Select.{
  map_cong, select_cong, All-imp, contains-selected, All-contains, select-rows,
}
use creator_engagement_proje.Models.{StoredJob, JobItemResponse}
use creator_engagement_proje.Jobs.Memory
use creator_engagement_proje.Jobs.Memory.{Repository, expired, is_expired}
use creator_engagement_proje.Jobs.Memory.Drop.{without, cleanup_expired-without}
use creator_engagement_proje.Jobs.Sqlite.{Codec, JobRow, ResultRow, Database, row_to_job}
use creator_engagement_proje.Jobs.Sqlite.Statements.{is_over, cascade, cleanup_expired}

module _ {J : Type 0} where
  abbrev pub ids : List (JobRow J) → List String
  ids rows = map (λ row. row.job_id) rows

  -- The results of one job, in the order of their insertion.
  abbrev pub of_job : Codec J → String → List (ResultRow J) → Dict ℕ JobItemResponse
  of_job codec job_id xs =
      map (λ x. (x.sequence, codec.parse_result x.result_json))
        (select (λ x. x.job_id == job_id) xs)

  -- The repository that a database stores.
  abbrev pub stored_in : Codec J → Database J → Repository
  stored_in codec db = record {
    jobs = map (λ row. (row.job_id, row_to_job codec row)) db.batch_jobs;
    requests = map (λ row. (row.job_id, codec.parse_request row.request_json)) db.batch_jobs;
    results = map (λ row. (row.job_id, of_job codec row.job_id db.batch_job_results)) db.batch_jobs;
  }

  -- A job that has finished is to expire.
  abbrev pub is_dated : JobRow J → Bool
  is_dated row = is_none row.finished_at || not (is_none row.expires_at)

  -- PRIMARY KEY (job_id), FOREIGN KEY (job_id), and finished jobs that are to expire.
  pub record IsValid (db : Database J) : Type 0 where
    pub distinct : IsDistinct (ids db.batch_jobs)
    pub owned : All (λ x. contains (ids db.batch_jobs) x.job_id ≡ true) db.batch_job_results
    pub dated : All (λ row. is_dated row ≡ true) db.batch_jobs

  keys-select_rows :
      (f : JobRow J → StoredJob) (p : StoredJob → Bool) (rows : List (JobRow J))
      → keys (select {A = String × StoredJob} (λ x. p x.1) (map (λ row. (row.job_id, f row)) rows))
        ≡ ids (select (λ row. p (f row)) rows)
  keys-select_rows f p [] = refl
  keys-select_rows f p (row ∷ rows) = ground (arith, keys-select_rows f p rows)

  is_expired_row :
      (codec : Codec J) (now retention : ℕ) (row : JobRow J)
      → is_dated row ≡ true
      → is_expired now (row_to_job codec row) ≡ is_over now retention row
  unfolding row_to_job
  is_expired_row codec now retention row d = elim (Option-cases row.expires_at) [
    | inl e ↦ elim (Option-cases row.finished_at) [
      | inl f ↦ rw (e, f)
      | inr (t, f) ↦ let d' : false ≡ true = rw (e, f) at d in cc
    ]
    | inr (t, e) ↦ rw e
  ]

  expired-stored_in :
      (codec : Codec J) (now : ℕ) (db : Database J)
      → All (λ row. is_dated row ≡ true) db.batch_jobs
      → expired now (stored_in codec db).jobs
        ≡ ids (select (is_over now db.retention_seconds) db.batch_jobs)
  unfolding expired
  expired-stored_in codec now db dated =
      keys-select_rows (row_to_job codec) (is_expired now) db.batch_jobs
      ∙ ap ids (
          select_cong (λ row. is_expired now (row_to_job codec row))
            (is_over now db.retention_seconds) db.batch_jobs
            (All-imp (λ row. is_dated row ≡ true)
              (λ row. is_expired now (row_to_job codec row) ≡ is_over now db.retention_seconds row)
              db.batch_jobs (is_expired_row codec now db.retention_seconds) dated))

  -- The results of a job that stays are not touched by the cascade.
  of_job-cascade :
      (codec : Codec J) (job_id : String) (rows : List (JobRow J)) (xs : List (ResultRow J))
      → contains (ids rows) job_id ≡ true
      → of_job codec job_id (cascade rows xs) ≡ of_job codec job_id xs
  of_job-cascade codec job_id rows [] h = refl
  of_job-cascade codec job_id rows (x ∷ xs) h =
      ground (arith, of_job-cascade codec job_id rows xs h, string_key.same_iff x.job_id job_id)

  -- The sweep of the database is the sweep of the repository that it stores.
  pub stored_in-cleanup_expired :
      (codec : Codec J) (now : ℕ) (db : Database J)
      → IsValid db
      → stored_in codec (cleanup_expired now db) ≡ Memory.cleanup_expired now (stored_in codec db)
  unfolding cleanup_expired
  stored_in-cleanup_expired codec now db h =
      swept
      ∙ sym (
          cleanup_expired-without now (stored_in codec db)
          ∙ ap (λ ks. without ks (stored_in codec db)) (expired-stored_in codec now db h.dated))
    where
      over : JobRow J → Bool
      over = is_over now db.retention_seconds

      ks : List String
      ks = ids (select over db.batch_jobs)

      rows : List (JobRow J)
      rows = select (λ row. not (over row)) db.batch_jobs

      chosen : All (λ row. contains ks row.job_id ≡ over row) db.batch_jobs
      chosen = contains-selected (λ (row : JobRow J). row.job_id) over db.batch_jobs h.distinct

      untouched :
          All
            (λ row.
              ◌≡◌ {A = String × Dict ℕ JobItemResponse}
                (row.job_id, of_job codec row.job_id (cascade rows db.batch_job_results))
                (row.job_id, of_job codec row.job_id db.batch_job_results))
            rows
      untouched =
          All-imp (λ row. contains (ids rows) row.job_id ≡ true) _ rows
            (λ row there i.
              (row.job_id, of_job-cascade codec row.job_id rows db.batch_job_results there i))
            (All-contains (λ (row : JobRow J). row.job_id) rows)

      swept : stored_in codec (cleanup_expired now db) ≡ without ks (stored_in codec db)
      swept = λ i. record {
        jobs =
            sym
              (select-rows (λ (row : JobRow J). row.job_id) (row_to_job codec) ks over db.batch_jobs
                chosen)
              i;
        requests =
            sym
              (select-rows (λ (row : JobRow J). row.job_id)
                (λ row. codec.parse_request row.request_json) ks over db.batch_jobs chosen)
              i;
        results =
            (map_cong _ _ rows untouched
                ∙ sym (
                    select-rows (λ (row : JobRow J). row.job_id)
                      (λ row. of_job codec row.job_id db.batch_job_results) ks over db.batch_jobs
                      chosen))
              i;
      }
