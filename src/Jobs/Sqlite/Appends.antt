-- ===== src/Jobs/Sqlite/Appends.antt =====
-- append_result of SQLiteJobRepository, against that of MemoryJobRepository.
use creator_engagement_proje.Base.{
  ℕ, String, ◌≡◌, refl, ◌∙◌, sym, true, false, ◌&&◌, none, some, List, [], ◌∷◌, ◌++◌, map, arith,
  string_key, nat_key, contains, ◌==◌, if◌then◌else◌, IsDistinct, any, Bool-cases, inl, inr,
  All-append_one,
}
use creator_engagement_proje.Base.Dict.{Dict, same_refl, keys, lookup, insert}
use creator_engagement_proje.Base.Select.{insert_new}
use creator_engagement_proje.Models.{JobItemResponse}
use creator_engagement_proje.Jobs.Memory
use creator_engagement_proje.Jobs.Memory.{Repository, Outcome, key_taken, truthy}
use creator_engagement_proje.Jobs.Sqlite.{Codec, JobRow, ResultRow, Database, written}
use creator_engagement_proje.Jobs.Sqlite.Statements.{append_result, refuses}
use creator_engagement_proje.Jobs.Sqlite.Sweep.{ids, of_job, stored_in, IsValid}
use creator_engagement_proje.Jobs.Sqlite.Writes.{of_job_none, any-rows}
use creator_engagement_proje.Jobs.Memory.{results_of}

module _ {J : Type 0} where
  of_job-append :
      (codec : Codec J) (job_id : String) (x : ResultRow J) (xs : List (ResultRow J))
      → of_job codec job_id (xs ++ x ∷ []) ≡ (
          if x.job_id == job_id
          then of_job codec job_id xs ++ (x.sequence, codec.parse_result x.result_json) ∷ []
          else of_job codec job_id xs)
  of_job-append codec job_id x [] = ground arith
  of_job-append codec job_id x (y ∷ xs) = ground (arith, of_job-append codec job_id x xs)

  contains-of_job :
      (codec : Codec J) (job_id : String) (sequence : ℕ) (xs : List (ResultRow J))
      → contains (keys (of_job codec job_id xs)) sequence
        ≡ any (λ x. x.job_id == job_id && x.sequence == sequence) xs
  contains-of_job codec job_id sequence [] = refl
  contains-of_job codec job_id sequence (x ∷ xs) =
      ground (arith, contains-of_job codec job_id sequence xs)

  -- The dictionary of results of the jobs, before and after.
  abbrev results_in :
      Codec J → List (ResultRow J) → List (JobRow J) → Dict String (Dict ℕ JobItemResponse)
  results_in codec xs rows = map (λ row. (row.job_id, of_job codec row.job_id xs)) rows

  results_in_other :
      (codec : Codec J) (x : ResultRow J) (xs : List (ResultRow J)) (rows : List (JobRow J))
      → contains (ids rows) x.job_id ≡ false
      → results_in codec (xs ++ x ∷ []) rows ≡ results_in codec xs rows
  results_in_other codec x xs [] h = refl
  results_in_other codec x xs (row ∷ rows) h =
      let other : (x.job_id == row.job_id) ≡ false =
        ground (
          arith,
          string_key.same_iff x.job_id row.job_id,
          string_key.same_iff row.job_id x.job_id,
        ) in
      rw (of_job-append codec row.job_id x xs, other)
        (λ i.
          (row.job_id, of_job codec row.job_id xs)
          ∷ results_in_other codec x xs rows (ground arith) i)

  of_job-append_own :
      (codec : Codec J) (x : ResultRow J) (xs : List (ResultRow J))
      → any (λ y. y.job_id == x.job_id && y.sequence == x.sequence) xs ≡ false
      → of_job codec x.job_id (xs ++ x ∷ [])
        ≡ insert x.sequence (codec.parse_result x.result_json) (of_job codec x.job_id xs)
  of_job-append_own codec x xs fresh =
      rw (of_job-append codec x.job_id x xs, same_refl x.job_id)
        (sym (
          insert_new x.sequence (codec.parse_result x.result_json) (of_job codec x.job_id xs)
            (contains-of_job codec x.job_id x.sequence xs ∙ fresh)))

  results_in-append :
      (codec : Codec J) (x : ResultRow J) (xs : List (ResultRow J)) (rows : List (JobRow J))
      → IsDistinct (ids rows)
      → contains (ids rows) x.job_id ≡ true
      → any (λ y. y.job_id == x.job_id && y.sequence == x.sequence) xs ≡ false
      → results_in codec (xs ++ x ∷ []) rows
        ≡ insert x.job_id
            (insert x.sequence (codec.parse_result x.result_json) (of_job codec x.job_id xs))
            (results_in codec xs rows)
  unfolding insert
  results_in-append codec x xs [] h there fresh = absurd (cc)
  results_in-append codec x xs (row ∷ rows) h there fresh =
      elim (Bool-cases (row.job_id == x.job_id)) [
        | inl here ↦
            let k : row.job_id ≡ x.job_id = (string_key.same_iff row.job_id x.job_id).0 here in
            let absent : contains (ids rows) x.job_id ≡ false = (rw k at h.0) in
            let head : of_job codec row.job_id (xs ++ x ∷ [])
                ≡ insert x.sequence (codec.parse_result x.result_json) (of_job codec x.job_id xs) =
              (rw k (of_job-append_own codec x xs fresh)) in
            rw here (λ i. (row.job_id, head i) ∷ results_in_other codec x xs rows absent i)
        | inr other ↦
            let other' : (x.job_id == row.job_id) ≡ false = ground (
              arith,
              string_key.same_iff x.job_id row.job_id,
              string_key.same_iff row.job_id x.job_id,
            ) in
            let there' : contains (ids rows) x.job_id ≡ true = (rw other at there) in
            rw (other, of_job-append codec row.job_id x xs, other')
              (λ i.
                (row.job_id, of_job codec row.job_id xs)
                ∷ results_in-append codec x xs rows h.1 there' fresh i)
      ]

  lookup-results_in :
      (codec : Codec J) (job_id : String) (xs : List (ResultRow J)) (rows : List (JobRow J))
      → contains (ids rows) job_id ≡ true
      → lookup job_id (results_in codec xs rows) ≡ some (of_job codec job_id xs)
  unfolding lookup
  lookup-results_in codec job_id xs [] there = absurd (cc)
  lookup-results_in codec job_id xs (row ∷ rows) there = elim (Bool-cases (row.job_id == job_id)) [
    | inl here ↦
        rw here (λ i. some (of_job codec ((string_key.same_iff row.job_id job_id).0 here i) xs))
    | inr other ↦ rw other (lookup-results_in codec job_id xs rows (rw other at there))
  ]

  lookup-results_in-none :
      (codec : Codec J) (job_id : String) (xs : List (ResultRow J)) (rows : List (JobRow J))
      → contains (ids rows) job_id ≡ false
      → lookup job_id (results_in codec xs rows) ≡ none
  unfolding lookup
  lookup-results_in-none codec job_id xs [] absent = refl
  lookup-results_in-none codec job_id xs (row ∷ rows) absent =
      ground (arith, lookup-results_in-none codec job_id xs rows)

  -- The results that a repository keeps of a job, in the database that stores it.
  pub results_of-stored_in :
      (codec : Codec J) (job_id : String) (db : Database J)
      → IsValid db
      → results_of job_id (stored_in codec db) ≡ of_job codec job_id db.batch_job_results
  results_of-stored_in codec job_id db h = elim (Bool-cases (contains (ids db.batch_jobs) job_id)) [
    | inl there ↦
        rw (lookup-results_in codec job_id db.batch_job_results db.batch_jobs there, results_of)
    | inr absent ↦
        rw
          (
            lookup-results_in-none codec job_id db.batch_job_results db.batch_jobs absent,
            results_of,
          )
          (sym (of_job_none codec job_id db.batch_jobs db.batch_job_results absent h.owned))
  ]

  -- On a valid database, for a job that it holds and a sequence number that the job has no result
  -- under: append_result succeeds and leaves a valid database, which stores what append_result
  -- makes of the repository that the old one stores.
  pub append_result-stored_in :
      (codec : Codec J) (job_id : String) (sequence : ℕ) (result : JobItemResponse)
      (db : Database J)
      → IsValid db
      → refuses job_id sequence db ≡ false
      → ((append_result codec job_id sequence result db).0 ≡ written)
        × (stored_in codec (append_result codec job_id sequence result db).1
            ≡ Memory.append_result job_id sequence result (stored_in codec db))
        × IsValid (append_result codec job_id sequence result db).1
  unfolding append_result Memory.append_result
  append_result-stored_in codec job_id sequence result db h accepts = rw accepts (
    refl,
    (λ i. record {
      jobs = (stored_in codec db).jobs;
      requests = (stored_in codec db).requests;
      results = stores i;
    }),
    record {
      distinct = h.distinct;
      owned =
          All-append_one (λ x. contains (ids db.batch_jobs) x.job_id ≡ true) db.batch_job_results x
            h.owned there;
      dated = h.dated;
    },
  )
    where
      there : contains (ids db.batch_jobs) job_id ≡ true
      there = sym (any-rows job_id db.batch_jobs) ∙ ground arith

      x : ResultRow J
      x = record { job_id = job_id; sequence = sequence; result_json = codec.dump_result result }

      stores :
          results_in codec (db.batch_job_results ++ x ∷ []) db.batch_jobs
          ≡ insert job_id
              (insert sequence result (results_of job_id (stored_in codec db)))
              (stored_in codec db).results
      stores =
          results_in-append codec x db.batch_job_results db.batch_jobs h.distinct there
            (ground arith)
          ∙ rw (codec.parse-dump_result result, results_of-stored_in codec job_id db h)
