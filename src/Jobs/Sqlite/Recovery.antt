-- ===== src/Jobs/Sqlite/Recovery.antt =====
-- recover_interrupted of SQLiteJobRepository, against that of MemoryJobRepository followed by its
-- sweep.
use creator_engagement_proje.Base.{
  ℕ, String, ◌≡◌, refl, ap, ◌∙◌, sym, Bool, true, false, some, List, [], ◌∷◌, map, arith,
  string_key, nat_key, contains, select, ◌==◌, if◌then◌else◌, All, IsDistinct, Bool-cases, inl, inr,
  length,
}
use creator_engagement_proje.Base.Dict.{Dict, same_refl, keys, values, lookup, insert}
use creator_engagement_proje.Base.Select.{
  All-imp, select-IsDistinct, map-map, map_cong, map_same, map_ext, All-contains,
}
use creator_engagement_proje.Models.{StoredJob}
use creator_engagement_proje.Jobs.Memory
use creator_engagement_proje.Jobs.Memory.{Repository, Outcome, key_taken, truthy}
use creator_engagement_proje.Jobs.Sqlite.{Codec, JobRow, ResultRow, Database, row_to_job}
use creator_engagement_proje.Jobs.Sqlite.Statements.{update_where}
use creator_engagement_proje.Jobs.Sqlite.Sweep.{ids, of_job, stored_in, IsValid, is_dated}
use creator_engagement_proje.Jobs.Sqlite.Writes.{cleanup_expired-IsValid}
use creator_engagement_proje.Jobs.Memory.{results_of}
use creator_engagement_proje.Base.{tally, if◌then◌else◌}
use creator_engagement_proje.Base.Select.{keys-insert_there, Dict_ext, contains-selected}
use creator_engagement_proje.Models.{is_open, is_success}
use creator_engagement_proje.Jobs.Memory.{interrupted}
use creator_engagement_proje.Jobs.Memory.Recovery.{recovered, jobs-recover_interrupted}
use creator_engagement_proje.Jobs.Sqlite.Statements.{
  recover_each, recover_interrupted, interrupted_row, extracted_success,
}
use creator_engagement_proje.Jobs.Sqlite.Sweep.{stored_in-cleanup_expired}
use creator_engagement_proje.Jobs.Sqlite.Appends.{results_of-stored_in}

abbrev is_open_row : {J : Type 0} → JobRow J → Bool
is_open_row row = is_open row.status

module _ {J : Type 0} (codec : Codec J) (now retention : ℕ) where
  -- An open row after a restart, by the results of its job.
  abbrev changed : List (ResultRow J) → JobRow J → JobRow J
  changed xs row =
      let own = select (λ x. x.job_id == row.job_id) xs in
      interrupted_row now retention (length own) (tally (extracted_success codec) own) row

  abbrev change_if : (JobRow J → Bool) → List (ResultRow J) → JobRow J → JobRow J
  change_if test xs row = if test row then changed xs row else row

  counted_row : String → List (ResultRow J) → JobRow J → JobRow J
  counted_row job_id xs row =
      let own = select (λ x. x.job_id == job_id) xs in
      interrupted_row now retention (length own) (tally (extracted_success codec) own) row

  -- One round of the loop, before the others.
  change_next :
      (t : JobRow J) (ts : List (JobRow J)) (xs : List (ResultRow J)) (row : JobRow J)
      → contains (ids ts) t.job_id ≡ false
      → change_if
          (λ r. contains (ids ts) r.job_id)
          xs
          (if row.job_id == t.job_id then counted_row t.job_id xs row else row)
        ≡ change_if (λ r. contains (ids (t ∷ ts)) r.job_id) xs row
  unfolding counted_row interrupted_row
  change_next t ts xs row absent = elim (Bool-cases (row.job_id == t.job_id)) [
    | inl here ↦
        let k : row.job_id ≡ t.job_id = (string_key.same_iff row.job_id t.job_id).0 here in
        let gone : contains (ids ts) row.job_id ≡ false = (rw k absent) in
        let back : (t.job_id == row.job_id) ≡ true = (rw k (same_refl t.job_id)) in
        rw (here, gone, back) (λ i. counted_row (sym k i) xs row)
    | inr other ↦
        let back : (t.job_id == row.job_id) ≡ false = ground (
          arith,
          string_key.same_iff t.job_id row.job_id,
          string_key.same_iff row.job_id t.job_id,
        ) in
        rw (other, back)
  ]

  -- The loop changes the rows of its list, each once.
  jobs-recover_each :
      (todo : List (JobRow J)) (db : Database J)
      → IsDistinct (ids todo)
      → recover_each codec now retention todo db ≡ record db {
        batch_jobs =
            map
              (change_if (λ row. contains (ids todo) row.job_id) db.batch_job_results)
              db.batch_jobs;
      }
  unfolding recover_each counted_row
  jobs-recover_each [] db h =
      λ i. record db { batch_jobs = sym (map_same (λ row. row) db.batch_jobs (λ row. refl)) i }
  jobs-recover_each (t ∷ ts) db h =
      let xs = db.batch_job_results in
      let test : JobRow J → Bool = λ row. row.job_id == t.job_id in
      let db1 : Database J = record db {
        batch_jobs = update_where test (counted_row t.job_id xs) db.batch_jobs;
      } in
      let rounds =
        map-map (change_if (λ row. contains (ids ts) row.job_id) xs)
          (λ row. if test row then counted_row t.job_id xs row else row) db.batch_jobs
        ∙ map_ext _ (change_if (λ r. contains (ids (t ∷ ts)) r.job_id) xs) db.batch_jobs
            (λ row. change_next t ts xs row h.0) in
      jobs-recover_each ts db1 h.1 ∙ (λ i. record db { batch_jobs = rounds i })

  length-of_job :
      (job_id : String) (xs : List (ResultRow J))
      → length (select (λ x. x.job_id == job_id) xs) ≡ length (values (of_job codec job_id xs))
  length-of_job job_id [] = refl
  length-of_job job_id (x ∷ xs) = ground (arith, length-of_job job_id xs)

  tally-of_job :
      (job_id : String) (xs : List (ResultRow J))
      → tally (extracted_success codec) (select (λ x. x.job_id == job_id) xs)
        ≡ tally is_success (values (of_job codec job_id xs))
  tally-of_job job_id [] = refl
  tally-of_job job_id (x ∷ xs) =
      ground (arith, tally-of_job job_id xs, codec.extracted_status x.result_json)

  row_to_job-changed :
      (xs : List (ResultRow J)) (row : JobRow J)
      → row_to_job codec (changed xs row)
        ≡ interrupted now retention (values (of_job codec row.job_id xs)) (row_to_job codec row)
  unfolding row_to_job interrupted_row interrupted
  row_to_job-changed xs row = rw (length-of_job row.job_id xs, tally-of_job row.job_id xs)

  ids-change :
      (test : JobRow J → Bool) (xs : List (ResultRow J)) (rows : List (JobRow J))
      → ids (map (change_if test xs) rows) ≡ ids rows
  unfolding interrupted_row
  ids-change test xs [] = refl
  ids-change test xs (row ∷ rows) = elim (Bool-cases (test row)) [
    | inl hit ↦ rw hit (λ i. row.job_id ∷ ids-change test xs rows i)
    | inr miss ↦ rw miss (λ i. row.job_id ∷ ids-change test xs rows i)
  ]

  dated-change :
      (test : JobRow J → Bool) (xs : List (ResultRow J)) (rows : List (JobRow J))
      → All (λ row. is_dated row ≡ true) rows
      → All (λ row. is_dated row ≡ true) (map (change_if test xs) rows)
  unfolding interrupted_row
  dated-change test xs [] h = tt
  dated-change test xs (row ∷ rows) h = elim (Bool-cases (test row)) [
    | inl hit ↦ rw hit (refl, dated-change test xs rows h.1)
    | inr miss ↦ rw miss (h.0, dated-change test xs rows h.1)
  ]

  change_kept :
      {V : Type 0} (f : JobRow J → V) (test : JobRow J → Bool) (xs : List (ResultRow J))
      (rows : List (JobRow J))
      → ((row : JobRow J) → f (changed xs row) ≡ f row)
      → map f (map (change_if test xs) rows) ≡ map f rows
  change_kept f test xs [] same = refl
  change_kept f test xs (row ∷ rows) same = elim (Bool-cases (test row)) [
    | inl hit ↦ rw hit (λ i. same row i ∷ change_kept f test xs rows same i)
    | inr miss ↦ rw miss (λ i. f row ∷ change_kept f test xs rows same i)
  ]

  lookup-change :
      (i : String) (xs : List (ResultRow J)) (rows : List (JobRow J))
      → lookup i
          (map (λ row. (row.job_id, row_to_job codec row)) (map (change_if is_open_row xs) rows))
        ≡ recovered now retention
            (values (of_job codec i xs))
            (lookup i (map (λ row. (row.job_id, row_to_job codec row)) rows))
  unfolding lookup interrupted_row row_to_job
  lookup-change i xs [] = refl
  lookup-change i xs (row ∷ rows) = elim (Bool-cases (row.job_id == i)) [
    | inl here ↦
        let k : row.job_id ≡ i = (string_key.same_iff row.job_id i).0 here in
        elim (Bool-cases (is_open row.status)) [
          | inl opened ↦
              rw (opened, here, opened)
                (λ j. some (
                  (row_to_job-changed xs row ∙ (λ l.
                      interrupted now retention (values (of_job codec (k l) xs))
                        (row_to_job codec row)))
                    j))
          | inr closed ↦ rw (closed, here, closed)
        ]
    | inr other ↦ elim (Bool-cases (is_open row.status)) [
      | inl opened ↦ rw (opened, other) (lookup-change i xs rows)
      | inr closed ↦ rw (closed, other) (lookup-change i xs rows)
    ]
  ]

module _ (now retention : ℕ) where
  keys-recover_each :
      (es : Dict String StoredJob) (r : Repository)
      → All (λ e. contains (keys r.jobs) e.0 ≡ true) es
      → keys (Memory.recover_each now retention es r).jobs ≡ keys r.jobs
  unfolding Memory.recover_each
  keys-recover_each [] r h = refl
  keys-recover_each ((k, job) ∷ es) r h = elim (Bool-cases (is_open job.status)) [
    | inl opened ↦
        let v : StoredJob = interrupted now retention (values (results_of k r)) job in
        let same : keys (insert k v r.jobs) ≡ keys r.jobs = keys-insert_there k v r.jobs h.0 in
        rw (opened, Memory.recover_each)
          (keys-recover_each es (record r { jobs = insert k v r.jobs }) (rw same h.1) ∙ same)
    | inr closed ↦ rw (closed, Memory.recover_each) (keys-recover_each es r h.1)
  ]

  only_jobs :
      (es : Dict String StoredJob) (r : Repository)
      → Memory.recover_each now retention es r
        ≡ record r { jobs = (Memory.recover_each now retention es r).jobs }
  unfolding Memory.recover_each
  only_jobs [] r = refl
  only_jobs ((k, job) ∷ es) r = elim (Bool-cases (is_open job.status)) [
    | inl opened ↦
        let v : StoredJob = interrupted now retention (values (results_of k r)) job in
        rw (opened, Memory.recover_each) (only_jobs es (record r { jobs = insert k v r.jobs }))
    | inr closed ↦ rw (closed, Memory.recover_each) (only_jobs es r)
  ]

module _ {J : Type 0} (codec : Codec J) (now retention : ℕ) (db : Database J) (h : IsValid db) where
  all_changed : Database J
  all_changed = record db {
    batch_jobs = map (change_if codec now retention is_open_row db.batch_job_results) db.batch_jobs;
  }

  keys-jobs :
      (rows : List (JobRow J))
      → keys (map (λ row. (row.job_id, row_to_job codec row)) rows) ≡ ids rows
  keys-jobs rows =
      map-map (λ (e : String × StoredJob). e.0) (λ row. (row.job_id, row_to_job codec row)) rows

  recover_each-all :
      recover_each codec now retention (select (λ row. is_open row.status) db.batch_jobs) db
      ≡ all_changed
  unfolding all_changed
  recover_each-all =
      let xs = db.batch_job_results in
      let todo = select is_open_row db.batch_jobs in
      jobs-recover_each codec now retention todo db
        (select-IsDistinct (λ (row : JobRow J). row.job_id) is_open_row db.batch_jobs h.distinct)
      ∙ (λ i. record db {
        batch_jobs =
            map_cong (change_if codec now retention (λ row. contains (ids todo) row.job_id) xs)
              (change_if codec now retention is_open_row xs) db.batch_jobs
              (All-imp (λ row. contains (ids todo) row.job_id ≡ is_open_row row)
                (λ row.
                  change_if codec now retention (λ row. contains (ids todo) row.job_id) xs row
                  ≡ change_if codec now retention is_open_row xs row)
                db.batch_jobs (λ row e j. if e j then changed codec now retention xs row else row)
                (contains-selected (λ (row : JobRow J). row.job_id) is_open_row db.batch_jobs
                  h.distinct))
              i;
      })

  all_changed-IsValid : IsValid all_changed
  unfolding all_changed
  all_changed-IsValid = record {
    distinct =
        rw (ids-change codec now retention is_open_row db.batch_job_results db.batch_jobs)
          h.distinct;
    owned =
        rw (ids-change codec now retention is_open_row db.batch_job_results db.batch_jobs) h.owned;
    dated = dated-change codec now retention is_open_row db.batch_job_results db.batch_jobs h.dated;
  }

  all_changed-stored_in :
      stored_in codec all_changed ≡ Memory.recover_interrupted now retention (stored_in codec db)
  unfolding all_changed Memory.recover_interrupted interrupted_row
  all_changed-stored_in =
      (λ i. record { jobs = jobs_same i; requests = requests_same i; results = results_same i })
      ∙ sym (only_jobs now retention r.jobs r)
    where
      r : Repository
      r = stored_in codec db

      xs : List (ResultRow J)
      xs = db.batch_job_results

      rows : List (JobRow J)
      rows = map (change_if codec now retention is_open_row xs) db.batch_jobs

      ids_same : ids rows ≡ ids db.batch_jobs
      ids_same = ids-change codec now retention is_open_row xs db.batch_jobs

      jobs_same :
          map (λ row. (row.job_id, row_to_job codec row)) rows
          ≡ (Memory.recover_each now retention r.jobs r).jobs
      jobs_same =
          Dict_ext (map (λ row. (row.job_id, row_to_job codec row)) rows)
            (Memory.recover_each now retention r.jobs r).jobs
            (keys-jobs rows
              ∙ ids_same
              ∙ sym (keys-jobs db.batch_jobs)
              ∙ sym (
                  keys-recover_each now retention r.jobs r
                    (All-contains (λ (e : String × StoredJob). e.0) r.jobs)))
            (rw (keys-jobs rows, ids_same) h.distinct)
            (λ i.
              lookup-change codec now retention i xs db.batch_jobs
              ∙ (λ j.
                  recovered now retention (values (sym (results_of-stored_in codec i db h) j))
                    (lookup i r.jobs))
              ∙ sym (
                  jobs-recover_interrupted now retention r i
                    (rw (keys-jobs db.batch_jobs) h.distinct)))

      requests_same :
          map (λ row. (row.job_id, codec.parse_request row.request_json)) rows ≡ r.requests
      requests_same =
          change_kept codec now retention
            (λ row. (row.job_id, codec.parse_request row.request_json)) is_open_row xs db.batch_jobs
            (λ row. refl)

      results_same : map (λ row. (row.job_id, of_job codec row.job_id xs)) rows ≡ r.results
      results_same =
          change_kept codec now retention (λ row. (row.job_id, of_job codec row.job_id xs))
            is_open_row xs db.batch_jobs (λ row. refl)

  -- On a valid database: recover_interrupted leaves a valid database, which stores what the
  -- in-memory recover_interrupted, and then the sweep, make of the repository that the old one
  -- stores.
  pub recover_interrupted-stored_in :
      (stored_in codec (recover_interrupted codec now retention db)
        ≡ Memory.cleanup_expired now
            (Memory.recover_interrupted now retention (stored_in codec db)))
      × IsValid (recover_interrupted codec now retention db)
  unfolding recover_interrupted
  recover_interrupted-stored_in = rw recover_each-all (
    stored_in-cleanup_expired codec now all_changed all_changed-IsValid
        ∙ ap (Memory.cleanup_expired now) all_changed-stored_in,
    cleanup_expired-IsValid now all_changed all_changed-IsValid,
  )
