-- ===== src/Jobs/Sqlite/Pages.antt =====
-- get_results and get_completed_items of SQLiteJobRepository, which do not sweep, against those of
-- MemoryJobRepository.
use creator_engagement_proje.Base.{
  ℕ, String, ◌≡◌, refl, ap, ◌∙◌, sym, false, List, [], ◌∷◌, map, arith, leb, string_key, nat_key,
  select, if◌then◌else◌, IsDistinct, Bool, tally,
}
use creator_engagement_proje.Base.Dict.{keys, values, lookup}
use creator_engagement_proje.Base.Select.{map-map}
use creator_engagement_proje.Models.{StoredJob, JobItemResponse}
use creator_engagement_proje.Jobs.Memory
use creator_engagement_proje.Jobs.Memory.{Repository, Outcome, key_taken, truthy}
use creator_engagement_proje.Jobs.Sqlite.{Codec, ResultRow, Database, row_to_job}
use creator_engagement_proje.Jobs.Sqlite.Statements.{rows_of}
use creator_engagement_proje.Jobs.Sqlite.Sweep.{of_job, stored_in, IsValid}
use creator_engagement_proje.Jobs.Memory.{results_of}
use creator_engagement_proje.Base.{if◌then◌else◌}
use creator_engagement_proje.Models.{CollectStatus}
use creator_engagement_proje.Jobs.Memory.{interrupted}
use creator_engagement_proje.Jobs.Sqlite.Appends.{results_of-stored_in}
use creator_engagement_proje.Base.{take, zero, suc}
use creator_engagement_proje.Jobs.Memory.Expiry.{has_expired, cleanup_expired_exact}
use creator_engagement_proje.Jobs.Sqlite.Statements.{
  insert_sorted, sorted, get_results, get_completed_items,
}

module _ {J : Type 0} (codec : Codec J) where
  abbrev read_row : ResultRow J → ℕ × JobItemResponse
  read_row x = (x.sequence, codec.parse_result x.result_json)

  map-insert_sorted :
      (x : ResultRow J) (ys : List (ResultRow J))
      → map read_row (insert_sorted x ys) ≡ Memory.insert_sorted (read_row x) (map read_row ys)
  unfolding insert_sorted Memory.insert_sorted
  map-insert_sorted x [] = refl
  map-insert_sorted x (y ∷ ys) = ground (arith, map-insert_sorted x ys)

  map-sorted :
      (xs : List (ResultRow J)) → map read_row (sorted xs) ≡ Memory.sorted (map read_row xs)
  unfolding sorted Memory.sorted
  map-sorted [] = refl
  map-sorted (x ∷ xs) =
      map-insert_sorted x (sorted xs) ∙ ap (Memory.insert_sorted (read_row x)) (map-sorted xs)

  -- Rows from an offset on.
  abbrev from : ℕ → List (ResultRow J) → List (ResultRow J)
  from offset xs = select (λ x. leb offset x.sequence) xs

  from-insert_sorted :
      (offset : ℕ) (x : ResultRow J) (ys : List (ResultRow J))
      → from offset (insert_sorted x ys)
        ≡ (if leb offset x.sequence then insert_sorted x (from offset ys) else from offset ys)
  unfolding insert_sorted
  from-insert_sorted offset x [] = refl
  from-insert_sorted offset x (y ∷ ys) = ground (arith, from-insert_sorted offset x ys)

  from-sorted :
      (offset : ℕ) (xs : List (ResultRow J)) → from offset (sorted xs) ≡ sorted (from offset xs)
  unfolding sorted
  from-sorted offset [] = refl
  from-sorted offset (x ∷ xs) =
      ground (arith, from-insert_sorted offset x (sorted xs), from-sorted offset xs)

  values-take :
      (n : ℕ) (xs : List (ResultRow J))
      → map (λ x. codec.parse_result x.result_json) (take n xs) ≡ take n (values (map read_row xs))
  values-take zero xs = refl
  values-take (suc n) [] = refl
  values-take (suc n) (x ∷ xs) = λ i. codec.parse_result x.result_json ∷ values-take n xs i

  select-read :
      (offset : ℕ) (xs : List (ResultRow J))
      → select {A = ℕ × JobItemResponse} (λ e. leb offset e.0) (map read_row xs)
        ≡ map read_row (from offset xs)
  select-read offset [] = refl
  select-read offset (x ∷ xs) = ground (arith, select-read offset xs)

  items-read :
      (xs : List (ResultRow J))
      → map {B = String × CollectStatus}
          (λ x. (codec.extract_item_id x.result_json, codec.extract_status x.result_json))
          xs
        ≡ map (λ r. (r.item_id, r.status)) (values (map read_row xs))
  items-read [] = refl
  items-read (x ∷ xs) = λ i.
      (codec.extracted_item_id x.result_json i, codec.extracted_status x.result_json i)
      ∷ items-read xs i

  -- The items of stored rows.
  abbrev item_states : List (ResultRow J) → List (String × CollectStatus)
  item_states xs =
      map (λ x. (codec.extract_item_id x.result_json, codec.extract_status x.result_json)) xs

  tally-insert_sorted :
      (test : String × CollectStatus → Bool) (x : ResultRow J) (ys : List (ResultRow J))
      → tally test (item_states (insert_sorted x ys)) ≡ tally test (item_states (x ∷ ys))
  unfolding insert_sorted
  tally-insert_sorted test x [] = refl
  tally-insert_sorted test x (y ∷ ys) = ground (arith, tally-insert_sorted test x ys)

  tally-sorted :
      (test : String × CollectStatus → Bool) (xs : List (ResultRow J))
      → tally test (item_states (sorted xs)) ≡ tally test (item_states xs)
  unfolding sorted
  tally-sorted test [] = refl
  tally-sorted test (x ∷ xs) =
      ground (arith, tally-insert_sorted test x (sorted xs), tally-sorted test xs)

  module _ (now : ℕ) (job_id : String) (db : Database J) (h : IsValid db)
      (live : has_expired now (lookup job_id (stored_in codec db).jobs) ≡ false) where
    kept :
        results_of job_id (Memory.cleanup_expired now (stored_in codec db))
        ≡ of_job codec job_id db.batch_job_results
    kept =
        (cleanup_expired_exact now (stored_in codec db) job_id distinct).2
        ∙ rw live (results_of-stored_in codec job_id db h)
      where
        distinct : IsDistinct (keys (stored_in codec db).jobs)
        distinct =
            rw
              (map-map (λ (e : String × StoredJob). e.0) (λ row. (row.job_id, row_to_job codec row))
                db.batch_jobs)
              h.distinct

    -- On a valid database, for a job that has not expired: get_results gives the page that the
    -- in-memory get_results gives on the repository that the database stores; get_completed_items
    -- gives the identifiers and states of the results that the repository holds of the job, in the
    -- order of their sequence, each as often as the in-memory get_completed_items gives it.
    pub results-stored_in :
        (offset limit : ℕ) (test : String × CollectStatus → Bool)
        → (get_results codec job_id offset limit db
            ≡ (Memory.get_results now job_id offset limit (stored_in codec db)).0)
          × (get_completed_items codec job_id db
              ≡ map
                  (λ r. (r.item_id, r.status))
                  (values (Memory.sorted (results_of job_id (stored_in codec db)))))
          × (tally test (get_completed_items codec job_id db)
              ≡ tally test (Memory.get_completed_items now job_id (stored_in codec db)).0)
    unfolding get_results get_completed_items Memory.get_results Memory.get_completed_items
        Memory.page_of
    results-stored_in offset limit test = rw kept (
      values-take limit (sorted (from offset own))
          ∙ ap (λ l. take limit (values l))
              (ap (map read_row) (sym (from-sorted offset own))
                ∙ sym (select-read offset (sorted own))
                ∙ ap (select {A = ℕ × JobItemResponse} (λ e. leb offset e.0)) (map-sorted own)),
      items-read (sorted own)
          ∙ ap (λ l. map (λ (r : JobItemResponse). (r.item_id, r.status)) (values l))
              (map-sorted own ∙ ap Memory.sorted (sym (results_of-stored_in codec job_id db h))),
      tally-sorted test own ∙ ap (tally test) (items-read own),
    )
      where
        own : List (ResultRow J)
        own = rows_of job_id db
