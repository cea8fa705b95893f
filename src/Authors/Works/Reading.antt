-- ===== src/Authors/Works/Reading.antt =====
-- A client that follows the result cursors of a running author job while its works change.
use creator_engagement_proje.Base.{
  ℕ, ◌+◌, ◌*◌, ◌≤◌, String, ◌≡◌, refl, Bool, true, false, not, ◌&&◌, ◌||◌, Option, none, List, [],
  ◌++◌, select, length, ◌==◌, string_key, nat_key, All, contains, arith, sym, subst,
}
use creator_engagement_proje.Base.Select.{All-update, All-imp}
use creator_engagement_proje.Authors.Works.{
  Work, AuthorWork, page_size, save_page, prepare_details, claim_detail, save_detail, set_expiry,
  is_after, results, results_page, last_sequence,
}
use creator_engagement_proje.Authors.Works.Pages.{sequences}
use creator_engagement_proje.Authors.Works.Following.{
  IsBelow, is_settled, saved-IsBelow, saved_other-IsBelow, claimed-IsBelow, page_rows, read-IsBelow,
  All-settled, select-All,
}

-- The works, the number of pages saved of the job, the cursor that a client has, and the numbers of
-- the works it was given with their details settled. Pages of other jobs come in between, claims, details, retries and
-- changes of the expiry; a page of the job is saved once.
pub data Reading (job_id : String) : List Work → ℕ → Option ℕ → List ℕ → Type 0 where
  opened : Reading job_id [] 0 none []
  saved :
      {works : List Work} {n : ℕ} {cursor : Option ℕ} {seen : List ℕ} (page : List AuthorWork)
      → length page ≤ page_size
      → Reading job_id works n cursor seen
      → Reading job_id (save_page job_id n page works).1 (n + 1) cursor seen
  saved_other :
      {works : List Work} {n : ℕ} {cursor : Option ℕ} {seen : List ℕ} (other : String)
      (page_index : ℕ) (page : List AuthorWork)
      → (other == job_id) ≡ false
      → Reading job_id works n cursor seen
      → Reading job_id (save_page other page_index page works).1 n cursor seen
  prepared :
      {works : List Work} {n : ℕ} {cursor : Option ℕ} {seen : List ℕ} (any_job : String)
      (retry_failed : Bool)
      → Reading job_id works n cursor seen
      → Reading job_id (prepare_details any_job retry_failed works) n cursor seen
  claimed_one :
      {works : List Work} {n : ℕ} {cursor : Option ℕ} {seen : List ℕ} (any_job : String)
      → Reading job_id works n cursor seen
      → Reading job_id (claim_detail any_job works).1 n cursor seen
  settled :
      {works : List Work} {n : ℕ} {cursor : Option ℕ} {seen : List ℕ} (any_job : String)
      (work : AuthorWork)
      → Reading job_id works n cursor seen
      → Reading job_id (save_detail any_job work works) n cursor seen
  dated :
      {works : List Work} {n : ℕ} {cursor : Option ℕ} {seen : List ℕ} (any_job : String)
      (expires_at : Option ℕ)
      → Reading job_id works n cursor seen
      → Reading job_id (set_expiry any_job expires_at works) n cursor seen
  read :
      {works : List Work} {n : ℕ} {cursor : Option ℕ} {seen : List ℕ} (limit : ℕ)
      → Reading job_id works n cursor seen
      → Reading job_id works n
          (last_sequence cursor (results_page job_id true cursor limit works).0)
          (seen ++ sequences (select is_settled (results_page job_id true cursor limit works).0))

module _ {job_id : String} where
  IsBelow-works :
      {works : List Work} {n : ℕ} {cursor : Option ℕ} {seen : List ℕ}
      → Reading job_id works n cursor seen
      → (is_after cursor (n * page_size) ≡ true) × All (IsBelow job_id n cursor seen) works
  unfolding prepare_details save_detail set_expiry
  IsBelow-works opened = (refl, tt)
  IsBelow-works (saved {works} {n} {cursor} {seen} page fits reading) =
      let h = IsBelow-works reading in
      (ground (arith, h.0), saved-IsBelow job_id n cursor seen works h.0 h.1 page fits)
  IsBelow-works (saved_other {works} {n} {cursor} {seen} other page_index page differs reading) =
      let h = IsBelow-works reading in
      (h.0, saved_other-IsBelow job_id n cursor seen works h.0 h.1 other page_index page differs)
  IsBelow-works (prepared {works} {n} {cursor} {seen} any_job retry_failed reading) =
      let h = IsBelow-works reading in
      (h.0, All-update (IsBelow job_id n cursor seen) _ _ works (λ w b. b) h.1)
  IsBelow-works (claimed_one {works} {n} {cursor} {seen} any_job reading) =
      let h = IsBelow-works reading in
      (h.0, claimed-IsBelow job_id n cursor seen works h.0 h.1 any_job)
  IsBelow-works (settled {works} {n} {cursor} {seen} any_job work reading) =
      let h = IsBelow-works reading in
      (h.0, All-update (IsBelow job_id n cursor seen) _ _ works (λ w b. b) h.1)
  IsBelow-works (dated {works} {n} {cursor} {seen} any_job expires_at reading) =
      let h = IsBelow-works reading in
      (h.0, All-update (IsBelow job_id n cursor seen) _ _ works (λ w b. b) h.1)
  IsBelow-works (read {works} {n} {cursor} {seen} limit reading) =
      let h = IsBelow-works reading in
      subst
        (λ rows.
          (is_after (last_sequence cursor rows) (n * page_size) ≡ true)
          × All
              (IsBelow job_id n (last_sequence cursor rows)
                (seen ++ sequences (select is_settled rows)))
              works)
        (sym (page_rows job_id n cursor seen works limit h.0 h.1))
        (subst
          (λ rows.
            (is_after (last_sequence cursor (results job_id cursor limit true works))
                (n * page_size)
              ≡ true)
            × All
                (IsBelow job_id n (last_sequence cursor (results job_id cursor limit true works))
                  (seen ++ sequences rows))
                works)
          (sym (
            select-All is_settled (results job_id cursor limit true works)
              (All-settled job_id n cursor seen works limit h.0 h.1)))
          (read-IsBelow job_id n cursor seen works limit h.0 h.1))

  -- A client that follows the cursors of a running job never misses a result: whatever pages of
  -- works are saved, claimed, settled, retried and dated between its requests, for this job (each
  -- page once) and for others, and whatever page sizes it asks for, each work of the job up to its
  -- cursor has been given to it with its details settled.
  pub Reading-misses_none :
      {works : List Work} {n : ℕ} {cursor : Option ℕ} {seen : List ℕ}
      → Reading job_id works n cursor seen
      → All
          (λ w.
            (not (w.job_id == job_id && not (is_after cursor w.sequence))
              || contains seen w.sequence)
            ≡ true)
          works
  Reading-misses_none {works} {n} {cursor} {seen} reading =
      All-imp (IsBelow job_id n cursor seen)
        (λ w.
          (not (w.job_id == job_id && not (is_after cursor w.sequence)) || contains seen w.sequence)
          ≡ true)
        works (λ w b. b.1) (IsBelow-works reading).1
