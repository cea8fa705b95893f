-- ===== src/Jobs/Memory/Pages.antt =====
-- Result pages of MemoryJobRepository, of results that were appended under 0, 1, 2, ….
use creator_engagement_proje.Base.{
  ℕ, suc, ◌+◌, ◌-◌, String, ◌≡◌, refl, false, List, [], ◌∷◌, ◌++◌, arith, leb, ap, ◌∙◌, ◌==◌,
  nat_key, Bool-cases, inl, inr, IsDistinct, select, length, take, drop, drop-nil, string_key,
}
use creator_engagement_proje.Base.Dict.{
  Dict, keys, values, lookup, insert, lookup-insert_self, lookup-insert,
}
use creator_engagement_proje.Models.{JobItemResponse}
use creator_engagement_proje.Jobs.Memory.{
  Repository, insert_sorted, sorted, page_of, get_results, append_result, results_of,
  cleanup_expired,
}
use creator_engagement_proje.Jobs.Memory.Expiry.{has_expired, results-cleanup_expired}

-- The results of a job that were appended in turn, the first under `start`.
abbrev pub numbered : ℕ → List JobItemResponse → Dict ℕ JobItemResponse
numbered start [] = []
numbered start (x ∷ xs) = (start, x) ∷ numbered (suc start) xs

-- A job's results, in the order in which they were appended, with nothing missing.
abbrev pub HasResults : String → List JobItemResponse → Repository → Type 0
HasResults job_id xs r = results_of job_id r ≡ numbered 0 xs

insert-numbered :
    (start key : ℕ) (xs : List JobItemResponse) (x : JobItemResponse)
    → key ≡ start + length xs
    → insert key x (numbered start xs) ≡ numbered start (xs ++ x ∷ [])
unfolding insert
insert-numbered start key [] x e = ground arith
insert-numbered start key (y ∷ ys) x e = ground (arith, insert-numbered (suc start) key ys x)

sorted-numbered :
    (start : ℕ) (xs : List JobItemResponse) → sorted (numbered start xs) ≡ numbered start xs
unfolding sorted insert_sorted
sorted-numbered start [] = refl
sorted-numbered start (x ∷ []) = refl
sorted-numbered start (x ∷ y ∷ ys) = rw (sorted-numbered (suc start) (y ∷ ys)) (ground arith)

pub values-numbered : (start : ℕ) (xs : List JobItemResponse) → values (numbered start xs) ≡ xs
values-numbered start [] = refl
values-numbered start (x ∷ xs) = ap (λ ys. x ∷ ys) (values-numbered (suc start) xs)

select-numbered :
    (offset start : ℕ) (xs : List JobItemResponse)
    → values (select (λ e. leb offset e.0) (numbered start xs)) ≡ drop (offset - start) xs
select-numbered offset start [] = ground (arith, drop-nil {A = JobItemResponse} (offset - start))
select-numbered offset start (x ∷ xs) =
    let ih = select-numbered offset (suc start) xs in
    elim (Bool-cases (leb offset start)) [
      | inl within ↦
          let none_left : offset - start ≡ 0 = ground arith in
          let none_left' : offset - suc start ≡ 0 = ground arith in
          rw (within, none_left) (ap (λ ys. x ∷ ys) (ih ∙ ap (λ n. drop n xs) none_left'))
      | inr beyond ↦
          let one_more : offset - start ≡ suc (offset - suc start) = ground arith in
          rw (beyond, one_more) ih
    ]

page_of-numbered :
    (offset limit : ℕ) (xs : List JobItemResponse)
    → page_of offset limit (numbered 0 xs) ≡ take limit (drop offset xs)
unfolding page_of
page_of-numbered offset limit xs =
    rw (sorted-numbered 0 xs)
      (ap (take limit) (select-numbered offset 0 xs ∙ ap (λ n. drop n xs) (omega arith)))

-- Appending a result under the number of those already there keeps the results in order with
-- nothing missing, and leaves the results of every other job alone.
pub append_result-HasResults :
    (job_id : String) (x : JobItemResponse) (xs : List JobItemResponse) (r : Repository)
    → HasResults job_id xs r
    → HasResults job_id (xs ++ x ∷ []) (append_result job_id (length xs) x r)
      × ((other : String)
          → (job_id == other) ≡ false
          → results_of other (append_result job_id (length xs) x r) ≡ results_of other r)
unfolding append_result
append_result-HasResults job_id x xs r h = (
  ground (
    arith,
    h,
    lookup-insert_self job_id (insert (length xs) x (results_of job_id r)) r.results,
    insert-numbered 0 (length xs) xs x (omega arith),
  ),
  λ other ne.
      ground
        (arith, lookup-insert job_id other (insert (length xs) x (results_of job_id r)) r.results),
)

-- For a job that has not expired and whose results were appended in turn, a page is the
-- `limit` results that follow the first `offset`.
pub get_results-page :
    (now : ℕ) (job_id : String) (offset limit : ℕ) (xs : List JobItemResponse) (r : Repository)
    → IsDistinct (keys r.jobs)
    → has_expired now (lookup job_id r.jobs) ≡ false
    → HasResults job_id xs r
    → (get_results now job_id offset limit r).0 ≡ take limit (drop offset xs)
unfolding get_results
get_results-page now job_id offset limit xs r dist live h =
    let same : results_of job_id (cleanup_expired now r) ≡ numbered 0 xs =
      ground (arith, results-cleanup_expired now r dist job_id, h) in
    ap (page_of offset limit) same ∙ page_of-numbered offset limit xs

pub get_results-repository :
    (now : ℕ) (job_id : String) (offset limit : ℕ) (r : Repository)
    → (get_results now job_id offset limit r).1 ≡ cleanup_expired now r
unfolding get_results
get_results-repository now job_id offset limit r = refl
