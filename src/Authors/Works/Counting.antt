-- ===== src/Authors/Works/Counting.antt =====
-- Saving pages of works, and counting them.
use creator_engagement_proje.Base.{
  ℕ, ◌+◌, String, ◌≡◌, refl, ap, sym, subst, none, Bool, true, ◌||◌, List, [], ◌∷◌, ◌++◌, any,
  tally, ◌==◌, string_key, arith, All, Bool-cases, inl, inr,
}
use creator_engagement_proje.Base.Dict.{same_refl}
use creator_engagement_proje.Authors.Works.{
  Work, AuthorWork, is_work, first_state, upsert, upsert_each, save_page, sequence_of, counts,
  count_of, is_failed,
}

-- The document that an upsert adds.
abbrev added : String → ℕ → AuthorWork → Work
added job_id sequence work = record {
  job_id = job_id;
  work_id = work.work_id;
  sequence = sequence;
  work = work;
  detail_state = first_state work;
  detail_attempts = 0;
  expires_at = none;
}

saved_total :
    (job_id : String) (works : List Work)
    → (counts job_id works).saved_count ≡ tally (λ w. w.job_id == job_id) works
unfolding counts
saved_total job_id [] = refl
saved_total job_id (w ∷ works) = ground (arith, saved_total job_id works)

any-append_one :
    (test : Work → Bool) (xs : List Work) (x : Work)
    → any test (xs ++ x ∷ []) ≡ (any test xs || test x)
any-append_one test [] x = ground arith
any-append_one test (y ∷ ys) x = ground (arith, any-append_one test ys x)

-- A work that is there is there after an upsert, and so is the upserted one.
any-upsert :
    (job_id work_id : String) (sequence : ℕ) (work : AuthorWork) (works : List Work)
    → (any (is_work job_id work_id) (upsert job_id sequence work works))
      ≡ (any (is_work job_id work_id) works || work.work_id == work_id)
unfolding upsert
any-upsert job_id work_id sequence work works =
    elim (Bool-cases (any (is_work job_id work.work_id) works)) [
      | inl e ↦
          rw (e, upsert)
            (elim (Bool-cases (work.work_id == work_id)) [
              | inl same ↦
                  let has : any (is_work job_id work_id) works ≡ true =
                    subst (λ id. any (is_work job_id id) works ≡ true)
                      ((string_key.same_iff work.work_id work_id).0 same) e in
                  ground (arith, has)
              | inr other ↦ ground (arith, other)
            ])
      | inr e ↦
          rw (e, upsert)
            (ground (
              arith,
              any-append_one (is_work job_id work_id) works (added job_id sequence work),
              same_refl job_id,
            ))
    ]

any-upsert_each :
    (job_id work_id : String) (page_index index : ℕ) (page : List AuthorWork) (works : List Work)
    → any (is_work job_id work_id) works ≡ true
    → any (is_work job_id work_id) (upsert_each job_id page_index index page works) ≡ true
unfolding upsert_each
any-upsert_each job_id work_id page_index index [] works has = has
any-upsert_each job_id work_id page_index index (work ∷ page) works has =
    any-upsert_each job_id work_id page_index (index + 1) page
      (upsert job_id (sequence_of page_index index) work works)
      (ground (arith, any-upsert job_id work_id (sequence_of page_index index) work works))

has-upsert_each :
    (job_id : String) (page_index index : ℕ) (page : List AuthorWork) (works : List Work)
    → All
        (λ work.
          any (is_work job_id work.work_id) (upsert_each job_id page_index index page works) ≡ true)
        page
unfolding upsert_each
has-upsert_each job_id page_index index [] works = tt
has-upsert_each job_id page_index index (work ∷ page) works = (
  any-upsert_each job_id work.work_id page_index (index + 1) page
      (upsert job_id (sequence_of page_index index) work works)
      (ground (
        arith,
        any-upsert job_id work.work_id (sequence_of page_index index) work works,
        same_refl work.work_id,
      )),
  has-upsert_each job_id page_index (index + 1) page
      (upsert job_id (sequence_of page_index index) work works),
)

upsert_each_same :
    (job_id : String) (page_index index : ℕ) (page : List AuthorWork) (works : List Work)
    → All (λ work. any (is_work job_id work.work_id) works ≡ true) page
    → upsert_each job_id page_index index page works ≡ works
unfolding upsert_each upsert
upsert_each_same job_id page_index index [] works has = refl
upsert_each_same job_id page_index index (work ∷ page) works has =
    rw (has.0, upsert_each) (upsert_each_same job_id page_index (index + 1) page works has.1)

-- Saving a page twice, under whatever page number the second time, is saving it once; and the
-- numbers that a save reports are those that `counts` gives of the works it leaves, of which the
-- number of saved works is the number of the job's documents.
pub save_page-twice :
    (job_id : String) (page_index again : ℕ) (page : List AuthorWork) (works : List Work)
    → (save_page job_id again page (save_page job_id page_index page works).1
        ≡ save_page job_id page_index page works)
      × ((save_page job_id page_index page works).0 ≡ (
        (counts job_id (save_page job_id page_index page works).1).saved_count,
        (counts job_id (save_page job_id page_index page works).1).detail_failed_count,
      ))
unfolding save_page counts
save_page-twice job_id page_index again page works =
    let works' = upsert_each job_id page_index 0 page works in
    let same =
      upsert_each_same job_id again 0 page works'
        (has-upsert_each job_id page_index 0 page works) in
    (
      ap (λ ws. ((tally (λ w. w.job_id == job_id) ws, count_of job_id is_failed ws), ws)) same,
      ap (λ n. (n, count_of job_id is_failed works')) (sym (saved_total job_id works')),
    )
