-- ===== src/Authors/Works/Pages.antt =====
-- A page of an author job's results has every work up to its last, all of them settled.
use creator_engagement_proje.Base.{
  ℕ, zero, suc, ◌≤◌, String, ◌≡◌, refl, Bool, true, false, not, ◌&&◌, ◌||◌, Option, List, [], ◌∷◌,
  map, select, take, leb, ◌==◌, string_key, nat_key, All, contains, arith, Bool-cases, inl, inr,
  ◌⊎◌, ◌∙◌,
}
use creator_engagement_proje.Base.Dict.{same_refl}
use creator_engagement_proje.Base.Select.{All-take, All-imp, All-zip, All-select}
use creator_engagement_proje.Authors.Works.{
  Work, insert_sorted, sorted, is_open, first_of, first_open, is_after, is_before_open, results,
}

abbrev pub sequences : List Work → List ℕ
sequences works = map (λ w. w.sequence) works

-- In the order of their sequence numbers.
abbrev IsAscending : List Work → Type 0
IsAscending [] = Unit
IsAscending (w ∷ ws) = All (λ v. w.sequence ≤ v.sequence) ws × IsAscending ws

module _ (Q : Work → Type 0) where
  All-insert_sorted : (x : Work) (xs : List Work) → Q x → All Q xs → All Q (insert_sorted x xs)
  unfolding insert_sorted
  All-insert_sorted x [] q h = (q, tt)
  All-insert_sorted x (y ∷ ys) q h = elim (Bool-cases (leb x.sequence y.sequence)) [
    | inl e ↦ rw e (q, h)
    | inr e ↦ rw e (h.0, All-insert_sorted x ys q h.1)
  ]

  All-sorted : (xs : List Work) → All Q xs → All Q (sorted xs)
  unfolding sorted
  All-sorted [] h = tt
  All-sorted (x ∷ xs) h = All-insert_sorted x (sorted xs) h.0 (All-sorted xs h.1)

insert_sorted-IsAscending :
    (x : Work) (xs : List Work) → IsAscending xs → IsAscending (insert_sorted x xs)
unfolding insert_sorted
insert_sorted-IsAscending x [] h = (tt, tt)
insert_sorted-IsAscending x (y ∷ ys) h = elim (Bool-cases (leb x.sequence y.sequence)) [
  | inl e ↦ rw e (
    (
      ground arith,
      All-imp (λ v. y.sequence ≤ v.sequence) (λ v. x.sequence ≤ v.sequence) ys (λ v l. ground arith)
          h.0,
    ),
    h,
  )
  | inr e ↦ rw e (
    All-insert_sorted (λ v. y.sequence ≤ v.sequence) x ys (ground arith) h.0,
    insert_sorted-IsAscending x ys h.1,
  )
]

sorted-IsAscending : (xs : List Work) → IsAscending (sorted xs)
unfolding sorted
sorted-IsAscending [] = tt
sorted-IsAscending (x ∷ xs) = insert_sorted-IsAscending x (sorted xs) (sorted-IsAscending xs)

contains-insert_sorted :
    (x : Work) (xs : List Work) (a : ℕ)
    → contains (sequences (insert_sorted x xs)) a ≡ (x.sequence == a || contains (sequences xs) a)
unfolding insert_sorted
contains-insert_sorted x [] a = refl
contains-insert_sorted x (y ∷ ys) a = ground (arith, contains-insert_sorted x ys a)

contains-sorted :
    (xs : List Work) (a : ℕ) → contains (sequences (sorted xs)) a ≡ contains (sequences xs) a
unfolding sorted
contains-sorted [] a = refl
contains-sorted (x ∷ xs) a =
    ground (arith, contains-insert_sorted x (sorted xs) a, contains-sorted xs a)

-- What a limit takes off an ascending list has every number up to any of its own.
contains-take :
    (n : ℕ) (xs : List Work) (a c : ℕ)
    → IsAscending xs
    → contains (sequences xs) a ≡ true
    → contains (sequences (take n xs)) c ≡ true
    → a ≤ c
    → contains (sequences (take n xs)) a ≡ true
contains-take zero xs a c h has_a has_c le = ground arith
contains-take (suc n) [] a c h has_a has_c le = has_a
contains-take (suc n) (x ∷ xs) a c h has_a has_c le = ground (
  arith,
  contains-take n xs a c h.1,
  least a xs h.0,
  nat_key.same_iff x.sequence a,
  nat_key.same_iff x.sequence c,
)
  where
    least :
        (a : ℕ) (ys : List Work)
        → All (λ v. x.sequence ≤ v.sequence) ys
        → (contains (sequences ys) a ≡ false) ⊎ (x.sequence ≤ a)
    least a [] h = inl refl
    least a (y ∷ ys) h = ground (arith, least a ys h.1, nat_key.same_iff y.sequence a)

-- A selected work's number is among the selected ones.
contains-select :
    (test : Work → Bool) (xs : List Work)
    → All (λ w. (not (test w) || contains (sequences (select test xs)) w.sequence) ≡ true) xs
contains-select test [] = tt
contains-select test (x ∷ xs) = (
  ground (arith, same_refl x.sequence),
  All-imp (λ w. (not (test w) || contains (sequences (select test xs)) w.sequence) ≡ true)
      (λ w. (not (test w) || contains (sequences (select test (x ∷ xs))) w.sequence) ≡ true) xs
      (λ w h. ground arith) (contains-select test xs),
)

pub All-selected : (test : Work → Bool) (xs : List Work) → All (λ w. test w ≡ true) (select test xs)
All-selected test [] = tt
All-selected test (x ∷ xs) = elim (Bool-cases (test x)) [
  | inl e ↦ rw e (e, All-selected test xs)
  | inr e ↦ rw e (All-selected test xs)
]

-- No number of a list is before the first of its ascending order.
is_before_open-sorted :
    (xs : List Work) (a : ℕ)
    → contains (sequences (sorted xs)) a ≡ true
    → is_before_open (first_of (sorted xs)) a ≡ false
is_before_open-sorted xs a has = go (sorted xs) (sorted-IsAscending xs) has
  where
    least :
        (m : Work) (ys : List Work)
        → All (λ v. m.sequence ≤ v.sequence) ys
        → (contains (sequences ys) a ≡ false) ⊎ (m.sequence ≤ a)
    least m [] h = inl refl
    least m (y ∷ ys) h = ground (arith, least m ys h.1, nat_key.same_iff y.sequence a)

    go :
        (ys : List Work)
        → IsAscending ys
        → contains (sequences ys) a ≡ true
        → is_before_open (first_of ys) a ≡ false
    go [] h has = ground arith
    go (y ∷ ys) h has = ground (arith, least y ys h.0, nat_key.same_iff y.sequence a)

opens-is_before :
    (job_id : String) (works : List Work)
    → All
        (λ w.
          (not (w.job_id == job_id && is_open w.detail_state)
            || not (is_before_open (first_open job_id works) w.sequence))
          ≡ true)
        works
unfolding first_open
opens-is_before job_id works =
    All-imp
      (λ w.
        (not (w.job_id == job_id && is_open w.detail_state)
          || contains (sequences (select (λ v. v.job_id == job_id && is_open v.detail_state) works))
              w.sequence)
        ≡ true)
      (λ w.
        (not (w.job_id == job_id && is_open w.detail_state)
          || not (is_before_open (first_open job_id works) w.sequence))
        ≡ true)
      works
      (λ w h. elim (Bool-cases (w.job_id == job_id && is_open w.detail_state)) [
        | inl e ↦ ground (
          arith,
          h,
          is_before_open-sorted (select (λ v. v.job_id == job_id && is_open v.detail_state) works)
              w.sequence
              (contains-sorted (select (λ v. v.job_id == job_id && is_open v.detail_state) works)
                  w.sequence
                ∙ rw e at h),
        )
        | inr e ↦ ground arith
      ])
      (contains-select (λ v. v.job_id == job_id && is_open v.detail_state) works)

module _ (job_id : String) (after : Option ℕ) (limit : ℕ) (works : List Work) where
  -- What the query of `results` asks for while the job runs.
  abbrev pub asked : Work → Bool
  asked w =
      w.job_id == job_id
      && is_after after w.sequence
      && is_before_open (first_open job_id works) w.sequence

  pub All-results :
      (Q : Work → Type 0)
      → All Q (select asked works)
      → All Q (results job_id after limit true works)
  unfolding results
  All-results Q h =
      All-take Q limit (sorted (select asked works)) (All-sorted Q (select asked works) h)

  pub results-asked : All (λ w. asked w ≡ true) (results job_id after limit true works)
  results-asked = All-results (λ w. asked w ≡ true) (All-selected asked works)

  -- The results that a query gives while the job runs, from whatever cursor, are works of that job
  -- whose details are settled: complete or failed.
  pub results-settled :
      All
        (λ w. (w.job_id == job_id && not (is_open w.detail_state)) ≡ true)
        (results job_id after limit true works)
  results-settled =
      All-results (λ w. (w.job_id == job_id && not (is_open w.detail_state)) ≡ true)
        (All-zip (λ w. asked w ≡ true)
          (λ w.
            (not (w.job_id == job_id && is_open w.detail_state)
              || not (is_before_open (first_open job_id works) w.sequence))
            ≡ true)
          (λ w. (w.job_id == job_id && not (is_open w.detail_state)) ≡ true) (select asked works)
          (λ w a o. ground arith) (All-selected asked works)
          (All-select
            (λ w.
              (not (w.job_id == job_id && is_open w.detail_state)
                || not (is_before_open (first_open job_id works) w.sequence))
              ≡ true)
            asked works (opens-is_before job_id works)))

  -- Every work of the job after the cursor and up to a number among the results is among them.
  pub results-prefix :
      (c : ℕ)
      → contains (sequences (results job_id after limit true works)) c ≡ true
      → is_before_open (first_open job_id works) c ≡ true
      → All
          (λ w.
            (not (w.job_id == job_id && is_after after w.sequence && leb w.sequence c)
              || contains (sequences (results job_id after limit true works)) w.sequence)
            ≡ true)
          works
  unfolding results
  results-prefix c has early =
      All-imp (λ w. (not (asked w) || contains (sequences (select asked works)) w.sequence) ≡ true)
        (λ w.
          (not (w.job_id == job_id && is_after after w.sequence && leb w.sequence c)
            || contains (sequences (take limit (sorted (select asked works)))) w.sequence)
          ≡ true)
        works
        (λ w h.
          elim (Bool-cases (w.job_id == job_id && is_after after w.sequence && leb w.sequence c)) [
            | inl e ↦
                let wanted : asked w ≡ true = ground (arith, e, early) in
                ground (
                  arith,
                  contains-take limit (sorted (select asked works)) w.sequence c
                      (sorted-IsAscending (select asked works))
                      (contains-sorted (select asked works) w.sequence ∙ rw wanted at h) has
                      (ground (arith, e)),
                )
            | inr e ↦ ground (arith, e)
          ])
        (contains-select asked works)
