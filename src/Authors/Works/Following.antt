-- ===== src/Authors/Works/Following.antt =====
-- What the works, the cursor and the given results of an author job keep between them, and each
-- step of its run or of its client.
use creator_engagement_proje.Base.{
  ℕ, zero, suc, ◌+◌, ◌*◌, ◌<◌, ◌≤◌, String, ◌≡◌, refl, Bool, true, false, not, ◌&&◌, ◌||◌, Option,
  none, some, List, [], ◌∷◌, ◌++◌, any, select, take, length, ltb, leb, ◌==◌, string_key, nat_key,
  All, contains, arith, Bool-cases, inl, inr, ◌⊎◌, Option-cases, ap, subst, All-append_one,
}
use creator_engagement_proje.Base.Dict.{same_refl}
use creator_engagement_proje.Base.Select.{All-update, All-imp, All-zip, All-select}
use creator_engagement_proje.Authors.Works.{
  Work, AuthorWork, page_size, sequence_of, first_state, upsert, upsert_each, save_page,
  claim_detail, is_after, is_before_open, first_open, results, results_page, last_sequence, is_work,
  is_open, sorted, first_of, is_pending,
}
use creator_engagement_proje.Authors.Works.Pages.{
  sequences, asked, results-asked, results-prefix, results-settled, All-selected, All-results,
}

-- The job's works come in below the next page, the cursor too, and each work that the cursor has
-- passed has been given settled.
abbrev pub IsBelow : String → ℕ → Option ℕ → List ℕ → Work → Type 0
IsBelow job_id next_page cursor seen w =
    ((not (w.job_id == job_id) || ltb w.sequence (next_page * page_size)) ≡ true)
    × ((not (w.job_id == job_id && not (is_after cursor w.sequence)) || contains seen w.sequence)
        ≡ true)

abbrev pub is_settled : Work → Bool
is_settled w = not (is_open w.detail_state)

-- Documents that a page adds.
abbrev added : String → ℕ → AuthorWork → Work
added job_id sequence work = record {
  job_id = job_id;
  work_id = work.work_id;
  sequence = sequence;
  work = work;
  detail_state = first_state work;
  detail_attempts = 0;
  expires_at = none;
}

All-upsert_each :
    (Q : Work → Type 0) (job_id : String) (page_index index : ℕ) (page : List AuthorWork)
    (works : List Work)
    → ((i : ℕ) (work : AuthorWork)
        → i < index + length page
        → Q (added job_id (sequence_of page_index i) work))
    → All Q works
    → All Q (upsert_each job_id page_index index page works)
unfolding upsert_each upsert
All-upsert_each Q job_id page_index index [] works adds h = h
All-upsert_each Q job_id page_index index (work ∷ page) works adds h =
    All-upsert_each Q job_id page_index (index + 1) page
      (upsert job_id (sequence_of page_index index) work works)
      (λ i w l. adds i w (omega (arith, l)))
      (elim (Bool-cases (any (is_work job_id work.work_id) works)) [
        | inl e ↦ rw (e, upsert) h
        | inr e ↦ rw (e, upsert) (All-append_one Q works _ h (adds index work (omega arith)))
      ])

module _ (job_id : String) (n : ℕ) (cursor : Option ℕ) (seen : List ℕ) (works : List Work)
    (passed : is_after cursor (n * page_size) ≡ true)
    (h : All (IsBelow job_id n cursor seen) works) where
  pub saved-IsBelow :
      (page : List AuthorWork)
      → length page ≤ page_size
      → All (IsBelow job_id (n + 1) cursor seen) (save_page job_id n page works).1
  unfolding save_page
  saved-IsBelow page fits =
      All-upsert_each (IsBelow job_id (n + 1) cursor seen) job_id n 0 page works
        (λ i work l. (ground (arith, l, fits), ground (arith, passed)))
        (All-imp (IsBelow job_id n cursor seen) (IsBelow job_id (n + 1) cursor seen) works
          (λ w b. (ground (arith, b.0), b.1)) h)

  pub saved_other-IsBelow :
      (other : String) (page_index : ℕ) (page : List AuthorWork)
      → (other == job_id) ≡ false
      → All (IsBelow job_id n cursor seen) (save_page other page_index page works).1
  unfolding save_page
  saved_other-IsBelow other page_index page differs =
      All-upsert_each (IsBelow job_id n cursor seen) other page_index 0 page works
        (λ i work l. (ground (arith, differs), ground (arith, differs))) h

  pub claimed-IsBelow :
      (any_job : String) → All (IsBelow job_id n cursor seen) (claim_detail any_job works).1
  unfolding claim_detail
  claimed-IsBelow any_job =
      elim (Option-cases (
        first_of (sorted (select (λ w. w.job_id == any_job && is_pending w.detail_state) works)))) [
          | inl e ↦ rw (e, claim_detail) h
          | inr (w, e) ↦
              rw (e, claim_detail)
                (All-update (IsBelow job_id n cursor seen) (is_work any_job w.work_id) _ works
                  (λ v b. b) h)
        ]

take-take : (n m : ℕ) (xs : List Work) → n ≤ m → take n (take m xs) ≡ take n xs
take-take zero m xs le = refl
take-take (suc n) zero xs le = ground arith
take-take (suc n) (suc m) [] le = refl
take-take (suc n) (suc m) (x ∷ xs) le = ap (λ ys. x ∷ ys) (take-take n m xs (omega (arith, le)))

last_sequence-cases :
    (cursor : Option ℕ) (xs : List Work)
    → ((last_sequence cursor xs ≡ cursor) × (xs ≡ []))
      ⊎ ((c : ℕ) × (last_sequence cursor xs ≡ some c) × (contains (sequences xs) c ≡ true))
last_sequence-cases cursor [] = inl (refl, refl)
last_sequence-cases cursor (x ∷ xs) = elim (last_sequence-cases (some x.sequence) xs) [
  | inl p ↦ inr (x.sequence, p.0, ground (arith, same_refl x.sequence))
  | inr (c, e, has) ↦ inr (c, e, ground (arith, has))
]

contains-append :
    (xs ys : List ℕ) (a : ℕ) → contains (xs ++ ys) a ≡ (contains xs a || contains ys a)
contains-append [] ys a = refl
contains-append (x ∷ xs) ys a = ground (arith, contains-append xs ys a)

pub select-All :
    (test : Work → Bool) (xs : List Work) → All (λ w. test w ≡ true) xs → select test xs ≡ xs
select-All test [] h = refl
select-All test (x ∷ xs) h = ground (arith, h.0, select-All test xs h.1)

contains-All :
    (test : ℕ → Bool) (xs : List Work) (c : ℕ)
    → All (λ w. test w.sequence ≡ true) xs
    → contains (sequences xs) c ≡ true
    → test c ≡ true
contains-All test [] c h has = ground arith
contains-All test (x ∷ xs) c h has = elim (Bool-cases (x.sequence == c)) [
  | inl e ↦ subst (λ n. test n ≡ true) ((nat_key.same_iff x.sequence c).0 e) h.0
  | inr e ↦ contains-All test xs c h.1 (rw e at has)
]

module _ (job_id : String) (n : ℕ) (cursor : Option ℕ) (seen : List ℕ) (works : List Work)
    (limit : ℕ) (passed : is_after cursor (n * page_size) ≡ true)
    (h : All (IsBelow job_id n cursor seen) works) where
  pub page_rows :
      (results_page job_id true cursor limit works).0 ≡ results job_id cursor limit true works
  unfolding results_page results
  page_rows =
      take-take limit (limit + 1) (sorted (select (asked job_id cursor limit works) works))
        (omega arith)

  early :
      (c : ℕ)
      → contains (sequences (results job_id cursor limit true works)) c ≡ true
      → is_before_open (first_open job_id works) c ≡ true
  early c has =
      contains-All (is_before_open (first_open job_id works))
        (results job_id cursor limit true works) c
        (All-imp (λ w. asked job_id cursor limit works w ≡ true)
          (λ w. is_before_open (first_open job_id works) w.sequence ≡ true)
          (results job_id cursor limit true works) (λ w a. ground (arith, a))
          (results-asked job_id cursor limit works))
        has

  low :
      (c : ℕ)
      → contains (sequences (results job_id cursor limit true works)) c ≡ true
      → ltb c (n * page_size) ≡ true
  low c has =
      contains-All (λ s. ltb s (n * page_size)) (results job_id cursor limit true works) c
        (All-results job_id cursor limit works (λ w. ltb w.sequence (n * page_size) ≡ true)
          (All-zip (λ w. asked job_id cursor limit works w ≡ true) (IsBelow job_id n cursor seen)
            (λ w. ltb w.sequence (n * page_size) ≡ true)
            (select (asked job_id cursor limit works) works) (λ w a b. ground (arith, a, b.0))
            (All-selected (asked job_id cursor limit works) works)
            (All-select (IsBelow job_id n cursor seen) (asked job_id cursor limit works) works h)))
        has

  pub All-settled : All (λ w. is_settled w ≡ true) (results job_id cursor limit true works)
  All-settled =
      All-imp (λ w. (w.job_id == job_id && not (is_open w.detail_state)) ≡ true)
        (λ w. is_settled w ≡ true) (results job_id cursor limit true works)
        (λ w q. ground (arith, q)) (results-settled job_id cursor limit works)

  pub read-IsBelow :
      (is_after (last_sequence cursor (results job_id cursor limit true works)) (n * page_size)
        ≡ true)
      × All
          (IsBelow job_id n
            (last_sequence cursor (results job_id cursor limit true works))
            (seen ++ sequences (results job_id cursor limit true works)))
          works
  read-IsBelow = elim (last_sequence-cases cursor (results job_id cursor limit true works)) [
    | inl p ↦ (
      rw (p.0) passed,
      rw (p.0) (
          All-imp (IsBelow job_id n cursor seen)
            (IsBelow job_id n cursor (seen ++ sequences (results job_id cursor limit true works)))
            works
            (λ w b. (
              b.0,
              ground (
                arith,
                b.1,
                contains-append seen (sequences (results job_id cursor limit true works))
                    w.sequence,
              ),
            ))
            h),
    )
    | inr (c, e, has) ↦ (
      rw e (low c has),
      rw e (
          All-zip (IsBelow job_id n cursor seen)
            (λ w.
              (not (w.job_id == job_id && is_after cursor w.sequence && leb w.sequence c)
                || contains (sequences (results job_id cursor limit true works)) w.sequence)
              ≡ true)
            (IsBelow job_id n (some c) (seen ++ sequences (results job_id cursor limit true works)))
            works
            (λ w b q. (
              b.0,
              ground (
                arith,
                b.1,
                q,
                contains-append seen (sequences (results job_id cursor limit true works))
                    w.sequence,
              ),
            ))
            h (results-prefix job_id cursor limit works c has (early c has))),
    )
  ]
