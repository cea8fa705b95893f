-- ===== src/Jobs/Mongo/Keys.antt =====
-- Idempotency keys in MongoJobRepository (app/repositories/mongo_job_repository.py).
use creator_engagement_proje.Base.{
  ℕ, suc, ◌≡◌, refl, ap, ◌∙◌, ◌+◌, String, Bool, true, false, not, ◌&&◌, ◌||◌, Option, none, some,
  List, [], ◌∷◌, ◌++◌, map, leb, if◌then◌else◌, ◌==◌, string_key, nat_key, any, select, first,
  is_none, IsDistinct, arith, Bool-cases, inl, inr, length, nat_key,
}
use creator_engagement_proje.Base.Select.{select_cong, All-imp, contains-selected}
use creator_engagement_proje.Models.{StoredJob, CreateJobRequest, JobItemRequest}
use creator_engagement_proje.Jobs.Memory.{truthy}
use creator_engagement_proje.Jobs.Mongo.{
  JobDocument, RequestDocument, Collections, Insertion, inserted, duplicate_idempotency,
  duplicate_key, bson_date, is_past, is_active, has_key, converted, find_by_idempotency_key,
  job_document,
}
use creator_engagement_proje.Jobs.Mongo.Writes.{
  one_day, holds_key, delete_expired, insert_requests, refuses_job, insert_job, create_job,
}

is_active_lem :
    (now : ℕ) (expires_at : Option ℕ) → is_active now expires_at ≡ not (is_past now expires_at)
is_active_lem now none = refl
is_active_lem now (some t) = ground arith

any-select :
    {A : Type 0} (test keep : A → Bool) (xs : List A)
    → any test xs ≡ false
    → any test (select keep xs) ≡ false
any-select test keep [] absent = refl
any-select test keep (x ∷ xs) absent = ground (arith, any-select test keep xs)

any-append_one :
    {A : Type 0} (test : A → Bool) (xs : List A) (x : A)
    → any test (xs ++ x ∷ []) ≡ (any test xs || test x)
any-append_one test [] x = ground arith
any-append_one test (y ∷ ys) x = ground (arith, any-append_one test ys x)

-- With distinct identifiers, what is deleted is exactly what expired under the key.
jobs-delete_expired :
    (now : ℕ) (key : String) (c : Collections)
    → (key == "") ≡ false
    → IsDistinct (map (λ (d : JobDocument). d.id) c.jobs)
    → (delete_expired now (some key) c).jobs
      ≡ select (λ d. not (has_key key d && is_past now d.expires_at)) c.jobs
unfolding delete_expired
jobs-delete_expired now key c nonempty distinct = rw nonempty (
    select_cong _ _ c.jobs (
      All-imp _ _ c.jobs (λ a chosen. ap not chosen)
        (contains-selected (λ (d : JobDocument). d.id)
          (λ d. has_key key d && is_past now d.expires_at) c.jobs distinct)))

-- A key is held after that exactly if a live job has it.
any-holds_key :
    (now : ℕ) (key : String) (jobs : List JobDocument)
    → any
        (holds_key (some key))
        (select (λ d. not (has_key key d && is_past now d.expires_at)) jobs)
      ≡ not (is_none (converted (first (λ d. has_key key d && is_active now d.expires_at) jobs)))
any-holds_key now key [] = refl
any-holds_key now key (d ∷ jobs) =
    ground (arith, any-holds_key now key jobs, is_active_lem now d.expires_at)

any_weaker :
    {A : Type 0} (p q : A → Bool) (xs : List A)
    → ((a : A) → p a ≡ false → q a ≡ false)
    → any p xs ≡ false
    → any q xs ≡ false
any_weaker p q [] weaker absent = refl
any_weaker p q (x ∷ xs) weaker absent = ground (arith, weaker x, any_weaker p q xs weaker)

or_false : (a b : Bool) → a ≡ false → b ≡ false → (a || b) ≡ false
or_false a b h k = rw (h, k) refl

-- Inputs of a job that has none yet are all inserted.
insert_requests_lem :
    (job_id : String) (sequence : ℕ) (expires_at : Option ℕ) (items : List JobItemRequest)
    (requests : List RequestDocument)
    → any (λ d. d.job_id == job_id && leb sequence d.sequence) requests ≡ false
    → (insert_requests job_id sequence expires_at items requests).0 ≡ true
unfolding insert_requests
insert_requests_lem job_id sequence expires_at [] requests absent = refl
insert_requests_lem job_id sequence expires_at (item ∷ items) requests absent = rw (none_there) (
    insert_requests_lem job_id (suc sequence) expires_at items (requests ++ added ∷ []) (
      rw
        (any-append_one
          (λ (d : RequestDocument). d.job_id == job_id && leb (suc sequence) d.sequence) requests
          added)
        (or_false _ _ none_later (ground arith))))
  where
    added : RequestDocument
    added = record { job_id = job_id; sequence = sequence; item = item; expires_at = expires_at }

    none_there :
        any (λ (d : RequestDocument). d.job_id == job_id && d.sequence == sequence) requests ≡ false
    none_there = any_weaker _ _ requests (λ d. ground arith) absent

    none_later :
        any (λ (d : RequestDocument). d.job_id == job_id && leb (suc sequence) d.sequence) requests
        ≡ false
    none_later = any_weaker _ _ requests (λ d. ground arith) absent

-- The deletions add no document.
jobs-absent :
    (now : ℕ) (key : Option String) (c : Collections) (test : JobDocument → Bool)
    → any test c.jobs ≡ false
    → any test (delete_expired now key c).jobs ≡ false
unfolding delete_expired
jobs-absent now none c test absent = absent
jobs-absent now (some key) c test absent = elim (Bool-cases (key == "")) [
  | inl blank ↦ rw blank absent
  | inr written ↦ rw written (any-select test _ c.jobs absent)
]

requests-absent :
    (now : ℕ) (key : Option String) (c : Collections) (test : RequestDocument → Bool)
    → any test c.requests ≡ false
    → any test (delete_expired now key c).requests ≡ false
unfolding delete_expired
requests-absent now none c test absent = absent
requests-absent now (some key) c test absent = elim (Bool-cases (key == "")) [
  | inl blank ↦ rw blank absent
  | inr written ↦ rw written (any-select test _ c.requests absent)
]

-- How an insertion ends that only the index of keys can refuse.
abbrev ended_by : Option String → List JobDocument → Insertion
ended_by key jobs =
    if any (holds_key key) jobs
    then (if truthy key then duplicate_idempotency key else duplicate_key)
    else inserted

insert_job-outcome :
    (now : ℕ) (job : StoredJob) (request : CreateJobRequest) (c : Collections)
    → (length request.items == 0) ≡ false
    → any (λ d. d.id == job.job_id) c.jobs ≡ false
    → any (λ d. d.job_id == job.job_id) c.requests ≡ false
    → (insert_job now job request c).0 ≡ ended_by job.idempotency_key c.jobs
unfolding insert_job refuses_job job_document
insert_job-outcome now job request c filled new empty =
    rw
      (
        filled,
        insert_requests_lem job.job_id 0 (some (bson_date (now + one_day))) request.items c.requests
            (any_weaker _ _ c.requests (λ d. ground arith) empty),
        new,
      )
      elim (Bool-cases (any (holds_key job.idempotency_key) c.jobs)) [
        | inl e ↦ rw e refl
        | inr e ↦ rw e refl
      ]

ended_by_lem :
    (now : ℕ) (key : String) (c : Collections)
    → (key == "") ≡ false
    → IsDistinct (map (λ (d : JobDocument). d.id) c.jobs)
    → ended_by (some key) (delete_expired now (some key) c).jobs ≡ (
        if is_none (find_by_idempotency_key now key c)
        then inserted
        else duplicate_idempotency (some key))
unfolding find_by_idempotency_key
ended_by_lem now key c nonempty distinct =
    rw (jobs-delete_expired now key c nonempty distinct, any-holds_key now key c.jobs, nonempty)
      elim (Bool-cases
        (is_none (converted (first (λ d. has_key key d && is_active now d.expires_at) c.jobs)))) [
          | inl e ↦ rw e refl
          | inr e ↦ rw e refl
        ]

-- Where the request has an item, and the new job no document and no input yet: under a nonempty key it is inserted exactly
-- if the lookup of the key finds no live job, and refused as a duplicate of the key otherwise, so
-- that an expired job, deleted by then or not, never blocks its key.
pub create_job-outcome :
    (now : ℕ) (job : StoredJob) (request : CreateJobRequest) (key : String) (c : Collections)
    → job.idempotency_key ≡ some key
    → (key == "") ≡ false
    → (length request.items == 0) ≡ false
    → IsDistinct (map (λ (d : JobDocument). d.id) c.jobs)
    → any (λ d. d.id == job.job_id) c.jobs ≡ false
    → any (λ d. d.job_id == job.job_id) c.requests ≡ false
    → (create_job now job request c).0 ≡ (
        if is_none (find_by_idempotency_key now key c)
        then inserted
        else duplicate_idempotency (some key))
unfolding create_job
create_job-outcome now job request key c keyed nonempty filled distinct new empty =
    insert_job-outcome now job request (delete_expired now job.idempotency_key c) filled
      (jobs-absent now job.idempotency_key c _ new)
      (requests-absent now job.idempotency_key c _ empty)
    ∙ ap (λ k. ended_by k (delete_expired now k c).jobs) keyed
    ∙ ended_by_lem now key c nonempty distinct
