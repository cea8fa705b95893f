-- ===== src/Jobs/Memory/Replay.antt =====
-- `create_job` and `find_by_idempotency_key` of MemoryJobRepository together.
use creator_engagement_proje.Base.{
  ℕ, String, ◌≡◌, refl, Bool, true, false, not, none, some, [], ◌∷◌, arith, Bool-cases, inl, inr,
  if◌then◌else◌, ◌==◌, is_none, string_key, IsDistinct, ap, ◌∙◌, first, option_beq, option_beq_iff,
}
use creator_engagement_proje.Base.Dict.{
  Dict, keys, values, lookup, lookup-insert_self, contains-keys, same_refl,
}
use creator_engagement_proje.Models.{StoredJob, CreateJobRequest}
use creator_engagement_proje.Jobs.Memory.{
  Repository, ok, duplicate_idempotency_key, is_expired, key_taken, store, create_job,
  find_by_idempotency_key, cleanup_expired,
}
use creator_engagement_proje.Jobs.Memory.Expiry.{unless_expired, jobs-cleanup_expired}
use creator_engagement_proje.Jobs.Memory.Idempotency.{
  IsUnique, key_of, cleanup_expired-IsUnique, create_job-IsUnique,
}

abbrev holds : String → StoredJob → Bool
holds key job = option_beq job.idempotency_key (some key)

-- The first value that passes a test which only one key's value passes.
first_unique :
    (test : StoredJob → Bool) (d : Dict String StoredJob) (i : String) (job : StoredJob)
    → IsDistinct (keys d)
    → lookup i d ≡ some job
    → test job ≡ true
    → ((j : String) (a : StoredJob) → lookup j d ≡ some a → test a ≡ true → j ≡ i)
    → first test (values d) ≡ some job
unfolding lookup
first_unique test [] i job dist found passes only = cc
first_unique test ((k, w) ∷ d) i job dist found passes only = elim (Bool-cases (test w)) [
  | inl yes_w ↦
      ground (arith, only k w (ground (arith, same_refl k)) yes_w, string_key.same_iff k i)
  | inr no_w ↦ ground (
    arith,
    string_key.same_iff k i,
    first_unique test d i job dist.1 (ground (arith, string_key.same_iff k i)) passes
        (λ j a h t. only j a (ground (arith, contains-keys k d, string_key.same_iff k j)) t),
  )
]

module _ (now : ℕ) (job : StoredJob) (request : CreateJobRequest) (r : Repository) where
  create_job_ok :
      (create_job now job request r).0 ≡ ok tt
      → (create_job now job request r).1 ≡ store job request (cleanup_expired now r)
  unfolding create_job
  create_job_ok h = ground arith

first-none :
    (test : StoredJob → Bool) (d : Dict String StoredJob)
    → IsDistinct (keys d)
    → ((j : String) (a : StoredJob) → lookup j d ≡ some a → test a ≡ false)
    → first test (values d) ≡ none
unfolding lookup
first-none test [] dist fails = refl
first-none test ((k, w) ∷ d) dist fails = ground (
  arith,
  fails k w (ground (arith, same_refl k)),
  first-none test d dist.1
      (λ j a h. fails j a (ground (arith, contains-keys k d, string_key.same_iff k j))),
)

key_taken-first :
    (key : String) (d : Dict String StoredJob)
    → key_taken (some key) d ≡ not (is_none (first (holds key) (values d)))
key_taken-first key [] = refl
key_taken-first key ((k, w) ∷ d) = ground (arith, key_taken-first key d)

-- In a repository with unique keys, where a job holds the nonempty `key`, a search for the key
-- returns that job until the job expires, and None from then on.
pub find-exact :
    (now : ℕ) (key i : String) (job : StoredJob) (r : Repository)
    → IsUnique r
    → (key == "") ≡ false
    → lookup i r.jobs ≡ some job
    → job.idempotency_key ≡ some key
    → (find_by_idempotency_key now key r).0 ≡ unless_expired now (some job)
unfolding find_by_idempotency_key
find-exact now key i job r u nonempty there held =
    let r' = cleanup_expired now r in
    let u' = cleanup_expired-IsUnique now r u in
    elim (Bool-cases (is_expired now job)) [
      | inl gone ↦ rw gone (
          first-none (holds key) r'.jobs u'.distinct (λ j a h. ground (
            arith,
            u.unique i j key (ap key_of there ∙ ap some held),
            jobs-cleanup_expired now r u.distinct j,
            option_beq_iff a.idempotency_key (some key),
          )))
      | inr live ↦ rw live (
          first_unique (holds key) r'.jobs i job u'.distinct
            (ground (arith, jobs-cleanup_expired now r u.distinct i))
            (ground (arith, option_beq_iff job.idempotency_key (some key)))
            (λ j a h t.
              u'.unique j i key (ground (arith, option_beq_iff a.idempotency_key (some key)))
                (ground (arith, jobs-cleanup_expired now r u.distinct i)) nonempty))
    ]

-- For a nonempty idempotency key a creation succeeds exactly if a search for the key finds nothing at
-- that instant, and otherwise it fails with the duplicate-key error and changes no more than the
-- expiry sweep does.
pub create_job-exact :
    (now : ℕ) (key : String) (job : StoredJob) (request : CreateJobRequest) (r : Repository)
    → job.idempotency_key ≡ some key
    → (key == "") ≡ false
    → create_job now job request r ≡ (
        if is_none (find_by_idempotency_key now key r).0
        then (ok tt, store job request (cleanup_expired now r))
        else (duplicate_idempotency_key (some key), cleanup_expired now r))
unfolding create_job find_by_idempotency_key
create_job-exact now key job request r held nonempty =
    ground (arith, key_taken-first key (cleanup_expired now r).jobs)

-- After a successful creation under a nonempty key, at every later instant a search for the key
-- returns the created job until it expires, and another creation under the key is refused until
-- then, and succeeds from then on.
pub create_job-find :
    (now later : ℕ) (key : String) (job again : StoredJob) (request : CreateJobRequest)
    (r : Repository)
    → IsUnique r
    → (key == "") ≡ false
    → job.idempotency_key ≡ some key
    → again.idempotency_key ≡ some key
    → (create_job now job request r).0 ≡ ok tt
    → ((find_by_idempotency_key later key (create_job now job request r).1).0
        ≡ unless_expired later (some job))
      × ((create_job later again request (create_job now job request r).1).0
          ≡ (if is_expired later job then ok tt else duplicate_idempotency_key (some key)))
create_job-find now later key job again request r u nonempty held held' created =
    let r1 = (create_job now job request r).1 in
    let stored : lookup job.job_id r1.jobs ≡ some job =
      ap (λ (s : Repository). lookup job.job_id s.jobs) (create_job_ok now job request r created)
      ∙ (unfold store in lookup-insert_self job.job_id job (cleanup_expired now r).jobs) in
    let found =
      find-exact later key job.job_id job r1 (create_job-IsUnique now job request r u) nonempty
        stored held in
    (found, ground (arith, found, create_job-exact later key again request r1 held' nonempty))
