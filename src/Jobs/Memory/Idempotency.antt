-- ===== src/Jobs/Memory/Idempotency.antt =====
-- Idempotency keys in MemoryJobRepository, and sequences of its calls.
use creator_engagement_proje.Base.{
  ℕ, String, ◌≡◌, ◌≢◌, refl, true, false, ◌&&◌, Option, none, some, List, [], ◌∷◌, arith,
  Bool-cases, inl, inr, ◌==◌, string_key, contains, IsDistinct, All, sym, ap, ◌∙◌, option_beq_iff,
}
use creator_engagement_proje.Base.Dict.{
  Dict, keys, lookup, insert, lookup-insert, insert-IsDistinct, same_refl,
}
use creator_engagement_proje.Models.{StoredJob, CreateJobRequest, JobItemResponse, is_open}
use creator_engagement_proje.Jobs.Memory.{
  Repository, truthy, key_taken, store, interrupted, recover_each, create_job, update_job,
  append_result, recover_interrupted, cleanup_expired,
}
use creator_engagement_proje.Jobs.Memory.Expiry.{jobs-cleanup_expired, cleanup_expired-IsDistinct}

-- The idempotency key of a stored job: absent, None or a text.
abbrev pub key_of : Option StoredJob → Option (Option String)
key_of none = none
key_of (some job) = some job.idempotency_key

-- One job to an identifier, and no two jobs with one (nonempty) idempotency key.
pub record IsUnique (r : Repository) : Type 0 where
  pub distinct : IsDistinct (keys r.jobs)
  pub unique :
      (i j k : String)
      → key_of (lookup i r.jobs) ≡ some (some k)
      → key_of (lookup j r.jobs) ≡ some (some k)
      → (k == "") ≡ false
      → i ≡ j

key_taken_lem :
    (key : Option String) (jobs : Dict String StoredJob) (i : String)
    → key_taken key jobs ≡ false
    → key_of (lookup i jobs) ≢ some key
unfolding lookup
key_taken_lem key [] i h p = cc
key_taken_lem key ((j, job) ∷ d) i h p =
    ground (arith, key_taken_lem key d i, option_beq_iff job.idempotency_key key)

pub cleanup_expired-IsUnique :
    (now : ℕ) (r : Repository) → IsUnique r → IsUnique (cleanup_expired now r)
cleanup_expired-IsUnique now r u = record {
  distinct = cleanup_expired-IsDistinct now r u.distinct;
  unique = λ i j k hi hj he. ground (
    arith,
    u.unique i j k,
    jobs-cleanup_expired now r u.distinct i,
    jobs-cleanup_expired now r u.distinct j,
  );
}

store-IsUnique :
    (job : StoredJob) (request : CreateJobRequest) (r : Repository)
    → IsUnique r
    → (truthy job.idempotency_key && key_taken job.idempotency_key r.jobs) ≡ false
    → IsUnique (store job request r)
unfolding store
store-IsUnique job request r u free = record {
  distinct = insert-IsDistinct job.job_id job r.jobs u.distinct;
  unique = λ i j k hi hj he. ground (
    arith,
    u.unique i j k,
    lookup-insert job.job_id i job r.jobs,
    lookup-insert job.job_id j job r.jobs,
    key_taken_lem job.idempotency_key r.jobs i,
    key_taken_lem job.idempotency_key r.jobs j,
    string_key.same_iff job.job_id i,
    string_key.same_iff job.job_id j,
  );
}

pub create_job-IsUnique :
    (now : ℕ) (job : StoredJob) (request : CreateJobRequest) (r : Repository)
    → IsUnique r
    → IsUnique (create_job now job request r).1
unfolding create_job
create_job-IsUnique now job request r u =
    let r' = cleanup_expired now r in
    elim (Bool-cases (truthy job.idempotency_key && key_taken job.idempotency_key r'.jobs)) [
      | inl taken ↦ rw taken (cleanup_expired-IsUnique now r u)
      | inr free ↦ rw free (store-IsUnique job request r' (cleanup_expired-IsUnique now r u) free)
    ]

-- Two repositories whose jobs have the same keys.
record SameKeys (r r' : Repository) : Type 0 where
  distinct : IsDistinct (keys r'.jobs)
  same : (i : String) → key_of (lookup i r'.jobs) ≡ key_of (lookup i r.jobs)

SameKeys-IsUnique : {r r' : Repository} → SameKeys r r' → IsUnique r → IsUnique r'
SameKeys-IsUnique s u = record {
  distinct = s.distinct;
  unique = λ i j k hi hj he. u.unique i j k (sym (s.same i) ∙ hi) (sym (s.same j) ∙ hj) he;
}

-- Writing a job over one with the same key.
insert-SameKeys :
    {r r' : Repository} (i : String) (job : StoredJob)
    → SameKeys r r'
    → key_of (lookup i r.jobs) ≡ some job.idempotency_key
    → SameKeys r (record r' { jobs = insert i job r'.jobs })
insert-SameKeys {r} {r'} i job s h = record {
  distinct = insert-IsDistinct i job r'.jobs s.distinct;
  same = λ j. ground (arith, s.same j, lookup-insert i j job r'.jobs, string_key.same_iff i j);
}

pub update_job-IsUnique :
    (job old : StoredJob) (r : Repository)
    → lookup job.job_id r.jobs ≡ some old
    → job.idempotency_key ≡ old.idempotency_key
    → IsUnique r
    → IsUnique (update_job job r)
unfolding update_job
update_job-IsUnique job old r there same u =
    rw (there, update_job)
      (SameKeys-IsUnique
        (insert-SameKeys job.job_id job (record { distinct = u.distinct; same = λ i. refl })
          (rw there (ap some (sym same))))
        u)

recover_each-SameKeys :
    (now retention : ℕ) (entries : Dict String StoredJob) {r r' : Repository}
    → All (λ e. key_of (lookup e.0 r.jobs) ≡ some e.1.idempotency_key) entries
    → SameKeys r r'
    → SameKeys r (recover_each now retention entries r')
unfolding recover_each interrupted
recover_each-SameKeys now retention [] h s = s
recover_each-SameKeys now retention ((i, job) ∷ rest) {r} {r'} h s =
    elim (Bool-cases (is_open job.status)) [
      | inl interrupted_job ↦
          rw interrupted_job
            (recover_each-SameKeys now retention rest h.1 (insert-SameKeys i _ s h.0))
      | inr closed ↦ rw closed (recover_each-SameKeys now retention rest h.1 s)
    ]

All-weaken {ℓ κ μ} :
    {A : Type ℓ} (P : A → Type κ) (Q : A → Type μ) (xs : List A)
    → ((a : A) → P a → Q a)
    → All P xs
    → All Q xs
All-weaken P Q [] f h = tt
All-weaken P Q (x ∷ xs) f h = (f x h.0, All-weaken P Q xs f h.1)

-- Each entry of a dictionary is what its key looks up.
entries_lem :
    (d : Dict String StoredJob)
    → IsDistinct (keys d)
    → All (λ e. (lookup e.0 d ≡ some e.1) × (contains (keys d) e.0 ≡ true)) d
unfolding lookup
entries_lem [] h = tt
entries_lem ((k, job) ∷ d) h = (
  (ground (arith, same_refl k), ground (arith, same_refl k)),
  All-weaken (λ e. (lookup e.0 d ≡ some e.1) × (contains (keys d) e.0 ≡ true)) _ d
      (λ e p. (ground (arith, p.0, p.1, string_key.same_iff k e.0), ground (arith, p.1)))
      (entries_lem d h.1),
)

pub recover_interrupted-IsUnique :
    (now retention : ℕ) (r : Repository)
    → IsUnique r
    → IsUnique (recover_interrupted now retention r)
unfolding recover_interrupted
recover_interrupted-IsUnique now retention r u =
    SameKeys-IsUnique
      (recover_each-SameKeys now retention r.jobs
        (All-weaken (λ e. (lookup e.0 r.jobs ≡ some e.1) × (contains (keys r.jobs) e.0 ≡ true)) _
          r.jobs (λ e p. ap key_of p.0) (entries_lem r.jobs u.distinct))
        (record { distinct = u.distinct; same = λ i. refl }))
      u

-- The calls that change the repository. BatchJobManager writes back a job that it read or made,
-- so an update keeps the idempotency key.
pub data Step : Repository → Repository → Type 0 where
  sweep : (now : ℕ) (r : Repository) → Step r (cleanup_expired now r)
  create :
      (now : ℕ) (job : StoredJob) (request : CreateJobRequest) (r : Repository)
      → Step r (create_job now job request r).1
  update :
      (job old : StoredJob) (r : Repository)
      → lookup job.job_id r.jobs ≡ some old
      → job.idempotency_key ≡ old.idempotency_key
      → Step r (update_job job r)
  append :
      (job_id : String) (sequence : ℕ) (result : JobItemResponse) (r : Repository)
      → Step r (append_result job_id sequence result r)
  recover : (now retention : ℕ) (r : Repository) → Step r (recover_interrupted now retention r)

pub data Steps (r : Repository) : Repository → Type 0 where
  here : Steps r r
  next : {s t : Repository} → Steps r s → Step s t → Steps r t

append_result-IsUnique :
    (job_id : String) (sequence : ℕ) (result : JobItemResponse) (r : Repository)
    → IsUnique r
    → IsUnique (append_result job_id sequence result r)
unfolding append_result
append_result-IsUnique job_id sequence result r u = record {
  distinct = u.distinct;
  unique = u.unique;
}

Step-IsUnique : {r s : Repository} → Step r s → IsUnique r → IsUnique s
Step-IsUnique (sweep now r) u = cleanup_expired-IsUnique now r u
Step-IsUnique (create now job request r) u = create_job-IsUnique now job request r u
Step-IsUnique (update job old r there same) u = update_job-IsUnique job old r there same u
Step-IsUnique (append job_id sequence result r) u =
    append_result-IsUnique job_id sequence result r u
Step-IsUnique (recover now retention r) u = recover_interrupted-IsUnique now retention r u

-- Whatever calls are made, from a repository with unique keys: job identifiers stay unique, and two
-- jobs never hold the same nonempty idempotency key.
pub Steps-IsUnique : {r s : Repository} → Steps r s → IsUnique r → IsUnique s
Steps-IsUnique here u = u
Steps-IsUnique (next steps step) u = Step-IsUnique step (Steps-IsUnique steps u)
