-- ===== src/Jobs/Memory/Expiry.antt =====
-- What the expiry sweep of MemoryJobRepository (`_cleanup_expired`) leaves.
use creator_engagement_proje.Base.{
  ℕ, String, ◌≡◌, refl, Bool, false, Option, none, some, List, [], ◌∷◌, arith, if◌then◌else◌,
  string_key, contains, IsDistinct, ap,
}
use creator_engagement_proje.Base.Dict.{
  Dict, keys, lookup, lookup-pop, contains-keys, pop-IsDistinct, same_refl,
}
use creator_engagement_proje.Models.{StoredJob}
use creator_engagement_proje.Jobs.Memory.{
  Repository, is_expired, expired, forget, forget_all, cleanup_expired, get_job, get_request,
  results_of,
}

-- What a reader of a stored job sees at `now`.
abbrev pub unless_expired : ℕ → Option StoredJob → Option StoredJob
unless_expired now none = none
unless_expired now (some job) = if is_expired now job then none else some job

abbrev pub has_expired : ℕ → Option StoredJob → Bool
has_expired now none = false
has_expired now (some job) = is_expired now job

jobs-forget_all :
    (ks : List String) (r : Repository) (j : String)
    → lookup j (forget_all ks r).jobs ≡ (if contains ks j then none else lookup j r.jobs)
unfolding forget_all forget
jobs-forget_all [] r j = refl
jobs-forget_all (k ∷ ks) r j =
    ground (arith, jobs-forget_all ks (forget k r) j, lookup-pop k j r.jobs)

requests-forget_all :
    (ks : List String) (r : Repository) (j : String)
    → lookup j (forget_all ks r).requests ≡ (if contains ks j then none else lookup j r.requests)
unfolding forget_all forget
requests-forget_all [] r j = refl
requests-forget_all (k ∷ ks) r j =
    ground (arith, requests-forget_all ks (forget k r) j, lookup-pop k j r.requests)

results-forget_all :
    (ks : List String) (r : Repository) (j : String)
    → lookup j (forget_all ks r).results ≡ (if contains ks j then none else lookup j r.results)
unfolding forget_all forget
results-forget_all [] r j = refl
results-forget_all (k ∷ ks) r j =
    ground (arith, results-forget_all ks (forget k r) j, lookup-pop k j r.results)

contains-expired :
    (now : ℕ) (jobs : Dict String StoredJob) (j : String)
    → IsDistinct (keys jobs)
    → contains (expired now jobs) j ≡ has_expired now (lookup j jobs)
unfolding expired lookup
contains-expired now [] j h = refl
contains-expired now ((k, job) ∷ d) j h =
    ground (arith, contains-expired now d j h.1, contains-keys k d, string_key.same_iff k j)

module _ (now : ℕ) (r : Repository) (h : IsDistinct (keys r.jobs)) (j : String) where
  pub jobs-cleanup_expired :
      lookup j (cleanup_expired now r).jobs ≡ unless_expired now (lookup j r.jobs)
  unfolding cleanup_expired
  jobs-cleanup_expired =
      ground (arith, jobs-forget_all (expired now r.jobs) r j, contains-expired now r.jobs j h)

  pub requests-cleanup_expired :
      lookup j (cleanup_expired now r).requests
      ≡ (if has_expired now (lookup j r.jobs) then none else lookup j r.requests)
  unfolding cleanup_expired
  requests-cleanup_expired =
      ground (arith, requests-forget_all (expired now r.jobs) r j, contains-expired now r.jobs j h)

  pub results-cleanup_expired :
      lookup j (cleanup_expired now r).results
      ≡ (if has_expired now (lookup j r.jobs) then none else lookup j r.results)
  unfolding cleanup_expired
  results-cleanup_expired =
      ground (arith, results-forget_all (expired now r.jobs) r j, contains-expired now r.jobs j h)

forget_all-IsDistinct :
    (ks : List String) (r : Repository)
    → IsDistinct (keys r.jobs)
    → IsDistinct (keys (forget_all ks r).jobs)
unfolding forget_all forget
forget_all-IsDistinct [] r h = h
forget_all-IsDistinct (k ∷ ks) r h =
    forget_all-IsDistinct ks (forget k r) (pop-IsDistinct k r.jobs h)

pub cleanup_expired-IsDistinct :
    (now : ℕ) (r : Repository)
    → IsDistinct (keys r.jobs)
    → IsDistinct (keys (cleanup_expired now r).jobs)
unfolding cleanup_expired
cleanup_expired-IsDistinct now r h = forget_all-IsDistinct (expired now r.jobs) r h

-- A job, its request and its results are readable exactly until its expiry: at `now` a reader finds
-- the stored job, its request and its results if the job has not expired, and afterwards none of
-- the three.
pub cleanup_expired_exact :
    (now : ℕ) (r : Repository) (j : String)
    → IsDistinct (keys r.jobs)
    → ((get_job now j r).0 ≡ unless_expired now (lookup j r.jobs))
      × ((get_request now j r).0
          ≡ (if has_expired now (lookup j r.jobs) then none else lookup j r.requests))
      × (results_of j (cleanup_expired now r)
          ≡ (if has_expired now (lookup j r.jobs) then [] else results_of j r))
unfolding get_job get_request
cleanup_expired_exact now r j h = (
  jobs-cleanup_expired now r h j,
  requests-cleanup_expired now r h j,
  ground (arith, results-cleanup_expired now r h j),
)

expired-nil :
    (jobs : Dict String StoredJob) (now : ℕ)
    → ((j : String) → contains (expired now jobs) j ≡ false)
    → expired now jobs ≡ []
unfolding expired
expired-nil [] now h = refl
expired-nil ((k, job) ∷ d) now h =
    ground (arith, h k, same_refl k, expired-nil d now (λ j. ground (arith, h j)))

-- A second sweep at the same instant changes nothing.
pub cleanup_expired_idem :
    (now : ℕ) (r : Repository)
    → IsDistinct (keys r.jobs)
    → cleanup_expired now (cleanup_expired now r) ≡ cleanup_expired now r
unfolding cleanup_expired
cleanup_expired_idem now r h =
    let r' = cleanup_expired now r in
    let nothing : expired now r'.jobs ≡ [] = expired-nil r'.jobs now (λ j. ground (
      arith,
      contains-expired now r'.jobs j (cleanup_expired-IsDistinct now r h),
      jobs-cleanup_expired now r h j,
    )) in
    ap (λ ks. forget_all ks r') nothing
