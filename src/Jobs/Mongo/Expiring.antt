-- ===== src/Jobs/Mongo/Expiring.antt =====
-- What the TTL monitor deletes of MongoJobRepository (app/repositories/mongo_job_repository.py).
use creator_engagement_proje.Base.{
  ℕ, ◌≤◌, ◌≡◌, refl, ap, String, Bool, true, not, ◌&&◌, Option, none, some, List, [], ◌∷◌, map,
  string_key, select, first, arith,
}
use creator_engagement_proje.Jobs.Mongo.{
  JobDocument, RequestDocument, ResultDocument, Collections, is_past, is_active, converted, get_job,
  find_by_idempotency_key, document_to_job,
}
use creator_engagement_proje.Jobs.Mongo.Queries.{get_interrupted_jobs, delete_by_ttl}

first-select :
    {A : Type 0} (test keep : A → Bool) (xs : List A)
    → ((a : A) → test a ≡ true → keep a ≡ true)
    → first test (select keep xs) ≡ first test xs
first-select test keep [] kept = refl
first-select test keep (x ∷ xs) kept = ground (arith, kept x, first-select test keep xs kept)

select-select_kept :
    {A : Type 0} (test keep : A → Bool) (xs : List A)
    → ((a : A) → test a ≡ true → keep a ≡ true)
    → select test (select keep xs) ≡ select test xs
select-select_kept test keep [] kept = refl
select-select_kept test keep (x ∷ xs) kept =
    ground (arith, kept x, select-select_kept test keep xs kept)

-- What is active later has not expired before.
is_kept_active :
    (t now : ℕ) (expires_at : Option ℕ) (other chosen : Bool)
    → t ≤ now
    → (other && is_active now expires_at) ≡ true
    → not (is_past t expires_at && chosen) ≡ true
is_kept_active t now none other chosen earlier active = refl
is_kept_active t now (some e) other chosen earlier active = ground arith

-- Whatever the TTL monitor has deleted of what had expired, at any earlier instant: the lookups of
-- a job by its identifier and by its key, and the interrupted jobs to resume, are as if it had
-- deleted nothing.
pub reads-delete_by_ttl :
    (t now : ℕ) (job : JobDocument → Bool) (result : ResultDocument → Bool)
    (request : RequestDocument → Bool) (job_id key : String) (c : Collections)
    → t ≤ now
    → (get_job now job_id (delete_by_ttl t job result request c) ≡ get_job now job_id c)
      × (find_by_idempotency_key now key (delete_by_ttl t job result request c)
          ≡ find_by_idempotency_key now key c)
      × (get_interrupted_jobs now (delete_by_ttl t job result request c)
          ≡ get_interrupted_jobs now c)
unfolding get_job find_by_idempotency_key get_interrupted_jobs delete_by_ttl
reads-delete_by_ttl t now job result request job_id key c earlier = (
  ap converted (
      first-select _ _ c.jobs
        (λ d active. is_kept_active t now d.expires_at _ (job d) earlier active)),
  ap converted (
      first-select _ _ c.jobs
        (λ d active. is_kept_active t now d.expires_at _ (job d) earlier active)),
  ap (map document_to_job) (
      select-select_kept _ _ c.jobs
        (λ d active. is_kept_active t now d.expires_at _ (job d) earlier active)),
)
