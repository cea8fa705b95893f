-- ===== src/Jobs/Memory/Update.antt =====
-- What `update_job` and `append_result` of MemoryJobRepository change.
use creator_engagement_proje.Base.{
  ℕ, String, ◌≡◌, refl, some, arith, string_key, IsDistinct, Option-cases, inl, inr,
}
use creator_engagement_proje.Base.Dict.{keys, lookup, lookup-insert_self, insert-IsDistinct}
use creator_engagement_proje.Models.{StoredJob, JobItemResponse}
use creator_engagement_proje.Jobs.Memory.{Repository, update_job, append_result}

pub results-update_job : (job : StoredJob) (r : Repository) → (update_job job r).results ≡ r.results
unfolding update_job
results-update_job job r = ground arith

pub update_job_self :
    (job old : StoredJob) (r : Repository)
    → lookup job.job_id r.jobs ≡ some old
    → lookup job.job_id (update_job job r).jobs ≡ some job
unfolding update_job
update_job_self job old r there = ground (arith, lookup-insert_self job.job_id job r.jobs)

pub update_job-IsDistinct :
    (job : StoredJob) (r : Repository)
    → IsDistinct (keys r.jobs)
    → IsDistinct (keys (update_job job r).jobs)
unfolding update_job
update_job-IsDistinct job r dist = elim (Option-cases (lookup job.job_id r.jobs)) [
  | inl absent ↦ rw (absent, update_job) dist
  | inr (old, there) ↦ rw (there, update_job) (insert-IsDistinct job.job_id job r.jobs dist)
]

pub jobs-append_result :
    (job_id : String) (sequence : ℕ) (result : JobItemResponse) (r : Repository)
    → (append_result job_id sequence result r).jobs ≡ r.jobs
unfolding append_result
jobs-append_result job_id sequence result r = refl
