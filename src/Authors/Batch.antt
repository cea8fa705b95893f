-- ===== src/Authors/Batch.antt =====
-- Batches of author jobs: `_new_job` and `submit_batch` of AuthorJobManager
-- (app/services/author_job_service.py). The validation of pydantic is a parameter: each value is
-- given as what it makes of it. A new job has the identifier and the
-- instant that are drawn and read for its place.
pub mod Answers
pub mod Chunks
pub mod Gathered
use creator_engagement_proje.Base.{
  ℕ, zero, suc, ◌+◌, ◌-◌, String, Bool, true, false, Option, none, some, List, [], ◌∷◌, ◌++◌, map,
  tally, take, drop, length, string_key, pair_key,
}
use creator_engagement_proje.Base.Dict.{Dict, lookup, insert}

pub record AuthorRequest : Type 0 where
  pub uid : String
  pub media_name : String

-- What AuthorRequest.model_validate makes of a value: a request, or the text of its errors with the
-- author and media names that the value has.
pub data Value : Type 0 where
  valid : AuthorRequest → Value
  invalid : (error : String) (author_id media_name : Option String) → Value

pub data AuthorStatus : Type 0 where
  queued running completed partial failed cancelled : AuthorStatus

-- The document of a job.
pub record AuthorJob : Type 0 where
  pub job_id : String
  pub uid : String
  pub media_name : String
  pub status : AuthorStatus
  pub saved_count : ℕ
  pub detail_failed_count : ℕ
  pub pages_completed : ℕ
  pub complete : Bool
  pub created_at : ℕ
  pub updated_at : ℕ
  pub finished_at : Option ℕ
  pub expires_at : Option ℕ
  pub cursor : Option String
  pub seen_cursors : List String
  pub seen_pages : List String
  pub retry_count : ℕ
  pub next_retry_at : Option ℕ
  pub deadline_at : Option ℕ
  pub coverage_complete : Bool
  pub error : Option String

unfoldable pub new_job : ℕ → String → AuthorRequest → AuthorJob
new_job now job_id request = record {
  job_id = job_id;
  uid = request.uid;
  media_name = request.media_name;
  status = queued;
  saved_count = 0;
  detail_failed_count = 0;
  pages_completed = 0;
  complete = false;
  created_at = now;
  updated_at = now;
  finished_at = none;
  expires_at = none;
  cursor = none;
  seen_cursors = [];
  seen_pages = [];
  retry_count = 0;
  next_retry_at = none;
  deadline_at = none;
  coverage_complete = true;
  error = none;
}

pub data BatchStatus : Type 0 where
  accepted duplicate rejected : BatchStatus

pub record AuthorBatchItem : Type 0 where
  pub index : ℕ
  pub author_id : Option String
  pub media_name : Option String
  pub job_id : Option String
  pub status : BatchStatus
  pub error : Option String

-- jobs, results and seen
pub record Batch : Type 0 where
  pub jobs : List AuthorJob
  pub results : List AuthorBatchItem
  pub seen : Dict (String × String) String

abbrev pub no_items : Batch
no_items = record { jobs = []; results = []; seen = [] }

abbrev pub author_key : AuthorRequest → String × String
author_key request = (request.media_name, request.uid)

abbrev pub item_of : ℕ → AuthorRequest → String → BatchStatus → AuthorBatchItem
item_of index request job_id status = record {
  index = index;
  author_id = some request.uid;
  media_name = some request.media_name;
  job_id = some job_id;
  status = status;
  error = none;
}

-- The body of the loop; `job_id` is the identifier that a new job would get.
unfoldable pub gather_one : ℕ → String → ℕ → Value → Batch → Batch
unfolding new_job
gather_one now job_id index (invalid error author_id media_name) b = record b {
  results =
      b.results
      ++ (record {
        index = index;
        author_id = author_id;
        media_name = media_name;
        job_id = none;
        status = rejected;
        error = some error;
      })
        ∷ [];
}
gather_one now job_id index (valid request) b = elim (lookup (author_key request) b.seen) [
  | some first ↦ record b { results = b.results ++ item_of index request first duplicate ∷ [] }
  | none ↦ record {
    jobs = b.jobs ++ new_job now job_id request ∷ [];
    results = b.results ++ item_of index request job_id accepted ∷ [];
    seen = insert (author_key request) job_id b.seen;
  }
]

unfoldable pub gather : (ℕ → ℕ) → (ℕ → String) → ℕ → List Value → Batch → Batch
unfolding gather_one
gather clock new_id index [] b = b
gather clock new_id index (value ∷ values) b =
    gather clock new_id (index + 1) values (gather_one (clock index) (new_id index) index value b)

-- The job documents and the jobs whose tasks have started.
pub record Launched : Type 0 where
  pub jobs : List AuthorJob
  pub tasks : List String

-- create_many, then _launch for each.
abbrev pub save_and_launch : List AuthorJob → Launched → Launched
save_and_launch chunk s = record {
  jobs = s.jobs ++ chunk;
  tasks = s.tasks ++ map (λ job. job.job_id) chunk;
}

-- The loop over chunks of 500; the number of jobs is fuel enough.
unfoldable pub save_chunks : ℕ → List AuthorJob → Launched → Launched
save_chunks zero jobs s = s
save_chunks (suc fuel) [] s = s
save_chunks (suc fuel) (job ∷ jobs) s =
    save_chunks fuel (drop 500 (job ∷ jobs)) (save_and_launch (take 500 (job ∷ jobs)) s)

pub record AuthorBatchSubmission : Type 0 where
  pub total : ℕ
  pub accepted_count : ℕ
  pub duplicate_count : ℕ
  pub rejected_count : ℕ
  pub items : List AuthorBatchItem

abbrev pub has_status : BatchStatus → AuthorBatchItem → Bool
has_status accepted item = elim item.status [ BatchStatus.accepted ↦ true | _ ↦ false ]
has_status duplicate item = elim item.status [ BatchStatus.duplicate ↦ true | _ ↦ false ]
has_status rejected item = elim item.status [ BatchStatus.rejected ↦ true | _ ↦ false ]

unfoldable pub submit_batch :
    (ℕ → ℕ) → (ℕ → String) → List Value → Launched → AuthorBatchSubmission × Launched
unfolding gather save_chunks
submit_batch clock new_id values s =
    let b = gather clock new_id 0 values no_items in
    let rejected_count = tally (has_status rejected) b.results in
    (
      record {
        total = length values;
        accepted_count = length b.jobs;
        duplicate_count = length values - length b.jobs - rejected_count;
        rejected_count = rejected_count;
        items = b.results;
      },
      save_chunks (length b.jobs) b.jobs s,
    )
