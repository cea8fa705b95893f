-- ===== src/Authors/Works.antt =====
-- The works of author jobs: AuthorRepository (app/repositories/author_repository.py) on its
-- collection `author_works`, as a list of documents, and the pages of results that AuthorJobManager
-- (app/services/author_job_service.py) makes of them. A sequence text, the zero-padded numbers of
-- page and index, is the number that sorts alike.
pub mod Counting
pub mod Following
pub mod Pages
pub mod Reading
use creator_engagement_proje.Base.{
  ℕ, zero, suc, ◌+◌, ◌-◌, ◌*◌, String, ◌≡◌, Bool, true, false, not, ◌&&◌, ◌||◌, Option, none, some,
  List, [], ◌∷◌, ◌++◌, map, any, select, first, take, tally, length, ltb, leb, if◌then◌else◌, ◌==◌,
  string_key, is_none,
}

pub data DetailState : Type 0 where
  pending running complete failed : DetailState

pub data DetailStatus : Type 0 where
  pending complete failed : DetailStatus

-- AuthorWork of app/models/author.py, without detail_context.
pub record AuthorWork : Type 0 where
  pub work_id : String
  pub author_uid : String
  pub resolved_author_uid : Option String
  pub author_name : String
  pub media_name : String
  pub content_type : String
  pub url : String
  pub title : String
  pub description : String
  pub text : String
  pub published_at : Option ℕ
  pub cover_url : Option String
  pub media_urls : List String
  pub duration_ms : Option ℕ
  pub content_complete : Bool
  pub detail_status : DetailStatus
  pub error : Option String
  pub fetched_at : ℕ

-- A document of author_works.
pub record Work : Type 0 where
  pub job_id : String
  pub work_id : String
  pub sequence : ℕ
  pub work : AuthorWork
  pub detail_state : DetailState
  pub detail_attempts : ℕ
  pub expires_at : Option ℕ

abbrev pub is_pending : DetailState → Bool
is_pending state = elim state [ DetailState.pending ↦ true | _ ↦ false ]

abbrev pub is_running : DetailState → Bool
is_running state = elim state [ DetailState.running ↦ true | _ ↦ false ]

abbrev pub is_complete : DetailState → Bool
is_complete state = elim state [ DetailState.complete ↦ true | _ ↦ false ]

abbrev pub is_failed : DetailState → Bool
is_failed state = elim state [ DetailState.failed ↦ true | _ ↦ false ]

-- detail_state in ["pending", "running"]
abbrev pub is_open : DetailState → Bool
is_open state = is_pending state || is_running state

-- The number of indexes that a page's part of a sequence text has room for.
abbrev pub page_size : ℕ
page_size = 100000000

-- f"{page_index:012d}:{index:08d}"
abbrev pub sequence_of : ℕ → ℕ → ℕ
sequence_of page_index index = page_index * page_size + index

abbrev pub is_work : String → String → Work → Bool
is_work job_id work_id w = w.job_id == job_id && w.work_id == work_id

abbrev pub settled_state : AuthorWork → DetailState
settled_state work = if work.content_complete then DetailState.complete else DetailState.failed

abbrev pub first_state : AuthorWork → DetailState
first_state work = elim work.detail_status [
  | DetailStatus.pending ↦ DetailState.pending
  | _ ↦ settled_state work
]

-- One upsert of a page: a work that the job has stays as it is.
unfoldable pub upsert : String → ℕ → AuthorWork → List Work → List Work
upsert job_id sequence work works =
    if any (is_work job_id work.work_id) works
    then works
    else works
      ++ (record {
        job_id = job_id;
        work_id = work.work_id;
        sequence = sequence;
        work = work;
        detail_state = first_state work;
        detail_attempts = 0;
        expires_at = none;
      })
        ∷ []

-- The bulk write, from an index on.
unfoldable pub upsert_each : String → ℕ → ℕ → List AuthorWork → List Work → List Work
unfolding upsert
upsert_each job_id page_index index [] works = works
upsert_each job_id page_index index (work ∷ page) works =
    upsert_each job_id page_index (index + 1) page
      (upsert job_id (sequence_of page_index index) work works)

abbrev pub count_of : String → (DetailState → Bool) → List Work → ℕ
count_of job_id test works = tally (λ w. w.job_id == job_id && test w.detail_state) works

-- The new documents, and the numbers of the job's works and of the failed ones.
unfoldable pub save_page : String → ℕ → List AuthorWork → List Work → (ℕ × ℕ) × List Work
unfolding upsert_each
save_page job_id page_index page works =
    let works' = upsert_each job_id page_index 0 page works in
    ((tally (λ w. w.job_id == job_id) works', count_of job_id is_failed works'), works')

abbrev pub update_works : (Work → Bool) → (Work → Work) → List Work → List Work
update_works test change works = map (λ w. if test w then change w else w) works

abbrev pub to_pending : Work → Work
to_pending w = record w {
  detail_state = DetailState.pending;
  work = record (w.work) { detail_status = DetailStatus.pending };
}

unfoldable pub prepare_details : String → Bool → List Work → List Work
prepare_details job_id retry_failed works =
    update_works
      (λ w.
        w.job_id == job_id
        && (is_running w.detail_state || (retry_failed && is_failed w.detail_state)))
      to_pending works

-- ORDER BY sequence
unfoldable pub insert_sorted : Work → List Work → List Work
insert_sorted x [] = x ∷ []
insert_sorted x (y ∷ ys) =
    let rest = insert_sorted x ys in if leb x.sequence y.sequence then x ∷ y ∷ ys else y ∷ rest

unfoldable pub sorted : List Work → List Work
sorted [] = []
sorted (x ∷ xs) = insert_sorted x (sorted xs)

abbrev pub first_of : List Work → Option Work
first_of [] = none
first_of (w ∷ ws) = some w

abbrev pub claimed : Work → Work
claimed w = record w { detail_state = DetailState.running; detail_attempts = w.detail_attempts + 1 }

-- The first pending work of the job, as it is after the update.
unfoldable pub claim_detail : String → List Work → Option Work × List Work
unfolding sorted insert_sorted
claim_detail job_id works =
    elim (first_of (sorted (select (λ w. w.job_id == job_id && is_pending w.detail_state) works))) [
      | none ↦ (none, works)
      | some w ↦ (some (claimed w), update_works (is_work job_id w.work_id) claimed works)
    ]

unfoldable pub save_detail : String → AuthorWork → List Work → List Work
save_detail job_id work works =
    update_works (is_work job_id work.work_id)
      (λ w. record w { work = work; detail_state = settled_state work }) works

pub record Counts : Type 0 where
  pub saved_count : ℕ
  pub detail_pending_count : ℕ
  pub detail_completed_count : ℕ
  pub detail_failed_count : ℕ

-- saved_count is the sum over the groups.
unfoldable pub counts : String → List Work → Counts
counts job_id works = record {
  saved_count =
      count_of job_id is_pending works
      + count_of job_id is_running works
      + count_of job_id is_complete works
      + count_of job_id is_failed works;
  detail_pending_count = count_of job_id is_pending works + count_of job_id is_running works;
  detail_completed_count = count_of job_id is_complete works;
  detail_failed_count = count_of job_id is_failed works;
}

-- The update of the works in `finish` and in `reset_expiry`.
unfoldable pub set_expiry : String → Option ℕ → List Work → List Work
set_expiry job_id expires_at works =
    update_works (λ w. w.job_id == job_id) (λ w. record w { expires_at = expires_at }) works

-- {"$gt": after}, if there is one.
abbrev pub is_after : Option ℕ → ℕ → Bool
is_after none sequence = true
is_after (some after) sequence = ltb after sequence

-- {"$lt": pending["sequence"]}, if there is one.
abbrev pub is_before_open : Option Work → ℕ → Bool
is_before_open none sequence = true
is_before_open (some w) sequence = ltb sequence w.sequence

unfoldable pub first_open : String → List Work → Option Work
unfolding sorted insert_sorted
first_open job_id works =
    first_of (sorted (select (λ w. w.job_id == job_id && is_open w.detail_state) works))

unfoldable pub results : String → Option ℕ → ℕ → Bool → List Work → List Work
unfolding sorted insert_sorted first_open
results job_id after limit wait_for_details works =
    let open_work = if wait_for_details then first_open job_id works else none in
    take limit (
      sorted (
        select
          (λ w.
            w.job_id == job_id && is_after after w.sequence && is_before_open open_work w.sequence)
          works))

abbrev pub last_sequence : Option ℕ → List Work → Option ℕ
last_sequence after [] = after
last_sequence after (w ∷ ws) = last_sequence (some w.sequence) ws

-- AuthorJobManager.results after its cursor is read: the page, and the next cursor, if there is
-- one, as the sequence number that it holds (none for its empty text).
unfoldable pub results_page :
    String → Bool → Option ℕ → ℕ → List Work → List Work × Option (Option ℕ)
unfolding results
results_page job_id is_active after limit works =
    let rows = results job_id after (limit + 1) is_active works in
    let page = take limit rows in
    (page, if ltb limit (length rows) || is_active then some (last_sequence after page) else none)
