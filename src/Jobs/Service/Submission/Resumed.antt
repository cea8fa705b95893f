-- ===== src/Jobs/Service/Submission/Resumed.antt =====
-- What `resume` leaves to do: the inputs without a stored result, each once.
use creator_engagement_proje.Base.{
  ℕ, suc, ◌+◌, ◌≤◌, String, ◌≡◌, refl, true, false, not, none, some, ap, ◌∙◌, List, [], ◌∷◌, map,
  arith, string_key, nat_key, contains, IsDistinct, length, select, tally, tally-le-length, All,
}
use creator_engagement_proje.Base.Dict.{lookup, values, lookup-insert_self, keys}
use creator_engagement_proje.Models.{
  StoredJob, CreateJobRequest, JobItemRequest, JobItemResponse, JobStatus, CollectStatus,
  is_success,
}
use creator_engagement_proje.Jobs.Memory.{
  Repository, get_job, get_request, get_completed_items, results_of, cleanup_expired, update_job,
}
use creator_engagement_proje.Jobs.Memory.Expiry.{
  has_expired, jobs-cleanup_expired, results-cleanup_expired, requests-cleanup_expired,
  cleanup_expired_idem,
}
use creator_engagement_proje.Jobs.Memory.Pages.{numbered, HasResults, values-numbered}
use creator_engagement_proje.Jobs.Memory.Update.{results-update_job}
use creator_engagement_proje.Jobs.Service.{
  Library, Config, ActiveJob, Manager, ok, ensure_initialized, validate_request, deduplicate,
  item_ids,
}
use creator_engagement_proje.Jobs.Service.Submission.{
  start, succeeded, is_completed, pending_items, requeued, resume,
}

length-deduplicate-le : (xs : List String) → length (deduplicate xs) ≤ length xs
unfolding deduplicate
length-deduplicate-le [] = omega arith
length-deduplicate-le (x ∷ xs) = ground (arith, length-deduplicate-le xs)

deduplicate-IsDistinct : (xs : List String) → length (deduplicate xs) ≡ length xs → IsDistinct xs
unfolding deduplicate
deduplicate-IsDistinct [] h = tt
deduplicate-IsDistinct (x ∷ xs) h =
    ground (arith, length-deduplicate-le xs, deduplicate-IsDistinct xs)

-- A request that passes the validation has distinct item identifiers.
pub validate_request-IsDistinct :
    (lib : Library) (config : Config) (request : CreateJobRequest)
    → validate_request lib config request ≡ none
    → IsDistinct (item_ids request.items)
unfolding validate_request
validate_request-IsDistinct lib config request h =
    deduplicate-IsDistinct (item_ids request.items) (ground arith)

abbrev remaining : List String → List JobItemRequest → List JobItemRequest
remaining ids items = select (λ item. not (contains ids item.item_id)) items

remaining-absent :
    (c : String) (ids : List String) (items : List JobItemRequest)
    → contains (item_ids items) c ≡ false
    → remaining (c ∷ ids) items ≡ remaining ids items
remaining-absent c ids [] h = refl
remaining-absent c ids (item ∷ items) h = ground (
  arith,
  remaining-absent c ids items,
  string_key.same_iff c item.item_id,
  string_key.same_iff item.item_id c,
)

remaining-cons :
    (c : String) (ids : List String) (items : List JobItemRequest)
    → IsDistinct (item_ids items)
    → contains (item_ids items) c ≡ true
    → contains ids c ≡ false
    → suc (length (remaining (c ∷ ids) items)) ≡ length (remaining ids items)
remaining-cons c ids [] dist there new = cc
remaining-cons c ids (item ∷ items) dist there new = ground (
  arith,
  remaining-cons c ids items dist.1,
  remaining-absent c ids items,
  string_key.same_iff c item.item_id,
  string_key.same_iff item.item_id c,
)

select-true : (items : List JobItemRequest) → remaining [] items ≡ items
select-true [] = refl
select-true (item ∷ items) = ap (λ l. item ∷ l) (select-true items)

length-remaining :
    (ids : List String) (items : List JobItemRequest)
    → IsDistinct (item_ids items)
    → IsDistinct ids
    → All (λ c. contains (item_ids items) c ≡ true) ids
    → length ids + length (remaining ids items) ≡ length items
length-remaining [] items dist _ _ = rw (select-true items) (omega arith)
length-remaining (c ∷ ids) items dist dist' sub = omega (
  arith,
  remaining-cons c ids items dist sub.0 dist'.0,
  length-remaining ids items dist dist'.1 sub.1,
)

abbrev pub result_ids : List JobItemResponse → List String
result_ids xs = map (λ x. x.item_id) xs

abbrev pairs : List JobItemResponse → List (String × CollectStatus)
pairs xs = map (λ result. (result.item_id, result.status)) xs

pairs_ids : (xs : List JobItemResponse) → map (λ c. c.0) (pairs xs) ≡ result_ids xs
pairs_ids [] = refl
pairs_ids (x ∷ xs) = ap (λ l. x.item_id ∷ l) (pairs_ids xs)

length-pairs : (xs : List JobItemResponse) → length (pairs xs) ≡ length xs
length-pairs [] = refl
length-pairs (x ∷ xs) = ap suc (length-pairs xs)

length-result_ids : (xs : List JobItemResponse) → length (result_ids xs) ≡ length xs
length-result_ids [] = refl
length-result_ids (x ∷ xs) = ap suc (length-result_ids xs)

tally-pairs : (xs : List JobItemResponse) → tally succeeded (pairs xs) ≡ tally is_success xs
tally-pairs [] = refl
tally-pairs (x ∷ xs) = ground (arith, tally-pairs xs)

module _ (lib : Library) (now : ℕ) (job_id : String) (stored : StoredJob)
    (request : CreateJobRequest) (xs : List JobItemResponse) (m : Manager) where
  abbrev ready : Manager
  ready = ensure_initialized now m

  abbrev stored' : StoredJob
  stored' = requeued (pairs xs) request stored

  abbrev swept : Repository
  swept = cleanup_expired now (cleanup_expired now (cleanup_expired now ready.repository))

  resume_lem :
      (get_job now job_id ready.repository).0 ≡ some stored
      → lookup job_id m.tasks ≡ none
      → is_completed stored.status ≡ false
      → (get_request now job_id (cleanup_expired now ready.repository)).0 ≡ some request
      → validate_request lib m.config request ≡ none
      → results_of job_id swept ≡ numbered 0 xs
      → resume lib now job_id m ≡ (
        ok (some (record { job_id = job_id; status = JobStatus.queued })),
        start job_id stored'
            (record request { items = pending_items (pairs xs) request.items })
            (update_job stored' swept)
            ready,
      )
  unfolding resume get_job get_request get_completed_items ensure_initialized
  resume_lem found idle unfinished requested valid results =
      let pairs_eq : map (λ (result : JobItemResponse). (result.item_id, result.status))
            (values (results_of job_id swept))
          ≡ pairs xs =
        ap (λ d. pairs (values d)) results ∙ ap pairs (values-numbered 0 xs) in
      ground (arith, found, idle, unfinished, requested, valid, pairs_eq)

-- Resuming a job that is neither running nor completed and has not expired, whose request is stored
-- and valid, and whose stored results were appended in turn and belong each to another input of the
-- request: a task is started on exactly the inputs without a result, the counters of the job are
-- those of its results, completed and remaining inputs add up to the inputs of the request, and no
-- result changes.
pub resume-pending :
    (lib : Library) (now : ℕ) (job_id : String) (stored : StoredJob) (request : CreateJobRequest)
    (xs : List JobItemResponse) (m : Manager)
    → let r = (ensure_initialized now m).repository in
      IsDistinct (keys r.jobs)
      → lookup job_id r.jobs ≡ some stored
      → has_expired now (some stored) ≡ false
      → lookup job_id r.requests ≡ some request
      → lookup job_id m.tasks ≡ none
      → is_completed stored.status ≡ false
      → validate_request lib m.config request ≡ none
      → HasResults job_id xs r
      → IsDistinct (result_ids xs)
      → All (λ c. contains (item_ids request.items) c ≡ true) (result_ids xs)
      → let (result, m') = resume lib now job_id m in
        let left = select (λ item. not (contains (result_ids xs) item.item_id)) request.items in
        (a : ActiveJob) × (result
          ≡ ok (some (record { job_id = job_id; status = JobStatus.queued })))
        × (lookup job_id m'.active_jobs ≡ some a)
        × (lookup job_id m'.tasks ≡ some tt)
        × (a.request.items ≡ left)
        × (a.stored.completed ≡ length xs)
        × (a.stored.success ≡ tally is_success xs)
        × (a.stored.success + a.stored.failed ≡ a.stored.completed)
        × (a.stored.completed + length a.request.items ≡ length request.items)
        × HasResults job_id xs m'.repository
resume-pending lib now job_id stored request xs m dist there live asked idle unfinished valid
      results dist' known =
    let r = (ensure_initialized now m).repository in
    let job' = requeued (pairs xs) request stored in
    let swept : Repository = cleanup_expired now (cleanup_expired now (cleanup_expired now r)) in
    let once : swept ≡ cleanup_expired now r =
      ap (cleanup_expired now) (cleanup_expired_idem now r dist)
      ∙ cleanup_expired_idem now r dist in
    let kept : results_of job_id swept ≡ numbered 0 xs =
      ap (results_of job_id) once ∙ ground (arith, results-cleanup_expired now r dist job_id) in
    let run =
      resume_lem lib now job_id stored request xs m
        (unfold get_job in ground (arith, jobs-cleanup_expired now r dist job_id)) idle unfinished
        (unfold get_request in
          ground
            (arith, cleanup_expired_idem now r dist, requests-cleanup_expired now r dist job_id))
        valid kept in
    let pending : pending_items (pairs xs) request.items ≡ remaining (result_ids xs) request.items =
      unfold pending_items in ap (λ ids. remaining ids request.items) (pairs_ids xs) in
    (
      record {
        stored = job';
        request = record request { items = pending_items (pairs xs) request.items };
      },
      rw run refl,
      rw run (unfold start in lookup-insert_self job_id _ (ensure_initialized now m).active_jobs),
      rw run (unfold start in lookup-insert_self job_id tt (ensure_initialized now m).tasks),
      pending,
      unfold requeued in length-pairs xs,
      unfold requeued in tally-pairs xs,
      unfold requeued in
          omega (arith, length-pairs xs, tally-pairs xs, tally-le-length is_success xs),
      unfold requeued in
          omega (
            arith,
            length-pairs xs,
            length-result_ids xs,
            ap length pending,
            length-remaining (result_ids xs) request.items
                (validate_request-IsDistinct lib m.config request valid) dist' known,
          ),
      rw run (unfold start in ground (arith, kept, results-update_job job' swept)),
    )
