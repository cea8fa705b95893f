-- ===== src/Jobs/Service/Execution/Progress.antt =====
-- The workers of `_execute_job` as sequences of takes and finishes: items, counters and results.
use creator_engagement_proje.Base.{
  ℕ, ◌+◌, ◌-◌, ◌≤◌, String, ◌≡◌, ◌≢◌, refl, Bool, true, false, ◌&&◌, Option, none, some, ap, ◌∙◌,
  List, [], ◌∷◌, ◌++◌, arith, if◌then◌else◌, ◌==◌, string_key, nat_key, length, tally, total,
  length-append, tally-append, Bool-cases, inl, inr,
}
use mathlib.Core.List.{append-nil, append_assoc}
use creator_engagement_proje.Base.Dict.{Dict, lookup, insert}
use creator_engagement_proje.Models.{JobItemRequest, JobItemResponse, is_success}
use creator_engagement_proje.Platforms.{Normalize}
use creator_engagement_proje.Jobs.Memory.{Repository, append_result}
use creator_engagement_proje.Jobs.Memory.Pages.{HasResults, append_result-HasResults}
use creator_engagement_proje.Jobs.Memory.Update.{
  results-update_job, update_job_self, jobs-append_result,
}
use creator_engagement_proje.Jobs.Service.{Library, Config, ActiveJob}
use creator_engagement_proje.Jobs.Service.Execution.{
  Run, queue_at, snoc, enqueue, queue_key, started, begin, take_item, bounded_result, count_argus,
  persist_result, finish, release, idle_at,
}

-- The counters of the job are those of the results `xs`, which are the ones stored, and the
-- repository holds the job as it is.
pub record IsAccounted (xs : List JobItemResponse) (run : Run) : Type 0 where
  pub completed : run.stored.completed ≡ length xs
  pub success : run.stored.success ≡ tally is_success xs
  pub failed : run.stored.success + run.stored.failed ≡ run.stored.completed
  pub results : HasResults run.stored.job_id xs run.repository
  pub in_sync : lookup run.stored.job_id run.repository.jobs ≡ some run.stored

-- A worker gets an item, or stores the result of one that it holds. The collector is taken to
-- answer with the item's own identifier.
pub data Trace (lib : Library) (config : Config) (run : Run)
    : List JobItemResponse → Run → Type 0 where
  start : Trace lib config run [] run
  take :
      {xs : List JobItemResponse} {now next : Run} (k : String)
      → Trace lib config run xs now
      → take_item k now ≡ some next
      → Trace lib config run xs next
  done :
      {xs : List JobItemResponse} {now : Run} (k : String) (item : JobItemRequest)
      (result : JobItemResponse) (elapsed : ℕ)
      → Trace lib config run xs now
      → tally (λ h. h.0 == k && h.1.item_id == item.item_id) now.in_flight ≢ 0
      → result.item_id ≡ item.item_id
      → Trace lib config run
          (xs ++ bounded_result lib config result ∷ [])
          (finish lib config k item result elapsed now)

persist_result-IsAccounted :
    (xs : List JobItemResponse) (run : Run) (elapsed : ℕ) (result : JobItemResponse)
    → IsAccounted xs run
    → IsAccounted (xs ++ result ∷ []) (persist_result elapsed result run)
unfolding persist_result
persist_result-IsAccounted xs run elapsed result a =
    let s = run.stored in
    let next = (persist_result elapsed result run).stored in
    let appended = append_result s.job_id s.completed result run.repository in
    let kept : HasResults s.job_id (xs ++ result ∷ []) appended =
      rw a.completed (append_result-HasResults s.job_id result xs run.repository a.results).0 in
    record {
      completed = omega (arith, a.completed, length-append xs (result ∷ []));
      success = ground (arith, a.success, tally-append is_success xs (result ∷ []));
      failed = ground (arith, a.failed);
      results = ground (arith, kept, results-update_job next appended);
      in_sync = update_job_self next s appended (
          ap (λ d. lookup s.job_id d)
            (jobs-append_result s.job_id s.completed result run.repository)
          ∙ a.in_sync);
    }

count_argus-IsAccounted :
    (xs : List JobItemResponse) (run : Run) (result : JobItemResponse)
    → IsAccounted xs run
    → IsAccounted xs (count_argus result run)
unfolding count_argus
count_argus-IsAccounted xs run result a = record {
  completed = ground (arith, a.completed);
  success = ground (arith, a.success);
  failed = ground (arith, a.failed);
  results = ground (arith, a.results);
  in_sync = ground (arith, a.in_sync);
}

finish-IsAccounted :
    (lib : Library) (config : Config) (k : String) (item : JobItemRequest)
    (result : JobItemResponse) (elapsed : ℕ) (xs : List JobItemResponse) (run : Run)
    → IsAccounted xs run
    → IsAccounted
        (xs ++ bounded_result lib config result ∷ [])
        (finish lib config k item result elapsed run)
unfolding finish
finish-IsAccounted lib config k item result elapsed xs run a =
    let result' = bounded_result lib config result in
    let b =
      persist_result-IsAccounted xs (count_argus result' run) elapsed result'
        (count_argus-IsAccounted xs run result' a) in
    record {
      completed = b.completed;
      success = b.success;
      failed = b.failed;
      results = b.results;
      in_sync = b.in_sync;
    }

-- The run after a worker of the queue `k` got `item`.
abbrev taken : String → JobItemRequest → List JobItemRequest → Run → Run
taken k item rest run = record run {
  queues = insert k rest run.queues;
  idle = insert k (idle_at k run.idle - 1) run.idle;
  in_flight = (k, item) ∷ run.in_flight;
}

take_item_inv :
    (k : String) (run next : Run)
    → take_item k run ≡ some next
    → (item : JobItemRequest) × (rest : List JobItemRequest) × (queue_at k run.queues ≡ item ∷ rest)
      × (next ≡ taken k item rest run)
      × (run.unavailable ≡ false)
      × (idle_at k run.idle ≢ 0)
unfolding take_item
take_item_inv k run next e = ground arith

take_item-IsAccounted :
    (xs : List JobItemResponse) (k : String) (run next : Run)
    → take_item k run ≡ some next
    → IsAccounted xs run
    → IsAccounted xs next
take_item-IsAccounted xs k run next e a =
    let (item, rest, _, same, _, _) = take_item_inv k run next e in
    rw same (record {
      completed = a.completed;
      success = a.success;
      failed = a.failed;
      results = a.results;
      in_sync = a.in_sync;
    })

-- At every point of a run the counters of the job are those of all its results, the earlier ones
-- and those of this run, these are stored in order with nothing missing, and the repository holds
-- the job as it is.
pub Trace-IsAccounted :
    (lib : Library) (config : Config) {run now : Run} {xs : List JobItemResponse}
    (earlier : List JobItemResponse)
    → IsAccounted earlier run
    → Trace lib config run xs now
    → IsAccounted (earlier ++ xs) now
Trace-IsAccounted lib config earlier a start = rw append-nil a
Trace-IsAccounted lib config {xs = xs} earlier a (take {now = now} {next = next} k trace e) =
    take_item-IsAccounted (earlier ++ xs) k now next e
      (Trace-IsAccounted lib config earlier a trace)
Trace-IsAccounted lib config earlier a
      (done {xs = ys} {now = now} k item result elapsed trace held own) =
    rw (← append_assoc) (
      finish-IsAccounted lib config k item result elapsed (earlier ++ ys) now
        (Trace-IsAccounted lib config earlier a trace))

-- How many items with an identifier that passes `p` wait in the queues or are held by workers.
abbrev pub outstanding : (String → Bool) → Run → ℕ
outstanding p run =
    total (λ q. tally (λ item. p item.item_id) q.1) run.queues
    + tally (λ h. p h.1.item_id) run.in_flight

queued_at : (String → Bool) → Option (List JobItemRequest) → ℕ
queued_at p none = 0
queued_at p (some queue) = tally (λ item. p item.item_id) queue

total-insert :
    (p : String → Bool) (k : String) (queue : List JobItemRequest)
    (queues : Dict String (List JobItemRequest))
    → total (λ q. tally (λ item. p item.item_id) q.1) (insert k queue queues)
        + queued_at p (lookup k queues)
      ≡ total (λ q. tally (λ item. p item.item_id) q.1) queues
        + tally (λ item. p item.item_id) queue
unfolding insert lookup queued_at
total-insert p k queue [] = omega arith
total-insert p k queue ((j, w) ∷ queues) = ground (arith, total-insert p k queue queues)

queued_at-queue_at :
    (p : String → Bool) (k : String) (queues : Dict String (List JobItemRequest))
    → queued_at p (lookup k queues) ≡ tally (λ item. p item.item_id) (queue_at k queues)
unfolding queued_at
queued_at-queue_at p k queues = ground arith

outstanding-take_item :
    (p : String → Bool) (k : String) (run next : Run)
    → take_item k run ≡ some next
    → outstanding p next ≡ outstanding p run
outstanding-take_item p k run next e =
    let (item, rest, front, same, _, _) = take_item_inv k run next e in
    rw same
      (ground (arith, front, total-insert p k rest run.queues, queued_at-queue_at p k run.queues))

tally-release :
    (p : String → Bool) (k : String) (item : JobItemRequest) (held : List (String × JobItemRequest))
    → tally (λ h. h.0 == k && h.1.item_id == item.item_id) held ≢ 0
    → tally (λ h. p h.1.item_id) (release k item.item_id held) + (if p item.item_id then 1 else 0)
      ≡ tally (λ h. p h.1.item_id) held
tally-release p k item [] h = absurd (h refl)
tally-release p k item ((j, other) ∷ held) h =
    elim (Bool-cases (j == k && other.item_id == item.item_id)) [
      | inl match ↦
          let same : other.item_id ≡ item.item_id =
            (string_key.same_iff other.item_id item.item_id).0 (ground arith) in
          rw (match, same) (omega arith)
      | inr differs ↦
          let ih = tally-release p k item held (λ e. h (rw differs (omega (arith, e)))) in
          rw differs (omega (arith, ih))
    ]

item_id-bounded_result :
    (lib : Library) (config : Config) (result : JobItemResponse)
    → (bounded_result lib config result).item_id ≡ result.item_id
unfolding bounded_result
item_id-bounded_result lib config result = ground arith

count_argus-queues :
    (result : JobItemResponse) (run : Run) → (count_argus result run).queues ≡ run.queues
unfolding count_argus
count_argus-queues result run = ground arith

queues-finish :
    (lib : Library) (config : Config) (k : String) (item : JobItemRequest)
    (result : JobItemResponse) (elapsed : ℕ) (run : Run)
    → (finish lib config k item result elapsed run).queues ≡ run.queues
unfolding finish persist_result
queues-finish lib config k item result elapsed run =
    count_argus-queues (bounded_result lib config result) run

flight-finish :
    (lib : Library) (config : Config) (k : String) (item : JobItemRequest)
    (result : JobItemResponse) (elapsed : ℕ) (run : Run)
    → (finish lib config k item result elapsed run).in_flight ≡ release k item.item_id run.in_flight
unfolding finish
flight-finish lib config k item result elapsed run = refl

-- Nothing is lost and nothing is collected twice: for every test of identifiers, the items that
-- wait or are held at the start are, at every later point of the run, those that still wait or are
-- held, and those that have a result of this run.
pub Trace-outstanding :
    (lib : Library) (config : Config) (p : String → Bool) {run now : Run}
    {xs : List JobItemResponse}
    → Trace lib config run xs now
    → outstanding p now + tally (λ x. p x.item_id) xs ≡ outstanding p run
Trace-outstanding lib config p start = omega arith
Trace-outstanding lib config p (take {now = now} {next = next} k trace e) =
    omega (arith, outstanding-take_item p k now next e, Trace-outstanding lib config p trace)
Trace-outstanding lib config p (done {xs = ys} {now = now} k item result elapsed trace held own) =
    let result' = bounded_result lib config result in
    let added = tally-append (λ (x : JobItemResponse). p x.item_id) ys (result' ∷ []) in
    rw (queues-finish, flight-finish)
      (ground (
        arith,
        added,
        own,
        item_id-bounded_result lib config result,
        tally-release p k item now.in_flight held,
        Trace-outstanding lib config p trace,
      ))

tally-snoc :
    (p : String → Bool) (queue : List JobItemRequest) (item : JobItemRequest)
    → tally (λ i. p i.item_id) (snoc queue item)
      ≡ tally (λ i. p i.item_id) queue + (if p item.item_id then 1 else 0)
tally-snoc p [] item = omega arith
tally-snoc p (x ∷ queue) item = omega (arith, tally-snoc p queue item)

total-enqueue :
    (normalize : Normalize) (scoped : Bool) (p : String → Bool) (items : List JobItemRequest)
    (queues : Dict String (List JobItemRequest))
    → total (λ q. tally (λ item. p item.item_id) q.1) (enqueue normalize scoped items queues)
      ≡ total (λ q. tally (λ item. p item.item_id) q.1) queues
        + tally (λ item. p item.item_id) items
unfolding enqueue
total-enqueue normalize scoped p [] queues = omega arith
total-enqueue normalize scoped p (item ∷ items) queues =
    let k = queue_key normalize scoped item in
    omega (
      arith,
      total-enqueue normalize scoped p items (insert k (snoc (queue_at k queues) item) queues),
      total-insert p k (snoc (queue_at k queues) item) queues,
      queued_at-queue_at p k queues,
      tally-snoc p (queue_at k queues) item,
    )

-- A run hands every input of its request to the queues, each once.
outstanding-begin :
    (normalize : Normalize) (config : Config) (scoped : Bool) (now : ℕ) (active : ActiveJob)
    (r : Repository) (p : String → Bool)
    → outstanding p (begin normalize config scoped now active r)
      ≡ tally (λ item. p item.item_id) active.request.items
unfolding begin
outstanding-begin normalize config scoped now active r p =
    omega (arith, total-enqueue normalize scoped p active.request.items [])

begin-IsAccounted :
    (normalize : Normalize) (config : Config) (scoped : Bool) (now : ℕ) (active : ActiveJob)
    (r : Repository) (earlier : List JobItemResponse)
    → active.stored.completed ≡ length earlier
    → active.stored.success ≡ tally is_success earlier
    → active.stored.success + active.stored.failed ≡ active.stored.completed
    → HasResults active.stored.job_id earlier r
    → lookup active.stored.job_id r.jobs ≡ some active.stored
    → IsAccounted earlier (begin normalize config scoped now active r)
unfolding begin
begin-IsAccounted normalize config scoped now active r earlier hc hs hf hr hj = record {
  completed = hc;
  success = hs;
  failed = hf;
  results = ground (arith, hr, results-update_job (started now active.stored) r);
  in_sync = update_job_self (started now active.stored) active.stored r hj;
}

tally-true {ℓ} : {A : Type ℓ} (xs : List A) → tally (λ _. true) xs ≡ length xs
tally-true [] = refl
tally-true (x ∷ xs) = omega (arith, tally-true xs)

tally-le-true {ℓ} : {A : Type ℓ} (p : A → Bool) (xs : List A) → tally p xs ≤ tally (λ _. true) xs
tally-le-true p [] = omega arith
tally-le-true p (x ∷ xs) = ground (arith, tally-le-true p xs)

total-le-true :
    (p : String → Bool) (queues : Dict String (List JobItemRequest))
    → total (λ q. tally (λ item. p item.item_id) q.1) queues
      ≤ total (λ q. tally (λ _. true) q.1) queues
total-le-true p [] = omega arith
total-le-true p ((k, queue) ∷ queues) =
    omega (
      arith,
      tally-le-true (λ (item : JobItemRequest). p item.item_id) queue,
      total-le-true p queues,
    )

outstanding-le : (p : String → Bool) (run : Run) → outstanding p run ≤ outstanding (λ _. true) run
outstanding-le p run = omega (
  arith,
  total-le-true p run.queues,
  tally-le-true (λ (h : String × JobItemRequest). p h.1.item_id) run.in_flight,
)

-- A job whose run ends with empty queues and no item held, started with the results `earlier`
-- stored and counted: as many results of this run carry an identifier as inputs of the request do,
-- the stored results are the earlier ones followed by those of this run, and the counters are
-- theirs, so that the completed items are the earlier ones and all inputs of the request.
pub begin_complete :
    (lib : Library) (normalize : Normalize) (config : Config) (scoped : Bool) (now : ℕ)
    (active : ActiveJob) (r : Repository) (earlier xs : List JobItemResponse) (end : Run)
    → active.stored.completed ≡ length earlier
    → active.stored.success ≡ tally is_success earlier
    → active.stored.success + active.stored.failed ≡ active.stored.completed
    → HasResults active.stored.job_id earlier r
    → lookup active.stored.job_id r.jobs ≡ some active.stored
    → Trace lib config (begin normalize config scoped now active r) xs end
    → outstanding (λ _. true) end ≡ 0
    → ((id : String)
        → tally (λ x. x.item_id == id) xs ≡ tally (λ item. item.item_id == id) active.request.items)
      × IsAccounted (earlier ++ xs) end
      × (end.stored.completed ≡ active.stored.completed + length active.request.items)
begin_complete lib normalize config scoped now active r earlier xs end hc hs hf hr hj trace idle =
    let accounted =
      Trace-IsAccounted lib config earlier
        (begin-IsAccounted normalize config scoped now active r earlier hc hs hf hr hj) trace in
    let conserved = λ (p : String → Bool). Trace-outstanding lib config p trace in
    (
      λ id. omega (
        arith,
        outstanding-le (λ i. i == id) end,
        idle,
        conserved (λ i. i == id),
        outstanding-begin normalize config scoped now active r (λ i. i == id),
      ),
      accounted,
      omega (
        arith,
        accounted.completed,
        length-append earlier xs,
        hc,
        idle,
        conserved (λ _. true),
        outstanding-begin normalize config scoped now active r (λ _. true),
        tally-true {A = JobItemResponse} xs,
        tally-true {A = JobItemRequest} active.request.items,
      ),
    )
