-- ===== src/Engagement/Merging/Cancelled.antt =====
-- Callers of `_fetch_cached` that leave: with a result, an exception, or cancelled.
use creator_engagement_proje.Base.{
  ℕ, ◌≡◌, refl, true, false, not, ◌&&◌, some, List, [], ◌∷◌, ◌++◌, leb, if◌then◌else◌, Key, ◌==◌,
  nat_key, contains, All, tally-append, arith, ◌⊎◌, inl, inr, Bool-cases,
}
use creator_engagement_proje.Base.Select.{All-imp, All-zip}
use creator_engagement_proje.Base.Dict.{Dict, lookup, pop, lookup-pop, same_refl}
use creator_engagement_proje.Engagement.Merging.{
  Running, idle, finish_task, join, release_waiter, leave, cancelled, is_current, waiters_left,
}
use creator_engagement_proje.Engagement.Merging.Callers.{
  IsMerged, Awaits, callers_of, release_waiter-counted, All-middle, tally_zero, join-IsMerged,
  finish_task-IsMerged,
}

module _ {ℓ} {K : Type ℓ} ⦃key : Key K⦄ where
  -- The tasks that are left once a caller of a key has gone.
  abbrev tasks_left : K → ℕ → Running K → Dict K ℕ
  tasks_left k task s = if is_current k task s then pop k s.tasks else s.tasks

  lookup-tasks_left :
      (k j : K) (task t : ℕ) (s : Running K)
      → lookup j (tasks_left k task s) ≡ some t
      → lookup j s.tasks ≡ some t
  lookup-tasks_left k j task t s found = ground (arith, lookup-pop k j s.tasks)

  module _ (before after : List (K × ℕ)) (k : K) (task : ℕ) (s : Running K)
      (h : IsMerged (before ++ (k, task) ∷ after) s) where
    others-joined : All (Awaits s) (before ++ after)
    others-joined = (All-middle (Awaits s) before (k, task) after h.joined).1

    own-joined : Awaits s (k, task)
    own-joined = (All-middle (Awaits s) before (k, task) after h.joined).0

    -- The caller is uncounted and its task is off the table, if the task is over or nobody else
    -- has the key.
    left-IsMerged :
        All (λ c. (contains s.done task ≡ true) ⊎ ((c.0 == k) ≡ false)) (before ++ after)
        → IsMerged
            (before ++ after)
            (record s { waiters = release_waiter k s.waiters; tasks = tasks_left k task s })
    left-IsMerged alone = record {
      counted = release_waiter-counted before after k task s.waiters h.counted;
      joined =
          All-zip (λ c. (contains s.done task ≡ true) ⊎ ((c.0 == k) ≡ false)) (Awaits s)
            (λ c. (contains s.done c.1 ≡ true) ⊎ (lookup c.0 (tasks_left k task s) ≡ some c.1))
            (before ++ after)
            (λ c a w. ground (
              arith,
              lookup-pop k c.0 s.tasks,
              key.same_iff k c.0,
              key.same_iff c.0 k,
              nat_key.same_iff c.1 task,
            ))
            alone others-joined;
      fresh = λ j t found. h.fresh j t (lookup-tasks_left k j task t s found);
      owned = λ i j t p q.
          h.owned i j t (lookup-tasks_left k i task t s p) (lookup-tasks_left k j task t s q);
    }

    waiters_left-count : waiters_left k s.waiters ≡ callers_of k (before ++ after)
    waiters_left-count = ground (
      arith,
      h.counted k,
      same_refl k,
      tally-append (λ c. c.0 == k) before ((k, task) ∷ after),
      tally-append (λ c. c.0 == k) before after,
    )

    leave-IsMerged : contains s.done task ≡ true → IsMerged (before ++ after) (leave k task s)
    unfolding leave
    leave-IsMerged over = left-IsMerged (
        All-imp (Awaits s) (λ c. (contains s.done task ≡ true) ⊎ ((c.0 == k) ≡ false))
          (before ++ after) (λ c a. inl over) others-joined)

    -- Nobody else has the key of a caller whose count comes to zero.
    others_elsewhere :
        leb (waiters_left k s.waiters) 0 ≡ true
        → All (λ c. (contains s.done task ≡ true) ⊎ ((c.0 == k) ≡ false)) (before ++ after)
    others_elsewhere e =
        All-imp (λ c. (c.0 == k) ≡ false)
          (λ c. (contains s.done task ≡ true) ⊎ ((c.0 == k) ≡ false)) (before ++ after)
          (λ c p. inr p)
          (tally_zero (λ c. c.0 == k) (before ++ after) (ground (arith, waiters_left-count)))

    cancelled-IsMerged : IsMerged (before ++ after) (cancelled k task s).1
    unfolding cancelled
    cancelled-IsMerged = elim (Bool-cases (leb (waiters_left k s.waiters) 0)) [
      | inl e ↦ rw (e, cancelled) (left-IsMerged (others_elsewhere e))
      | inr e ↦
          rw (e, cancelled)
            (record {
              counted = release_waiter-counted before after k task s.waiters h.counted;
              joined = others-joined;
              fresh = h.fresh;
              owned = h.owned;
            })
    ]

    cancelled_value :
        (cancelled k task s).0
        ≡ (leb (callers_of k (before ++ after)) 0 && not (contains s.done task))
    unfolding cancelled
    cancelled_value = ground (arith, waiters_left-count, own-joined, nat_key.same_iff task task)

    spares : All (λ c. ((cancelled k task s).0 && c.1 == task) ≡ false) (before ++ after)
    spares = elim (Bool-cases (leb (callers_of k (before ++ after)) 0)) [
      | inl e ↦
          All-zip (λ c. (c.0 == k) ≡ false) (Awaits s)
            (λ c. ((cancelled k task s).0 && c.1 == task) ≡ false) (before ++ after)
            (λ c p w. ground (
              arith,
              cancelled_value,
              own-joined,
              key.same_iff c.0 k,
              nat_key.same_iff c.1 task,
              h.owned c.0 k task,
            ))
            (tally_zero (λ c. c.0 == k) (before ++ after) (ground arith)) others-joined
      | inr e ↦
          All-imp (Awaits s) (λ c. ((cancelled k task s).0 && c.1 == task) ≡ false)
            (before ++ after) (λ c w. ground (arith, cancelled_value)) others-joined
    ]

-- The callers that wait, with their tasks, after any sequence of what callers and tasks do.
pub data Calls {ℓ} {K : Type ℓ} ⦃key : Key K⦄ : List (K × ℕ) → Running K → Type ℓ where
  opened : Calls [] idle
  joined :
      {callers : List (K × ℕ)} {s : Running K} (k : K)
      → Calls callers s
      → Calls ((k, (join k s).0) ∷ callers) (join k s).1
  finished :
      {callers : List (K × ℕ)} {s : Running K} (task : ℕ)
      → Calls callers s
      → Calls callers (finish_task task s)
  left :
      (before : List (K × ℕ)) (after : List (K × ℕ)) {s : Running K} (k : K) (task : ℕ)
      → contains s.done task ≡ true
      → Calls (before ++ (k, task) ∷ after) s
      → Calls (before ++ after) (leave k task s)
  gave_up :
      (before : List (K × ℕ)) (after : List (K × ℕ)) {s : Running K} (k : K) (task : ℕ)
      → Calls (before ++ (k, task) ∷ after) s
      → Calls (before ++ after) (cancelled k task s).1

module _ {ℓ} {K : Type ℓ} ⦃key : Key K⦄ where
  -- Whatever callers and tasks do: the count of a key is the number of callers that wait under it,
  -- a key without callers has no count, the task of a waiting caller is done or the one that a new
  -- caller of its key joins, so that callers of one key share the task that runs, and no task
  -- stands under two keys. A caller is taken to leave when its task is done or when it is
  -- cancelled, and the service not to be closed.
  pub Calls-IsMerged :
      {callers : List (K × ℕ)} {s : Running K} → Calls callers s → IsMerged callers s
  unfolding lookup
  Calls-IsMerged opened = record {
    counted = λ k. refl;
    joined = tt;
    fresh = λ k t p. ground arith;
    owned = λ j k t p q. ground arith;
  }
  Calls-IsMerged (joined {callers} {s} k calls) = join-IsMerged callers s k (Calls-IsMerged calls)
  Calls-IsMerged (finished {callers} {s} task calls) =
      finish_task-IsMerged callers s task (Calls-IsMerged calls)
  Calls-IsMerged (left before after {s} k task over calls) =
      leave-IsMerged before after k task s (Calls-IsMerged calls) over
  Calls-IsMerged (gave_up before after {s} k task calls) =
      cancelled-IsMerged before after k task s (Calls-IsMerged calls)

  -- A cancelled caller goes on to cancel its task exactly if no other caller waits under its key
  -- and the task is not done; a task that it cancels is no other caller's.
  pub cancelled-exact :
      (before after : List (K × ℕ)) (k : K) (task : ℕ) (s : Running K)
      → Calls (before ++ (k, task) ∷ after) s
      → ((cancelled k task s).0
          ≡ (leb (callers_of k (before ++ after)) 0 && not (contains s.done task)))
        × All (λ c. ((cancelled k task s).0 && c.1 == task) ≡ false) (before ++ after)
  cancelled-exact before after k task s calls =
      let h = Calls-IsMerged calls in
      (cancelled_value before after k task s h, spares before after k task s h)
