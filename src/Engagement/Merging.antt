-- ===== src/Engagement/Merging.antt =====
-- The merging of equal collections in EngagementService (`_fetch_cached`): callers of one key wait
-- for one task. A task is named by the number of the tasks that were started before it.
pub mod Callers
pub mod Cancelled
pub mod Reuse
mod Tests
use creator_engagement_proje.Base.{
  ℕ, ◌+◌, ◌-◌, ◌≡◌, Bool, true, false, not, ◌&&◌, Option, none, some, List, [], ◌∷◌, leb,
  if◌then◌else◌, Key, ◌==◌, nat_key, option_beq, contains, pair_key, bool_key, ◌⊎◌, inl, inr,
}
use creator_engagement_proje.Base.Dict.{Dict, lookup, insert, pop}
use creator_engagement_proje.Engagement.Cache.{Cache, Limits, find, keep}

-- `_result_tasks` and `_result_waiters`, the number of tasks started, and the tasks that are done.
pub record Running {ℓ} (K : Type ℓ) : Type ℓ where
  pub tasks : Dict K ℕ
  pub waiters : Dict K ℕ
  pub started : ℕ
  pub done : List ℕ

-- d.get(key, default)
abbrev pub count_or : ℕ → Option ℕ → ℕ
count_or default none = default
count_or default (some n) = n

module _ {ℓ} {K : Type ℓ} where
  abbrev pub idle : Running K
  idle = record { tasks = []; waiters = []; started = 0; done = [] }

  -- A task ends, by a result, an exception or a cancellation.
  abbrev pub finish_task : ℕ → Running K → Running K
  finish_task task s = record s { done = task ∷ s.done }

module _ {ℓ} {K : Type ℓ} ⦃key : Key K⦄ where
  -- A caller finds the running task of its key or starts one, and is counted.
  unfoldable pub join : K → Running K → ℕ × Running K
  join k s = elim (lookup k s.tasks) [
    | some task ↦
        (task, record s { waiters = insert k (count_or 0 (lookup k s.waiters) + 1) s.waiters })
    | none ↦ (
      s.started,
      record s {
        tasks = insert k s.started s.tasks;
        waiters = insert k (count_or 0 (lookup k s.waiters) + 1) s.waiters;
        started = s.started + 1;
      },
    )
  ]

  abbrev pub waiters_left : K → Dict K ℕ → ℕ
  waiters_left k waiters = count_or 1 (lookup k waiters) - 1

  -- A caller is no longer counted.
  unfoldable pub release_waiter : K → Dict K ℕ → Dict K ℕ
  release_waiter k waiters =
      if leb (waiters_left k waiters) 0
      then pop k waiters
      else insert k (waiters_left k waiters) waiters

  -- `self._result_tasks.get(task_key) is task`
  abbrev pub is_current : K → ℕ → Running K → Bool
  is_current k task s = option_beq (lookup k s.tasks) (some task)

  -- What a caller does when its task gave a result or raised.
  unfoldable pub leave : K → ℕ → Running K → Running K
  leave k task s = record s {
    waiters = release_waiter k s.waiters;
    tasks = if is_current k task s then pop k s.tasks else s.tasks;
  }

  -- What a cancelled caller does: the test tells whether it goes on to cancel the task.
  unfoldable pub cancelled : K → ℕ → Running K → Bool × Running K
  cancelled k task s =
      if leb (waiters_left k s.waiters) 0
      then (
        is_current k task s && not (contains s.done task),
        record s {
          waiters = release_waiter k s.waiters;
          tasks = if is_current k task s then pop k s.tasks else s.tasks;
        },
      )
      else (false, record s { waiters = release_waiter k s.waiters })

-- The part of EngagementService that `_fetch_cached` keeps: a task's key has a mark that tells
-- whether its callers hold a reserved slot.
pub record Fetches {ℓ κ} (K : Type ℓ) (R : Type κ) : Type (ℓ ⊔ κ) where
  pub cache : Cache K R
  pub running : Running (K × Bool)

module _ {ℓ κ} {K : Type ℓ} {R : Type κ} ⦃key : Key K⦄ where
  -- `_fetch_cached` up to where it waits: the cached result, or the task it waits for.
  unfoldable pub begin_fetch : ℕ → K → Bool → Fetches K R → (R ⊎ ℕ) × Fetches K R
  begin_fetch now k reserved f =
      let found = find now k f.cache in
      elim found.0 [
        | some result ↦ (inl result, record f { cache = found.1 })
        | none ↦
            let joined = join (k, reserved) f.running in
            (inr joined.0, record { cache = found.1; running = joined.1 })
      ]

  -- `_fetch_cached` once its task gave a result; `none` is a KeyError of the eviction.
  unfoldable pub end_fetch :
      Limits → ℕ → K → Bool → ℕ → R → ℕ → ℕ → Fetches K R → Option (Fetches K R)
  end_fetch limits now k reserved task result ttl size_bytes f =
      elim (keep limits now k result ttl size_bytes f.cache) [
        | none ↦ none
        | some cache ↦ some (record { cache = cache; running = leave (k, reserved) task f.running })
      ]
