-- ===== src/Engagement/Merging/Callers.antt =====
-- Callers of `_fetch_cached`, their tasks, and the counts of them.
use creator_engagement_proje.Base.{
  ℕ, ◌+◌, ◌-◌, ◌<◌, ◌≡◌, Bool, true, false, Option, none, some, List, [], ◌∷◌, ◌++◌, ltb,
  if◌then◌else◌, Key, ◌==◌, nat_key, contains, All, tally, tally-append, arith, ◌⊎◌, inl, inr,
  Option-cases,
}
use creator_engagement_proje.Base.Select.{All-imp}
use creator_engagement_proje.Base.Dict.{
  Dict, lookup, insert, lookup-insert, lookup-insert_self, lookup-pop,
}
use creator_engagement_proje.Engagement.Merging.{
  Running, finish_task, join, release_waiter, count_or,
}

-- All but one in the middle.
pub All-middle {ℓ κ} :
    {A : Type ℓ} (P : A → Type κ) (xs : List A) (y : A) (zs : List A)
    → All P (xs ++ y ∷ zs)
    → P y × All P (xs ++ zs)
All-middle P [] y zs h = h
All-middle P (x ∷ xs) y zs h = let rest = All-middle P xs y zs h.1 in (rest.0, (h.0, rest.1))

pub tally_zero {ℓ} :
    {A : Type ℓ} (test : A → Bool) (xs : List A) → tally test xs ≡ 0 → All (λ x. test x ≡ false) xs
tally_zero test [] h = tt
tally_zero test (x ∷ xs) h = ground (arith, tally_zero test xs)

abbrev pub positive : ℕ → Option ℕ
positive n = if ltb 0 n then some n else none

module _ {ℓ} {K : Type ℓ} ⦃key : Key K⦄ where
  abbrev pub callers_of : K → List (K × ℕ) → ℕ
  callers_of k callers = tally (λ c. c.0 == k) callers

  -- A caller's task is done, or the one that a new caller of its key would join.
  abbrev pub Awaits : Running K → K × ℕ → Type 0
  Awaits s c = (contains s.done c.1 ≡ true) ⊎ (lookup c.0 s.tasks ≡ some c.1)

  -- What holds between the waiting callers (their keys and tasks) and the service: the counts are
  -- theirs, a caller's task is done or the one that a new caller would join, and no task has two
  -- keys.
  pub record IsMerged (callers : List (K × ℕ)) (s : Running K) : Type ℓ where
    pub counted : (k : K) → lookup k s.waiters ≡ positive (callers_of k callers)
    pub joined : All (Awaits s) callers
    pub fresh : (k : K) (task : ℕ) → lookup k s.tasks ≡ some task → task < s.started
    pub owned :
        (j k : K) (task : ℕ) → lookup j s.tasks ≡ some task → lookup k s.tasks ≡ some task → j ≡ k

  pub release_waiter-counted :
      (before after : List (K × ℕ)) (k : K) (task : ℕ) (waiters : Dict K ℕ)
      → ((j : K) → lookup j waiters ≡ positive (callers_of j (before ++ (k, task) ∷ after)))
      → (j : K) → lookup j (release_waiter k waiters) ≡ positive (callers_of j (before ++ after))
  unfolding release_waiter
  release_waiter-counted before after k task waiters h j = ground (
    arith,
    h j,
    h k,
    key.same_iff k j,
    key.same_iff k k,
    lookup-pop k j waiters,
    lookup-insert k j (count_or 1 (lookup k waiters) - 1) waiters,
    tally-append (λ c. c.0 == j) before ((k, task) ∷ after),
    tally-append (λ c. c.0 == j) before after,
    tally-append (λ c. c.0 == k) before ((k, task) ∷ after),
    tally-append (λ c. c.0 == k) before after,
  )

  pub join-IsMerged :
      (callers : List (K × ℕ)) (s : Running K) (k : K)
      → IsMerged callers s
      → IsMerged ((k, (join k s).0) ∷ callers) (join k s).1
  unfolding join
  join-IsMerged callers s k h = elim (Option-cases (lookup k s.tasks)) [
    | inr (task, e) ↦
        rw (e, join)
          (record {
            counted = λ j. ground (
              arith,
              h.counted j,
              h.counted k,
              key.same_iff k j,
              key.same_iff k k,
              lookup-insert k j (count_or 0 (lookup k s.waiters) + 1) s.waiters,
            );
            joined = (inr e, h.joined);
            fresh = h.fresh;
            owned = h.owned;
          })
    | inl e ↦
        rw (e, join)
          (record {
            counted = λ j. ground (
              arith,
              h.counted j,
              h.counted k,
              key.same_iff k j,
              key.same_iff k k,
              lookup-insert k j (count_or 0 (lookup k s.waiters) + 1) s.waiters,
            );
            joined = (
              inr (lookup-insert_self k s.started s.tasks),
              All-imp (Awaits s)
                  (λ c.
                    (contains s.done c.1 ≡ true)
                    ⊎ (lookup c.0 (insert k s.started s.tasks) ≡ some c.1))
                  callers
                  (λ c a. ground (arith, lookup-insert k c.0 s.started s.tasks, key.same_iff k c.0))
                  h.joined,
            );
            fresh = λ j t found. ground (arith, lookup-insert k j s.started s.tasks, h.fresh j t);
            owned = λ i j t p q. ground (
              arith,
              lookup-insert k i s.started s.tasks,
              lookup-insert k j s.started s.tasks,
              key.same_iff k i,
              key.same_iff k j,
              h.fresh i t,
              h.fresh j t,
              h.owned i j t,
            );
          })
  ]

  pub finish_task-IsMerged :
      (callers : List (K × ℕ)) (s : Running K) (task : ℕ)
      → IsMerged callers s
      → IsMerged callers (finish_task task s)
  finish_task-IsMerged callers s task h = record {
    counted = h.counted;
    joined =
        All-imp (Awaits s) (Awaits (finish_task task s)) callers (λ c a. ground arith) h.joined;
    fresh = h.fresh;
    owned = h.owned;
  }
