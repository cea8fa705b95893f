-- ===== src/Proxies/Pool/Choice.antt =====
-- The slots that `_select_available_slot` selects.
use creator_engagement_proje.Base.{
  ℕ, ◌+◌, String, ◌≡◌, Bool, true, false, ◌||◌, Option, none, some, List, [], ◌∷◌, map, arith, All,
  All-get_elem?, IsPlace, places-IsPlace, minimum-All, first-All, Bool-cases, ◌⊎◌, inl, inr, ◌≤◌,
  ◌<◌, ltb, ◌==◌, string_key, nat_key, pair_key, length, select, get_elem?, places, first,
}
use creator_engagement_proje.Base.Dict.{Dict, lookup}
use creator_engagement_proje.Proxies.Policy.{ProxyRequirements}
use creator_engagement_proje.Proxies.Pool.{
  Slot, PoolConfig, ProxyPool, seconds, or_zero, mark_expired_and_cleanup, eligible,
  select_available_slot, is_kept, mark_expired, is_candidate, choose, is_pinned, is_less_loaded,
  or_least,
}

module _ (Q : ℕ × Slot → Type 0) (affinity : String) (candidates : List (ℕ × Slot))
    (affinities : Dict String (String × ℕ)) (p : ℕ × Slot) (all : All Q candidates) where
  or_least-All :
      (o : Option (ℕ × Slot))
      → ((q : ℕ × Slot) → o ≡ some q → Q q)
      → (or_least affinity candidates affinities o).0 ≡ some p
      → Q p
  or_least-All none pinned found = minimum-All Q is_less_loaded candidates p all found
  or_least-All (some q) pinned found = pinned p found

  choose-All : (choose affinity candidates affinities).0 ≡ some p → Q p
  unfolding choose
  choose-All found = elim (Bool-cases (affinity == "" || length candidates == 0)) [
    | inl free ↦ minimum-All Q is_less_loaded candidates p all (rw free at found)
    | inr bound ↦
        or_least-All (first test candidates) (λ q e. first-All Q test candidates q all e)
          (rw bound at found)
  ]
    where
      test : ℕ × Slot → Bool
      test = is_pinned (lookup affinity affinities)

module _ (requirement : ProxyRequirements) (affinity : String) (now : ℕ) (pool : ProxyPool) where
  abbrev selected : Option (ℕ × Slot) × ProxyPool
  selected = select_available_slot requirement affinity now pool

  pub select_available_slot-IsPlace :
      (p : ℕ × Slot)
      → selected.0 ≡ some p
      → IsPlace (is_candidate selected.1.config requirement now) selected.1.slots p
  unfolding select_available_slot
  select_available_slot-IsPlace p found =
      let swept = mark_expired_and_cleanup now pool in
      let test = is_candidate swept.config requirement now in
      choose-All (IsPlace test swept.slots) affinity (places test swept.slots) swept.affinity_slots
        p (places-IsPlace test swept.slots) found

-- After the sweep, a slot that takes requests has not expired.
abbrev IsFresh : ℕ → Slot → Type 0
IsFresh now s = (s.draining || ltb now s.expire_at) ≡ true

swept-IsFresh :
    (now : ℕ) (slots : List Slot)
    → All (IsFresh now) (select is_kept (map (mark_expired now) slots))
swept-IsFresh now [] = tt
swept-IsFresh now (s ∷ slots) = ground (arith, swept-IsFresh now slots)

-- In the optimized mode: what a slot offers to a borrower with these requirements.
abbrev pub Meets : ProxyRequirements → ℕ → Slot → Type 0
Meets requirement now s =
    (now + seconds requirement.min_remaining_seconds ≤ s.expire_at)
    × (s.exclusive ≡ false)
    × ((requirement.exclusive ≡ false) ⊎ (s.in_flight ≡ 0))
    × (s.cooldown_until ≤ now)
    × (or_zero (lookup requirement.platform s.platform_cooldowns) ≤ now)

eligible-Meets :
    (config : PoolConfig) (requirement : ProxyRequirements) (now : ℕ) (s : Slot)
    → config.lease_optimization_enabled ≡ true
    → eligible config requirement now s ≡ true
    → Meets requirement now s
unfolding eligible
eligible-Meets config requirement now s on e = (
  ground arith,
  ground arith,
  elim (Bool-cases requirement.exclusive) [
    | inl alone ↦ inr (ground (arith, nat_key.same_iff s.in_flight 0))
    | inr shared ↦ inl shared
  ],
  ground arith,
  ground arith,
)

module _ (requirement : ProxyRequirements) (affinity : String) (now : ℕ) (pool : ProxyPool) where
  -- The slot that a pool selects stands in it, takes requests, has not expired and has room for
  -- one more request. In the optimized mode it lasts as long as the requirements ask, is not
  -- lent exclusively, is idle if they ask for an exclusive lease, and is not cooling down, neither
  -- itself nor for the platform.
  pub select_available_slot-Meets :
      (p : ℕ × Slot)
      → (select_available_slot requirement affinity now pool).0 ≡ some p
      → (get_elem? (select_available_slot requirement affinity now pool).1.slots p.0 ≡ some p.1)
        × (p.1.draining ≡ false)
        × (now < p.1.expire_at)
        × (p.1.in_flight < pool.config.max_concurrency_per_proxy)
        × ((pool.config.lease_optimization_enabled ≡ false) ⊎ Meets requirement now p.1)
  unfolding select_available_slot mark_expired_and_cleanup
  select_available_slot-Meets p found =
      let place = select_available_slot-IsPlace requirement affinity now pool p found in
      let fresh =
        All-get_elem? (IsFresh now) p.0
          (select_available_slot requirement affinity now pool).1.slots p.1 place.0
          (swept-IsFresh now pool.slots) in
      (
        place.0,
        ground arith,
        ground arith,
        ground arith,
        elim (Bool-cases pool.config.lease_optimization_enabled) [
          | inl on ↦ inr (eligible-Meets pool.config requirement now p.1 on (ground arith))
          | inr off ↦ inl off
        ],
      )
