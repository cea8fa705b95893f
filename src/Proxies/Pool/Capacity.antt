-- ===== src/Proxies/Pool/Capacity.antt =====
-- The room in the pool: the leases of a slot, the number of slots, and the count of leases.
use creator_engagement_proje.Base.{
  ℕ, zero, suc, ◌+◌, String, ◌≡◌, refl, Bool, true, not, ◌&&◌, ◌||◌, Option, none, some, List, [],
  ◌∷◌, map, arith, All, total-modify, All-modify, IsPlace, places-IsPlace, minimum-All, Bool-cases,
  inl, inr, ◌≤◌, ltb, if◌then◌else◌, string_key, nat_key, pair_key, tally, select, get_elem?,
  modify, places, minimum,
}
use creator_engagement_proje.Proxies.Policy.{ProxyRequirements}
use creator_engagement_proje.Proxies.Pool.{
  Slot, PoolConfig, ProxyPool, mark_expired_and_cleanup, is_short, eligible, count_rejections,
  select_available_slot, is_kept, mark_expired, is_candidate, drain, in_use, active_count,
}
use creator_engagement_proje.Proxies.Pool.Choice.{select_available_slot-IsPlace}
use creator_engagement_proje.Proxies.Pool.Leasing.{
  Turn, lease, take_slot, ask_or_wait, lease_or_ask, get_requests_proxies,
  replace_ineligible_idle_slot, replace_place, ask, is_idle, is_replaceable, expires_sooner,
  needs_replacement,
}

-- How many requests a slot may have: an exclusive lease is alone.
abbrev pub limit_of : PoolConfig → Slot → ℕ
limit_of config slot = if slot.exclusive then 1 else config.max_concurrency_per_proxy

abbrev pub IsOrderly : PoolConfig → Slot → Type 0
IsOrderly config slot =
    (slot.in_flight ≤ limit_of config slot)
    × ((config.lease_optimization_enabled || not slot.exclusive) ≡ true)

-- Endpoints that a running call of the supplier was asked for.
abbrev pub expected : ProxyPool → ℕ → ℕ
expected pool pending = if pool.fetching then pending else 0

pub record IsSound (pool : ProxyPool) (pending : ℕ) : Type 0 where
  pub orderly : All (IsOrderly pool.config) pool.slots
  pub accounted :
      in_use pool.slots + pool.stats.success_count + pool.stats.failure_count
      ≡ pool.stats.lease_count
  pub sized : active_count pool.slots + expected pool pending ≤ pool.config.pool_size

abbrev swept : ℕ → List Slot → List Slot
swept now slots = select is_kept (map (mark_expired now) slots)

swept-All :
    (config : PoolConfig) (now : ℕ) (slots : List Slot)
    → All (IsOrderly config) slots
    → All (IsOrderly config) (swept now slots)
swept-All config now [] all = tt
swept-All config now (s ∷ slots) all = ground (arith, swept-All config now slots all.1)

pub in_use-swept : (now : ℕ) (slots : List Slot) → in_use (swept now slots) ≡ in_use slots
in_use-swept now [] = omega arith
in_use-swept now (s ∷ slots) = ground (arith, in_use-swept now slots)

active_count-swept :
    (now : ℕ) (slots : List Slot) → active_count (swept now slots) ≤ active_count slots
active_count-swept now [] = omega arith
active_count-swept now (s ∷ slots) = ground (arith, active_count-swept now slots)

pub mark_expired_and_cleanup-IsSound :
    (now : ℕ) (pool : ProxyPool) (pending : ℕ)
    → IsSound pool pending
    → IsSound (mark_expired_and_cleanup now pool) pending
unfolding mark_expired_and_cleanup
mark_expired_and_cleanup-IsSound now pool pending h = record {
  orderly = swept-All pool.config now pool.slots h.orderly;
  accounted = omega (arith, h.accounted, in_use-swept now pool.slots);
  sized = omega (arith, h.sized, active_count-swept now pool.slots);
}

pub select_available_slot-IsSound :
    (requirement : ProxyRequirements) (affinity : String) (now : ℕ) (pool : ProxyPool) (pending : ℕ)
    → IsSound pool pending
    → IsSound (select_available_slot requirement affinity now pool).1 pending
unfolding select_available_slot
select_available_slot-IsSound requirement affinity now pool pending h =
    let swept_h = mark_expired_and_cleanup-IsSound now pool pending h in
    record { orderly = swept_h.orderly; accounted = swept_h.accounted; sized = swept_h.sized }

pub active_count-modify :
    (f : Slot → Slot) (i : ℕ) (slots : List Slot)
    → ((s : Slot) → s.draining ≡ true → (f s).draining ≡ true)
    → active_count (modify i f slots) ≤ active_count slots
active_count-modify f i [] monotone = omega arith
active_count-modify f zero (s ∷ slots) monotone = ground (arith, monotone s)
active_count-modify f (suc i) (s ∷ slots) monotone =
    omega (arith, active_count-modify f i slots monotone)

take_slot-IsOrderly :
    (config : PoolConfig) (requirement : ProxyRequirements) (now : ℕ) (s : Slot)
    → is_candidate config requirement now s ≡ true
    → IsOrderly config s
    → IsOrderly config (take_slot config requirement s)
unfolding eligible
take_slot-IsOrderly config requirement now s candidate o =
    ground (arith, nat_key.same_iff s.in_flight 0)

module _ (requirement : ProxyRequirements) (now : ℕ) (p : ℕ × Slot) (pool : ProxyPool) where
  lease-IsSound :
      (pending : ℕ)
      → IsPlace (is_candidate pool.config requirement now) pool.slots p
      → IsSound pool pending
      → IsSound (lease requirement now p pool) pending
  unfolding lease
  lease-IsSound pending place h = record {
    orderly =
        All-modify (IsOrderly pool.config) p.0 (take_slot pool.config requirement) pool.slots p.1
          place.0 (take_slot-IsOrderly pool.config requirement now p.1 place.1) h.orderly;
    accounted = omega (
      arith,
      h.accounted,
      total-modify (λ s. s.in_flight) p.0 (take_slot pool.config requirement) pool.slots p.1
          place.0,
      used,
    );
    sized = omega (
      arith,
      h.sized,
      active_count-modify (take_slot pool.config requirement) p.0 pool.slots (λ s d. ground arith),
    );
  }
    where
      used : (take_slot pool.config requirement p.1).in_flight ≡ p.1.in_flight + 1
      used = ground arith

replace_place-IsSound :
    (now : ℕ) (o : Option (ℕ × Slot)) (pool : ProxyPool) (pending : ℕ)
    → ((p : ℕ × Slot) → o ≡ some p → get_elem? pool.slots p.0 ≡ some p.1)
    → IsSound pool pending
    → IsSound (replace_place now o pool) pending
unfolding replace_place
replace_place-IsSound now none pool pending there h = h
replace_place-IsSound now (some p) pool pending there h =
    mark_expired_and_cleanup-IsSound now _ pending (record {
      orderly =
          All-modify (IsOrderly pool.config) p.0 drain pool.slots p.1 (there p refl) (λ o. o)
            h.orderly;
      accounted = omega (
        arith,
        h.accounted,
        total-modify (λ s. s.in_flight) p.0 drain pool.slots p.1 (there p refl),
      );
      sized = omega (arith, h.sized, active_count-modify drain p.0 pool.slots (λ s d. refl));
    })

replace_ineligible_idle_slot-IsSound :
    (requirement : ProxyRequirements) (now : ℕ) (pool : ProxyPool) (pending : ℕ)
    → IsSound pool pending
    → IsSound (replace_ineligible_idle_slot requirement now pool) pending
unfolding replace_ineligible_idle_slot
replace_ineligible_idle_slot-IsSound requirement now pool pending h =
    replace_place-IsSound now (minimum expires_sooner candidates)
      (count_rejections
        (tally (λ s. is_idle s && is_short pool.config requirement now s) pool.slots) pool)
      pending
      (λ p found.
        (minimum-All (IsPlace test pool.slots) expires_sooner candidates p
          (places-IsPlace test pool.slots) found).0)
      (record { orderly = h.orderly; accounted = h.accounted; sized = h.sized })
  where
    test : Slot → Bool
    test = is_replaceable pool.config requirement now

    candidates : List (ℕ × Slot)
    candidates = places test pool.slots

-- What is asked of the supplier after a pass of the loop.
abbrev pub after_turn : Turn → ℕ → ℕ
after_turn turn pending = elim turn [ Turn.fetch n ↦ n | _ ↦ pending ]

ask-IsSound :
    (pool : ProxyPool) (pending : ℕ)
    → IsSound pool pending
    → IsSound (ask pool).1 (after_turn (ask pool).0 pending)
ask-IsSound pool pending h =
    elim (Bool-cases (not pool.fetching && ltb (active_count pool.slots) pool.config.pool_size)) [
      | inl asks ↦
          rw asks (record {
            orderly = h.orderly;
            accounted = h.accounted;
            sized = ground (arith, h.sized);
          })
      | inr waits ↦ rw waits h
    ]

-- The pool from which `ask_or_wait` decides.
replaced-IsSound :
    (requirement : ProxyRequirements) (now : ℕ) (pool : ProxyPool) (pending : ℕ)
    → IsSound pool pending
    → IsSound
        (if needs_replacement pool then replace_ineligible_idle_slot requirement now pool else pool)
        pending
replaced-IsSound requirement now pool pending h = elim (Bool-cases (needs_replacement pool)) [
  | inl full ↦ rw full (replace_ineligible_idle_slot-IsSound requirement now pool pending h)
  | inr room ↦ rw room h
]

ask_or_wait-IsSound :
    (requirement : ProxyRequirements) (now : ℕ) (pool : ProxyPool) (pending : ℕ)
    → IsSound pool pending
    → IsSound
        (ask_or_wait requirement now pool).1
        (after_turn (ask_or_wait requirement now pool).0 pending)
unfolding ask_or_wait
ask_or_wait-IsSound requirement now pool pending h =
    ask-IsSound _ pending (replaced-IsSound requirement now pool pending h)

lease_or_ask-IsSound :
    (requirement : ProxyRequirements) (now : ℕ) (found : Option (ℕ × Slot)) (pool : ProxyPool)
    (pending : ℕ)
    → ((p : ℕ × Slot)
        → found ≡ some p
        → IsPlace (is_candidate pool.config requirement now) pool.slots p)
    → IsSound pool pending
    → let turn = lease_or_ask requirement now found pool in
      IsSound turn.1 (after_turn turn.0 pending)
unfolding lease_or_ask
lease_or_ask-IsSound requirement now none pool pending place h =
    ask_or_wait-IsSound requirement now pool pending h
lease_or_ask-IsSound requirement now (some p) pool pending place h =
    lease-IsSound requirement now p pool pending (place p refl) h

pub get_requests_proxies-IsSound :
    (requirement : ProxyRequirements) (affinity : String) (now : ℕ) (pool : ProxyPool) (pending : ℕ)
    → IsSound pool pending
    → let turn = get_requests_proxies requirement affinity now pool in
      IsSound turn.1 (after_turn turn.0 pending)
unfolding get_requests_proxies
get_requests_proxies-IsSound requirement affinity now pool pending h =
    let selected = select_available_slot requirement affinity now pool in
    lease_or_ask-IsSound requirement now selected.0 selected.1 pending
      (select_available_slot-IsPlace requirement affinity now pool)
      (select_available_slot-IsSound requirement affinity now pool pending h)
