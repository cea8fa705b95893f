-- ===== src/Proxies/Pool/Filling.antt =====
-- What the supplier's endpoints do to the room in the pool.
use creator_engagement_proje.Base.{
  ℕ, suc, ◌+◌, String, ◌≡◌, refl, true, not, ◌||◌, List, [], ◌∷◌, arith, All-append_one, Bool-cases,
  inl, inr, ◌≤◌, total-append, tally-append, ◌==◌, string_key, nat_key, pair_key, length,
}
use creator_engagement_proje.Proxies.Policy.{ProxyRequirements}
use creator_engagement_proje.Proxies.Pool.{ProxyEndpoint, Slot, ProxyPool, active_count}
use creator_engagement_proje.Proxies.Pool.Leasing.{
  add_endpoints, append_slot, new_slot, is_held, is_retired, refill, end_refill, count_fetch,
}
use creator_engagement_proje.Proxies.Pool.Capacity.{
  IsOrderly, expected, IsSound, select_available_slot-IsSound,
}

append_slot-IsSound :
    (slot : Slot) (pool : ProxyPool) (pending : ℕ)
    → IsOrderly pool.config slot
    → slot.in_flight ≡ 0
    → suc (active_count pool.slots + expected pool pending) ≤ pool.config.pool_size
    → IsSound pool pending
    → IsSound (append_slot slot pool) pending
append_slot-IsSound slot pool pending o unused room h = record {
  orderly = All-append_one (IsOrderly pool.config) pool.slots slot h.orderly o;
  accounted = omega (arith, h.accounted, total-append (λ s. s.in_flight) pool.slots (slot ∷ []));
  sized = ground (arith, room, tally-append (λ s. not s.draining) pool.slots (slot ∷ []));
}

add_endpoints-IsSound :
    (started now : ℕ) (endpoints : List (ProxyEndpoint × ℕ)) (pool : ProxyPool) (pending : ℕ)
    → active_count pool.slots + expected pool pending + length endpoints ≤ pool.config.pool_size
    → IsSound pool pending
    → IsSound (add_endpoints started now endpoints pool).1 pending
unfolding add_endpoints
add_endpoints-IsSound started now [] pool pending room h = h
add_endpoints-IsSound started now ((e, jitter) ∷ others) pool pending room h =
    elim (Bool-cases (is_held e pool.slots || is_retired now e pool)) [
      | inl skip ↦ rw skip (add_endpoints-IsSound started now others pool pending (omega arith) h)
      | inr fresh ↦
          let slot = new_slot pool.config started now jitter e in
          rw fresh (
            add_endpoints-IsSound started now others (append_slot slot pool) pending
              (ground (arith, room, tally-append (λ s. not s.draining) pool.slots (slot ∷ [])))
              (append_slot-IsSound slot pool pending (ground arith) refl (omega arith) h))
    ]

-- A running call of the supplier for `pending` endpoints ends with at most as many.
pub refill-IsSound :
    (requirement : ProxyRequirements) (affinity : String) (started now count : ℕ)
    (endpoints : List (ProxyEndpoint × ℕ)) (pool : ProxyPool) (pending : ℕ)
    → pool.fetching ≡ true
    → length endpoints ≤ pending
    → IsSound pool pending
    → IsSound (refill requirement affinity started now count endpoints pool).2 0
unfolding refill
refill-IsSound requirement affinity started now count endpoints pool pending on few h =
    elim (Bool-cases (filled.0 == 0 || pool.config.lease_optimization_enabled)) [
      | inl asks ↦
          rw asks (select_available_slot-IsSound requirement affinity now filled.1 0 filled_sound)
      | inr rich ↦ rw rich filled_sound
    ]
  where
    counted : ProxyPool
    counted = record pool { stats = count_fetch count (length endpoints) pool.stats }

    filled : ℕ × ProxyPool
    filled = add_endpoints started now endpoints counted

    filled_sound : IsSound filled.1 0
    filled_sound =
        add_endpoints-IsSound started now endpoints counted 0 (ground (arith, h.sized))
          (record { orderly = h.orderly; accounted = h.accounted; sized = ground (arith, h.sized) })

pub end_refill-IsSound :
    (pool : ProxyPool) (pending : ℕ) → IsSound pool pending → IsSound (end_refill pool) 0
unfolding end_refill
end_refill-IsSound pool pending h = record {
  orderly = h.orderly;
  accounted = h.accounted;
  sized = ground (arith, h.sized);
}
