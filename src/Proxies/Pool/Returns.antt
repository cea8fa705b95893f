-- ===== src/Proxies/Pool/Returns.antt =====
-- `_find_slot`, `remaining_seconds`, `on_success_for` and `on_failure_for`: a borrower returns its
-- proxy.
use creator_engagement_proje.Base.{
  ℕ, ◌+◌, ◌-◌, Bool, true, false, not, ◌&&◌, Option, none, some, List, ltb, leb, if◌then◌else◌,
  ◌==◌, string_key, nat_key, pair_key, modify, places, is_none, first,
}
use creator_engagement_proje.Base.Dict.{insert}
use creator_engagement_proje.Proxies.Policy.{ProxyFailure, FailureKind}
use creator_engagement_proje.Proxies.Pool.{
  ProxyMap, Slot, Stats, PoolConfig, ProxyPool, seconds, mark_expired_and_cleanup, drain, retire,
}

abbrev pub map_same : ProxyMap → ProxyMap → Bool
map_same a b = a.http == b.http && a.https == b.https

unfoldable pub find_slot : ProxyMap → List Slot → Option (ℕ × Slot)
find_slot proxies slots = first (λ p. map_same p.1.proxies proxies) (places (λ s. true) slots)

abbrev pub remaining_of : ℕ → Option (ℕ × Slot) → ℕ
remaining_of now none = 0
remaining_of now (some p) = p.1.expire_at - now

unfoldable pub remaining_seconds : ℕ → ProxyMap → ProxyPool → ℕ
unfolding find_slot
remaining_seconds now proxies pool = remaining_of now (find_slot proxies pool.slots)

-- One request fewer in flight; the last one ends an exclusive lease.
abbrev pub give_back : Slot → Slot
give_back slot = record slot {
  in_flight = slot.in_flight - 1;
  exclusive = if slot.in_flight - 1 == 0 then false else slot.exclusive;
}

abbrev pub forgive : PoolConfig → ℕ → Slot → Slot
forgive config now slot =
    if config.lease_optimization_enabled && leb slot.cooldown_until now
    then record slot { transport_errors = slot.transport_errors - 1 }
    else slot

abbrev pub succeed : PoolConfig → ℕ → Slot → Slot
succeed config now slot = forgive config now (give_back slot)

unfoldable pub on_success_for : ℕ → Option ProxyMap → ProxyPool → ProxyPool
unfolding find_slot
on_success_for now none pool = pool
on_success_for now (some proxies) pool = elim (find_slot proxies pool.slots) [
  | none ↦ pool
  | some p ↦
      let old = pool.stats in
      mark_expired_and_cleanup now (record pool {
        slots = modify p.0 (succeed pool.config now) pool.slots;
        stats = record old { success_count = old.success_count + 1 };
      })
]

-- What a ProxyFailure does to its slot, in the optimized mode.
abbrev pub cool : ℕ → ProxyFailure → Slot → Slot
cool now failure slot = elim failure.kind [
  | FailureKind.task ↦ slot
  | FailureKind.platform ↦ record slot {
    platform_cooldowns = insert failure.platform (now + seconds 30) slot.platform_cooldowns;
  }
  | FailureKind.transport ↦ record slot {
    transport_errors = slot.transport_errors + 1;
    cooldown_until = now + seconds 15;
  }
]

abbrev pub count_failure : ProxyFailure → Stats → Stats
count_failure failure old = elim failure.kind [
  | FailureKind.task ↦ record old { task_failures = old.task_failures + 1 }
  | FailureKind.platform ↦ record old { platform_cooldowns = old.platform_cooldowns + 1 }
  | FailureKind.transport ↦ record old { transport_cooldowns = old.transport_cooldowns + 1 }
]

abbrev pub count_discard : Slot → Stats → Stats
count_discard slot old =
    if slot.draining
    then old
    else record old { discarded_endpoint_count = old.discarded_endpoint_count + 1 }

-- The end of `on_failure_for`: the slot at the place gets no more requests.
abbrev pub discard : ℕ → ℕ × Slot → ProxyPool → ProxyPool
discard now p pool = record pool {
  slots = modify p.0 drain pool.slots;
  stats = count_discard p.1 pool.stats;
  retired_until =
      if not p.1.draining && pool.config.lease_optimization_enabled
      then (retire now p.1 pool).retired_until
      else pool.retired_until;
}

-- `failure` is none for an exception that is no ProxyFailure.
abbrev pub fail_slot : PoolConfig → ℕ → Option ProxyFailure → Slot → Slot
fail_slot config now none slot = give_back slot
fail_slot config now (some failure) slot =
    if config.lease_optimization_enabled then cool now failure (give_back slot) else give_back slot

abbrev pub fail_stats : PoolConfig → Option ProxyFailure → Stats → Stats
fail_stats config none old = record old { failure_count = old.failure_count + 1 }
fail_stats config (some failure) old =
    let counted = record old { failure_count = old.failure_count + 1 } in
    if config.lease_optimization_enabled then count_failure failure counted else counted

-- Whether the slot may go on: a ProxyFailure, in the optimized mode, with fewer than 3 errors.
abbrev pub is_spared : PoolConfig → Option ProxyFailure → Slot → Bool
is_spared config failure slot =
    config.lease_optimization_enabled && not (is_none failure) && ltb slot.transport_errors 3

unfoldable pub on_failure_for : ℕ → Option ProxyMap → Option ProxyFailure → ProxyPool → ProxyPool
unfolding find_slot
on_failure_for now none failure pool = pool
on_failure_for now (some proxies) failure pool = elim (find_slot proxies pool.slots) [
  | none ↦ pool
  | some p ↦
      let slot = fail_slot pool.config now failure p.1 in
      let pool' = record pool {
        slots = modify p.0 (fail_slot pool.config now failure) pool.slots;
        stats = fail_stats pool.config failure pool.stats;
      } in
      mark_expired_and_cleanup now
        (if is_spared pool.config failure slot then pool' else discard now (p.0, slot) pool')
]
