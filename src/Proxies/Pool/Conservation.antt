-- ===== src/Proxies/Pool/Conservation.antt =====
-- Returned proxies, and sequences of what borrowers and the supplier do: no lease is lost count of.
use creator_engagement_proje.Base.{
  ℕ, ◌+◌, ◌-◌, String, ◌≡◌, refl, true, Option, none, some, List, arith, total-modify,
  get_elem?-modify, All-modify, IsPlace, places-IsPlace, first-All, Bool-cases, inl, inr, subst,
  ◌∙◌, ◌≤◌, ◌<◌, string_key, nat_key, pair_key, length, get_elem?, modify, places,
}
use creator_engagement_proje.Proxies.Policy.{ProxyRequirements, ProxyFailure}
use creator_engagement_proje.Proxies.Pool.{
  ProxyEndpoint, ProxyMap, Slot, Stats, PoolConfig, ProxyPool, new_pool, drain,
}
use creator_engagement_proje.Proxies.Pool.Leasing.{get_requests_proxies, refill, end_refill}
use creator_engagement_proje.Proxies.Pool.Returns.{
  find_slot, map_same, on_success_for, on_failure_for, succeed, fail_slot, fail_stats, discard,
  count_discard, is_spared,
}
use creator_engagement_proje.Proxies.Pool.Capacity.{
  IsOrderly, IsSound, mark_expired_and_cleanup-IsSound, active_count-modify,
  get_requests_proxies-IsSound, after_turn,
}
use creator_engagement_proje.Proxies.Pool.Filling.{refill-IsSound, end_refill-IsSound}

find_slot-get_elem? :
    (proxies : ProxyMap) (slots : List Slot) (p : ℕ × Slot)
    → find_slot proxies slots ≡ some p
    → get_elem? slots p.0 ≡ some p.1
unfolding find_slot
find_slot-get_elem? proxies slots p found =
    (first-All (IsPlace (λ s. true) slots) (λ p. map_same p.1.proxies proxies)
      (places (λ s. true) slots) p (places-IsPlace (λ s. true) slots) found).0

-- The returned proxy is lent by the slot that is found for it, if there is one.
abbrev pub IsLent : Option (ℕ × Slot) → Type 0
IsLent none = Unit
IsLent (some p) = 0 < p.1.in_flight

succeed-IsOrderly :
    (config : PoolConfig) (now : ℕ) (s : Slot)
    → IsOrderly config s
    → IsOrderly config (succeed config now s)
succeed-IsOrderly config now s o = ground (arith, nat_key.same_iff (s.in_flight - 1) 0)

-- A change of the slot at one place that returns a request: the slot stays orderly and draining,
-- and the pool counts the return.
returned-IsSound :
    (f : Slot → Slot) (p : ℕ × Slot) (pool : ProxyPool) (stats' : Stats) (pending : ℕ)
    → get_elem? pool.slots p.0 ≡ some p.1
    → 0 < p.1.in_flight
    → (IsOrderly pool.config p.1 → IsOrderly pool.config (f p.1))
    → (f p.1).in_flight ≡ p.1.in_flight - 1
    → ((s : Slot) → s.draining ≡ true → (f s).draining ≡ true)
    → stats'.success_count + stats'.failure_count
      ≡ pool.stats.success_count + pool.stats.failure_count + 1
    → stats'.lease_count ≡ pool.stats.lease_count
    → IsSound pool pending
    → IsSound (record pool { slots = modify p.0 f pool.slots; stats = stats' }) pending
returned-IsSound f p pool stats' pending there some_lent keeps fewer drains counted same h =
    record {
      orderly = All-modify (IsOrderly pool.config) p.0 f pool.slots p.1 there keeps h.orderly;
      accounted =
          omega (arith, h.accounted, total-modify (λ s. s.in_flight) p.0 f pool.slots p.1 there);
      sized = omega (arith, h.sized, active_count-modify f p.0 pool.slots drains);
    }

module _ (now : ℕ) (proxies : ProxyMap) (pool : ProxyPool) (pending : ℕ) where
  on_success_for-IsSound :
      IsLent (find_slot proxies pool.slots)
      → IsSound pool pending
      → IsSound (on_success_for now (some proxies) pool) pending
  unfolding on_success_for
  on_success_for-IsSound lent h = go (find_slot proxies pool.slots) refl
    where
      go :
          (o : Option (ℕ × Slot))
          → find_slot proxies pool.slots ≡ o
          → IsSound (on_success_for now (some proxies) pool) pending
      go none e = rw (e, on_success_for) h
      go (some p) e =
          rw (e, on_success_for)
            (mark_expired_and_cleanup-IsSound now _ pending (
              returned-IsSound (succeed pool.config now) p pool _ pending
                (find_slot-get_elem? proxies pool.slots p e) (subst IsLent e lent)
                (succeed-IsOrderly pool.config now p.1) (ground arith) (λ s d. ground arith)
                (omega arith) refl h))

-- The counters that `count_discard` leaves as they are.
count_discard-counts :
    (slot : Slot) (old : Stats)
    → ((count_discard slot old).success_count ≡ old.success_count)
      × ((count_discard slot old).failure_count ≡ old.failure_count)
      × ((count_discard slot old).lease_count ≡ old.lease_count)
count_discard-counts slot old = (ground arith, ground arith, ground arith)

fail_stats-counts :
    (config : PoolConfig) (failure : Option ProxyFailure) (old : Stats)
    → ((fail_stats config failure old).success_count ≡ old.success_count)
      × ((fail_stats config failure old).failure_count ≡ old.failure_count + 1)
      × ((fail_stats config failure old).lease_count ≡ old.lease_count)
fail_stats-counts config none old = (refl, refl, refl)
fail_stats-counts config (some failure) old = (ground arith, ground arith, ground arith)

fail_slot-IsOrderly :
    (config : PoolConfig) (now : ℕ) (failure : Option ProxyFailure) (s : Slot)
    → IsOrderly config s
    → IsOrderly config (fail_slot config now failure s)
fail_slot-IsOrderly config now none s o = ground (arith, nat_key.same_iff (s.in_flight - 1) 0)
fail_slot-IsOrderly config now (some failure) s o =
    ground (arith, nat_key.same_iff (s.in_flight - 1) 0)

fail_slot-counts :
    (config : PoolConfig) (now : ℕ) (failure : Option ProxyFailure) (s : Slot)
    → ((fail_slot config now failure s).in_flight ≡ s.in_flight - 1)
      × ((fail_slot config now failure s).draining ≡ s.draining)
fail_slot-counts config now none s = (refl, refl)
fail_slot-counts config now (some failure) s = (ground arith, ground arith)

discard-IsSound :
    (now : ℕ) (p : ℕ × Slot) (pool : ProxyPool) (pending : ℕ)
    → get_elem? pool.slots p.0 ≡ some p.1
    → IsSound pool pending
    → IsSound (discard now p pool) pending
discard-IsSound now p pool pending there h = record {
  orderly = All-modify (IsOrderly pool.config) p.0 drain pool.slots p.1 there (λ o. o) h.orderly;
  accounted = omega (
    arith,
    h.accounted,
    total-modify (λ s. s.in_flight) p.0 drain pool.slots p.1 there,
    count_discard-counts p.1 pool.stats,
  );
  sized = omega (arith, h.sized, active_count-modify drain p.0 pool.slots (λ s d. refl));
}

module _ (now : ℕ) (proxies : ProxyMap) (failure : Option ProxyFailure) (pool : ProxyPool)
    (pending : ℕ) where
  on_failure_for-IsSound :
      IsLent (find_slot proxies pool.slots)
      → IsSound pool pending
      → IsSound (on_failure_for now (some proxies) failure pool) pending
  unfolding on_failure_for
  on_failure_for-IsSound lent h = go (find_slot proxies pool.slots) refl
    where
      f : Slot → Slot
      f = fail_slot pool.config now failure

      failed : ℕ × Slot → ProxyPool
      failed p = record pool {
        slots = modify p.0 f pool.slots;
        stats = fail_stats pool.config failure pool.stats;
      }

      failed_sound :
          (p : ℕ × Slot) → find_slot proxies pool.slots ≡ some p → IsSound (failed p) pending
      failed_sound p e =
          returned-IsSound f p pool (fail_stats pool.config failure pool.stats) pending
            (find_slot-get_elem? proxies pool.slots p e) (subst IsLent e lent)
            (fail_slot-IsOrderly pool.config now failure p.1)
            (fail_slot-counts pool.config now failure p.1).0
            (λ s d. (fail_slot-counts pool.config now failure s).1 ∙ d)
            (omega (arith, fail_stats-counts pool.config failure pool.stats))
            (fail_stats-counts pool.config failure pool.stats).2 h

      go :
          (o : Option (ℕ × Slot))
          → find_slot proxies pool.slots ≡ o
          → IsSound (on_failure_for now (some proxies) failure pool) pending
      go none e = rw (e, on_failure_for) h
      go (some p) e = elim (Bool-cases (is_spared pool.config failure (f p.1))) [
        | inl spared ↦
            rw (e, on_failure_for, spared)
              (mark_expired_and_cleanup-IsSound now (failed p) pending (failed_sound p e))
        | inr dropped ↦
            rw (e, on_failure_for, dropped)
              (mark_expired_and_cleanup-IsSound now (discard now (p.0, f p.1) (failed p)) pending (
                discard-IsSound now (p.0, f p.1) (failed p) pending
                  (get_elem?-modify p.0 f pool.slots p.1
                    (find_slot-get_elem? proxies pool.slots p e))
                  (failed_sound p e)))
      ]

-- What happens to a pool, and how many endpoints a running call of the supplier may still give: a
-- borrower passes the loop, the supplier answers with at most as many endpoints as it was asked
-- for, its call ends, and a borrower returns a proxy that is lent or unknown.
pub data Steps (config : PoolConfig) : ProxyPool → ℕ → Type 0 where
  opened : Steps config (new_pool config) 0
  request :
      {pool : ProxyPool} {pending : ℕ} (requirement : ProxyRequirements) (affinity : String)
      (now : ℕ)
      → Steps config pool pending
      → Steps config
          (get_requests_proxies requirement affinity now pool).1
          (after_turn (get_requests_proxies requirement affinity now pool).0 pending)
  answered :
      {pool : ProxyPool} {pending : ℕ} (requirement : ProxyRequirements) (affinity : String)
      (started now count : ℕ) (endpoints : List (ProxyEndpoint × ℕ))
      → pool.fetching ≡ true
      → length endpoints ≤ pending
      → Steps config pool pending
      → Steps config (refill requirement affinity started now count endpoints pool).2 0
  call_ended :
      {pool : ProxyPool} {pending : ℕ}
      → Steps config pool pending
      → Steps config (end_refill pool) 0
  succeeded :
      {pool : ProxyPool} {pending : ℕ} (now : ℕ) (proxies : ProxyMap)
      → IsLent (find_slot proxies pool.slots)
      → Steps config pool pending
      → Steps config (on_success_for now (some proxies) pool) pending
  did_fail :
      {pool : ProxyPool} {pending : ℕ} (now : ℕ) (proxies : ProxyMap)
      (failure : Option ProxyFailure)
      → IsLent (find_slot proxies pool.slots)
      → Steps config pool pending
      → Steps config (on_failure_for now (some proxies) failure pool) pending

new_pool-IsSound : (config : PoolConfig) → IsSound (new_pool config) 0
unfolding new_pool
new_pool-IsSound config = record { orderly = tt; accounted = refl; sized = omega arith }

-- In every pool that a new pool comes to, whatever sequence of requests, answers of the supplier
-- and returns there was: no slot has more requests than the limit, an exclusively lent slot has at
-- most one and there is none outside the optimized mode; the leases made are the successes and
-- failures returned and the requests in flight; and the slots that take requests, with the
-- endpoints that a running call may still give, are at most `pool_size`. The supplier is taken to
-- give at most as many endpoints as it was asked for, and a returned proxy to be lent or unknown.
pub Steps-IsSound :
    {config : PoolConfig} {pool : ProxyPool} {pending : ℕ}
    → Steps config pool pending
    → IsSound pool pending
Steps-IsSound {config} opened = new_pool-IsSound config
Steps-IsSound (request {pool} {pending} requirement affinity now steps) =
    get_requests_proxies-IsSound requirement affinity now pool pending (Steps-IsSound steps)
Steps-IsSound
      (answered {pool} {pending} requirement affinity started now count endpoints on few steps) =
    refill-IsSound requirement affinity started now count endpoints pool pending on few
      (Steps-IsSound steps)
Steps-IsSound (call_ended {pool} {pending} steps) =
    end_refill-IsSound pool pending (Steps-IsSound steps)
Steps-IsSound (succeeded {pool} {pending} now proxies lent steps) =
    on_success_for-IsSound now proxies pool pending lent (Steps-IsSound steps)
Steps-IsSound (did_fail {pool} {pending} now proxies failure lent steps) =
    on_failure_for-IsSound now proxies failure pool pending lent (Steps-IsSound steps)
