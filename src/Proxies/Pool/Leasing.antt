-- ===== src/Proxies/Pool/Leasing.antt =====
-- `_replace_ineligible_idle_slot` and the loop of `get_requests_proxies`: a pass of the loop up to
-- its return, its wait or its call of the supplier, and what it does with the supplier's endpoints.
use creator_engagement_proje.Base.{
  ℕ, suc, ◌+◌, ◌-◌, ◌*◌, min, max, String, Bool, true, false, not, ◌&&◌, ◌||◌, Option, none, some,
  List, [], ◌∷◌, ◌++◌, map, ltb, leb, if◌then◌else◌, ◌==◌, string_key, nat_key, pair_key, length,
  tally, contains, modify, places, minimum, is_none,
}
use creator_engagement_proje.Base.Dict.{lookup}
use creator_engagement_proje.Proxies.Policy.{ProxyRequirements}
use creator_engagement_proje.Proxies.Pool.{
  ProxyEndpoint, ProxyMap, Slot, Stats, PoolConfig, ProxyPool, seconds, identity, or_zero,
  slot_expire_at, mark_expired_and_cleanup, is_short, eligible, count_rejections,
  select_available_slot, drain, retire, in_use, active_count,
}

abbrev pub is_idle : Slot → Bool
is_idle slot = not slot.draining && slot.in_flight == 0

abbrev pub expires_sooner : ℕ × Slot → ℕ × Slot → Bool
expires_sooner a b = ltb a.1.expire_at b.1.expire_at

unfoldable pub replace_place : ℕ → Option (ℕ × Slot) → ProxyPool → ProxyPool
unfolding mark_expired_and_cleanup
replace_place now none pool = pool
replace_place now (some p) pool =
    let old = pool.stats in
    mark_expired_and_cleanup now (
      retire now p.1 (record pool {
        slots = modify p.0 drain pool.slots;
        stats = record old { ineligible_replacements = old.ineligible_replacements + 1 };
      }))

unfoldable pub is_replaceable : PoolConfig → ProxyRequirements → ℕ → Slot → Bool
unfolding eligible
is_replaceable config requirement now slot =
    is_idle slot && not (eligible config requirement now slot)

unfoldable pub replace_ineligible_idle_slot : ProxyRequirements → ℕ → ProxyPool → ProxyPool
unfolding is_replaceable replace_place
replace_ineligible_idle_slot requirement now pool =
    replace_place now
      (minimum expires_sooner (places (is_replaceable pool.config requirement now) pool.slots))
      (count_rejections
        (tally (λ s. is_idle s && is_short pool.config requirement now s) pool.slots) pool)

-- What a pass of the loop of `get_requests_proxies` comes to.
pub data Turn : Type 0 where
  leased : ProxyMap → Turn
  -- Leave the lock and ask the supplier for as many endpoints.
  fetch : ℕ → Turn
  wait : Turn

abbrev pub min_optional : Option ℕ → ℕ → ℕ
min_optional none n = n
min_optional (some m) n = min m n

abbrev pub take_slot : PoolConfig → ProxyRequirements → Slot → Slot
take_slot config requirement slot =
    if config.lease_optimization_enabled
    then record slot { in_flight = slot.in_flight + 1; exclusive = requirement.exclusive }
    else record slot { in_flight = slot.in_flight + 1 }

abbrev pub count_lease : PoolConfig → ℕ → Slot → ℕ → Stats → Stats
count_lease config now slot used old =
    let optimized = config.lease_optimization_enabled in
    record old {
      min_remaining_at_lease =
          if optimized
          then some (min_optional old.min_remaining_at_lease (slot.expire_at - now))
          else old.min_remaining_at_lease;
      max_per_ip_in_flight =
          if optimized
          then max old.max_per_ip_in_flight (slot.in_flight + 1)
          else old.max_per_ip_in_flight;
      lease_count = old.lease_count + 1;
      max_in_flight = max old.max_in_flight used;
    }

unfoldable pub lease : ProxyRequirements → ℕ → ℕ × Slot → ProxyPool → ProxyPool
lease requirement now p pool =
    let slots' = modify p.0 (take_slot pool.config requirement) pool.slots in
    record pool {
      slots = slots';
      stats = count_lease pool.config now p.1 (in_use slots') pool.stats;
    }

abbrev pub fetch_count : PoolConfig → ℕ → ℕ
fetch_count config active =
    let missing = config.pool_size - active in
    if config.lease_optimization_enabled then min missing config.refill_batch_size else missing

abbrev pub needs_replacement : ProxyPool → Bool
needs_replacement pool =
    pool.config.lease_optimization_enabled
    && not pool.fetching
    && leb pool.config.pool_size (active_count pool.slots)

-- Becoming the one that fills the pool, or waiting.
abbrev pub ask : ProxyPool → Turn × ProxyPool
ask pool =
    let active = active_count pool.slots in
    if not pool.fetching && ltb active pool.config.pool_size
    then (fetch (fetch_count pool.config active), record pool { fetching = true })
    else (wait, pool)

-- After no slot was found.
unfoldable pub ask_or_wait : ProxyRequirements → ℕ → ProxyPool → Turn × ProxyPool
unfolding replace_ineligible_idle_slot
ask_or_wait requirement now pool =
    ask (if needs_replacement pool then replace_ineligible_idle_slot requirement now pool else pool)

unfoldable pub lease_or_ask :
    ProxyRequirements → ℕ → Option (ℕ × Slot) → ProxyPool → Turn × ProxyPool
unfolding lease ask_or_wait
lease_or_ask requirement now (some p) pool = (leased p.1.proxies, lease requirement now p pool)
lease_or_ask requirement now none pool = ask_or_wait requirement now pool

unfoldable pub get_requests_proxies : ProxyRequirements → String → ℕ → ProxyPool → Turn × ProxyPool
unfolding select_available_slot lease_or_ask
get_requests_proxies requirement affinity now pool =
    let selected = select_available_slot requirement affinity now pool in
    lease_or_ask requirement now selected.0 selected.1

abbrev pub expiry_of : PoolConfig → ℕ → ℕ → ℕ → ℕ
expiry_of config started now jitter =
    if config.lease_optimization_enabled
    then min (slot_expire_at config now)
        (started + seconds (config.minutes * 60) - seconds config.refresh_before_seconds)
      - jitter
    else slot_expire_at config now

-- `jitter` is what random.uniform(0, 5) draws.
abbrev pub new_slot : PoolConfig → ℕ → ℕ → ℕ → ProxyEndpoint → Slot
new_slot config started now jitter endpoint = record {
  endpoint = endpoint;
  proxies = record { http = config.proxy_url endpoint; https = config.proxy_url endpoint };
  expire_at = expiry_of config started now jitter;
  in_flight = 0;
  draining = false;
  exclusive = false;
  cooldown_until = 0;
  platform_cooldowns = [];
  transport_errors = 0;
}

abbrev pub is_retired : ℕ → ProxyEndpoint → ProxyPool → Bool
is_retired now endpoint pool =
    pool.config.lease_optimization_enabled
    && ltb now (or_zero (lookup (identity endpoint) pool.retired_until))

-- `identity in existing`: the slots already include those that this loop added.
abbrev pub is_held : ProxyEndpoint → List Slot → Bool
is_held endpoint slots = contains (map (λ s. identity s.endpoint) slots) (identity endpoint)

abbrev pub append_slot : Slot → ProxyPool → ProxyPool
append_slot slot pool =
    let old = pool.stats in
    record pool {
      slots = pool.slots ++ slot ∷ [];
      stats = record old { added_endpoint_count = old.added_endpoint_count + 1 };
    }

-- The loop over the endpoints, each with its draw, with the number of those added.
unfoldable pub add_endpoints : ℕ → ℕ → List (ProxyEndpoint × ℕ) → ProxyPool → ℕ × ProxyPool
unfolding slot_expire_at
add_endpoints started now [] pool = (0, pool)
add_endpoints started now ((endpoint, jitter) ∷ others) pool =
    let skipped = add_endpoints started now others pool in
    let rest =
      add_endpoints started now others
        (append_slot (new_slot pool.config started now jitter endpoint) pool) in
    if is_held endpoint pool.slots || is_retired now endpoint pool
    then skipped
    else (suc rest.0, rest.1)

-- The counters of `_fetch_proxy_endpoints_async`, for a call that gives `received` endpoints.
abbrev pub count_fetch : ℕ → ℕ → Stats → Stats
count_fetch count received old = record old {
  api_request_count = old.api_request_count + 1;
  requested_endpoint_count = old.requested_endpoint_count + count;
  received_endpoint_count = old.received_endpoint_count + received;
}

pub data Refilled : Type 0 where
  -- The loop goes on.
  again : Refilled
  -- The call returns None.
  gave_up : Refilled

abbrev pub settle_refill : PoolConfig → ℕ → Option (ℕ × Slot) → Refilled
settle_refill config added found =
    if is_none found && (added == 0 || config.lease_optimization_enabled) then gave_up else again

-- The supplier's answer: the verdict, the endpoints added (which a usage scope counts), and the
-- pool. `_select_available_slot` runs if its answer is asked for.
unfoldable pub refill :
    ProxyRequirements
    → String
    → ℕ
    → ℕ
    → ℕ
    → List (ProxyEndpoint × ℕ)
    → ProxyPool
    → Refilled × ℕ × ProxyPool
unfolding add_endpoints select_available_slot
refill requirement affinity started now count endpoints pool =
    let filled =
      add_endpoints started now endpoints
        (record pool { stats = count_fetch count (length endpoints) pool.stats }) in
    let found = select_available_slot requirement affinity now filled.1 in
    if filled.0 == 0 || pool.config.lease_optimization_enabled
    then (settle_refill pool.config filled.0 found.0, filled.0, found.1)
    else (again, filled.0, filled.1)

-- The `finally`, which also follows a call of the supplier that was cancelled.
unfoldable pub end_refill : ProxyPool → ProxyPool
end_refill pool = record pool { fetching = false }
