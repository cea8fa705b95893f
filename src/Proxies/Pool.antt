-- ===== src/Proxies/Pool.antt =====
-- AsyncDailiProxyPool of app/crawlers/proxy_provider.py. Its methods run under one condition
-- variable between two suspensions, and each such piece is one function: it takes the instant that
-- `time.monotonic` gives and returns the pool that it leaves. The context variables (requirements,
-- affinity, usage) are arguments. A reference to a slot is its place in the list of slots.
-- Instants are microseconds.
pub mod Capacity
pub mod Choice
pub mod Conservation
pub mod Filling
pub mod Leasing
pub mod Returns
use creator_engagement_proje.Base.{
  ℕ, zero, suc, ◌+◌, ◌-◌, ◌*◌, min, max, String, ◌≡◌, refl, Bool, true, false, not, ◌&&◌, ◌||◌,
  Option, none, some, List, [], ◌∷◌, ◌++◌, map, arith, ltb, leb, if◌then◌else◌, Key, ◌==◌,
  string_key, nat_key, pair_key, length, total, tally, select, contains, get_elem?, modify, places,
  minimum, is_none, first,
}
use creator_engagement_proje.Base.Dict.{Dict, lookup, insert}
use creator_engagement_proje.Proxies.Policy.{ProxyRequirements, ProxyFailure, FailureKind}

pub record ProxyEndpoint : Type 0 where
  pub host : String
  pub port : ℕ

-- The mapping that requests takes: one address for both schemes.
pub record ProxyMap : Type 0 where
  pub http : String
  pub https : String

pub record Slot : Type 0 where
  pub endpoint : ProxyEndpoint
  pub proxies : ProxyMap
  pub expire_at : ℕ
  pub in_flight : ℕ
  pub draining : Bool
  pub exclusive : Bool
  pub cooldown_until : ℕ
  pub platform_cooldowns : Dict String ℕ
  pub transport_errors : ℕ

pub record Stats : Type 0 where
  pub api_request_count : ℕ
  pub requested_endpoint_count : ℕ
  pub received_endpoint_count : ℕ
  pub added_endpoint_count : ℕ
  pub discarded_endpoint_count : ℕ
  pub expired_endpoint_count : ℕ
  pub lease_count : ℕ
  pub success_count : ℕ
  pub failure_count : ℕ
  pub max_in_flight : ℕ
  pub max_per_ip_in_flight : ℕ
  pub lifetime_rejections : ℕ
  pub ineligible_replacements : ℕ
  pub transport_cooldowns : ℕ
  pub platform_cooldowns : ℕ
  pub task_failures : ℕ
  pub min_remaining_at_lease : Option ℕ

pub record PoolConfig : Type 0 where
  pub minutes : ℕ
  pub refresh_before_seconds : ℕ
  pub pool_size : ℕ
  pub max_concurrency_per_proxy : ℕ
  pub lease_optimization_enabled : Bool
  pub refill_batch_size : ℕ
  -- f"http://{endpoint.host}:{endpoint.port}"
  pub proxy_url : ProxyEndpoint → String

pub record ProxyPool : Type 0 where
  pub config : PoolConfig
  pub slots : List Slot
  pub fetching : Bool
  pub stats : Stats
  pub affinity_slots : Dict String (String × ℕ)
  pub retired_until : Dict (String × ℕ) ℕ

abbrev pub seconds : ℕ → ℕ
seconds n = n * 1000000

abbrev pub identity : ProxyEndpoint → String × ℕ
identity e = (e.host, e.port)

abbrev pub or_zero : Option ℕ → ℕ
or_zero none = 0
or_zero (some n) = n

unfoldable pub slot_expire_at : PoolConfig → ℕ → ℕ
slot_expire_at config now =
    now + seconds (max 1 (config.minutes * 60 - config.refresh_before_seconds))

abbrev pub has_expired : ℕ → Slot → Bool
has_expired now slot = leb slot.expire_at now && not slot.draining

abbrev pub mark_expired : ℕ → Slot → Slot
mark_expired now slot = if has_expired now slot then record slot { draining = true } else slot

-- not (slot.draining and slot.in_flight == 0)
abbrev pub is_kept : Slot → Bool
is_kept slot = not (slot.draining && slot.in_flight == 0)

unfoldable pub mark_expired_and_cleanup : ℕ → ProxyPool → ProxyPool
mark_expired_and_cleanup now pool =
    let old = pool.stats in
    record pool {
      slots = select is_kept (map (mark_expired now) pool.slots);
      stats = record old {
        expired_endpoint_count = old.expired_endpoint_count + tally (has_expired now) pool.slots;
      };
      retired_until = select (λ e. ltb now e.1) pool.retired_until;
    }

-- What `_eligible` counts in lifetime_rejections.
abbrev pub is_short : PoolConfig → ProxyRequirements → ℕ → Slot → Bool
is_short config requirement now slot =
    config.lease_optimization_enabled
    && ltb slot.expire_at (now + seconds requirement.min_remaining_seconds)

unfoldable pub eligible : PoolConfig → ProxyRequirements → ℕ → Slot → Bool
eligible config requirement now slot =
    not config.lease_optimization_enabled
    || (not (is_short config requirement now slot)
        && not slot.exclusive
        && (not requirement.exclusive || slot.in_flight == 0)
        && leb slot.cooldown_until now
        && leb (or_zero (lookup requirement.platform slot.platform_cooldowns)) now)

-- The tests of `_select_available_slot` before `_eligible`, and all of them.
abbrev pub has_room : PoolConfig → Slot → Bool
has_room config slot = not slot.draining && ltb slot.in_flight config.max_concurrency_per_proxy

abbrev pub is_candidate : PoolConfig → ProxyRequirements → ℕ → Slot → Bool
is_candidate config requirement now slot =
    has_room config slot && eligible config requirement now slot

-- (a.in_flight, a.expire_at) < (b.in_flight, b.expire_at)
abbrev pub is_less_loaded : ℕ × Slot → ℕ × Slot → Bool
is_less_loaded a b =
    ltb a.1.in_flight b.1.in_flight
    || (a.1.in_flight == b.1.in_flight && ltb a.1.expire_at b.1.expire_at)

abbrev pub is_pinned : Option (String × ℕ) → ℕ × Slot → Bool
is_pinned none p = false
is_pinned (some pinned) p = identity p.1.endpoint == pinned

abbrev pub count_rejections : ℕ → ProxyPool → ProxyPool
count_rejections n pool =
    let old = pool.stats in
    record pool { stats = record old { lifetime_rejections = old.lifetime_rejections + n } }

abbrev pub Affinities : Type 0
Affinities = Dict String (String × ℕ)

abbrev pub pin : String → Option (ℕ × Slot) → Affinities → Affinities
pin affinity none affinities = affinities
pin affinity (some p) affinities = insert affinity (identity p.1.endpoint) affinities

-- The pinned slot that was found, or else the least loaded one, which is pinned.
abbrev pub or_least :
    String → List (ℕ × Slot) → Affinities → Option (ℕ × Slot) → Option (ℕ × Slot) × Affinities
or_least affinity candidates affinities (some p) = (some p, affinities)
or_least affinity candidates affinities none =
    let selected = minimum is_less_loaded candidates in (selected, pin affinity selected affinities)

unfoldable pub choose : String → List (ℕ × Slot) → Affinities → Option (ℕ × Slot) × Affinities
choose affinity candidates affinities =
    if affinity == "" || length candidates == 0
    then (minimum is_less_loaded candidates, affinities)
    else or_least affinity candidates affinities
        (first (is_pinned (lookup affinity affinities)) candidates)

unfoldable pub select_available_slot :
    ProxyRequirements → String → ℕ → ProxyPool → Option (ℕ × Slot) × ProxyPool
unfolding mark_expired_and_cleanup eligible choose
select_available_slot requirement affinity now pool =
    let pool' = mark_expired_and_cleanup now pool in
    let config = pool'.config in
    let chosen =
      choose affinity (places (is_candidate config requirement now) pool'.slots)
        pool'.affinity_slots in
    let pool'' =
      count_rejections
        (tally (λ s. has_room config s && is_short config requirement now s) pool'.slots) pool' in
    (chosen.0, record pool'' { affinity_slots = chosen.1 })

abbrev pub in_use : List Slot → ℕ
in_use slots = total (λ s. s.in_flight) slots

abbrev pub active_count : List Slot → ℕ
active_count slots = tally (λ s. not s.draining) slots

abbrev pub drain : Slot → Slot
drain slot = record slot { draining = true }

abbrev pub retire : ℕ → Slot → ProxyPool → ProxyPool
retire now slot pool = record pool {
  retired_until =
      insert (identity slot.endpoint)
        (max (slot.expire_at + seconds pool.config.refresh_before_seconds) (now + seconds 30))
        pool.retired_until;
}

unfoldable pub new_pool : PoolConfig → ProxyPool
new_pool config = record {
  config = config;
  slots = [];
  fetching = false;
  stats = record {
    api_request_count = 0;
    requested_endpoint_count = 0;
    received_endpoint_count = 0;
    added_endpoint_count = 0;
    discarded_endpoint_count = 0;
    expired_endpoint_count = 0;
    lease_count = 0;
    success_count = 0;
    failure_count = 0;
    max_in_flight = 0;
    max_per_ip_in_flight = 0;
    lifetime_rejections = 0;
    ineligible_replacements = 0;
    transport_cooldowns = 0;
    platform_cooldowns = 0;
    task_failures = 0;
    min_remaining_at_lease = none;
  };
  affinity_slots = [];
  retired_until = [];
}
