-- ===== src/Proxies/Tests.antt =====
-- Runs of the proxy pool (app/crawlers/proxy_provider.py).
use creator_engagement_proje.Base.{
  ◌⊎◌, ℕ, ◌<◌, ◌≤◌, ◌+◌, ◌-◌, ◌*◌, ◌≡◌, refl, true, false, none, some, List, [], ◌∷◌, arith,
  get_elem?,
}
use creator_engagement_proje.Base.Dict.{lookup}
use creator_engagement_proje.Proxies.Pace.{acquire_all, starts_within, acquire_all-starts_within}
use creator_engagement_proje.Proxies.Policy.{ProxyRequirements}
use creator_engagement_proje.Proxies.Single
use creator_engagement_proje.Proxies.Single.{
  Provider, build_proxies, get_proxies, is_current_proxy_valid, get_proxies-reuse,
}
use creator_engagement_proje.Proxies.Pool.{
  ProxyEndpoint, ProxyMap, PoolConfig, ProxyPool, Slot, new_pool, select_available_slot,
  slot_expire_at,
}
use creator_engagement_proje.Proxies.Pool.Leasing.{get_requests_proxies, refill, end_refill}
use creator_engagement_proje.Proxies.Pool.Returns.{find_slot, on_success_for}
use creator_engagement_proje.Proxies.Pool.Capacity.{IsSound}
use creator_engagement_proje.Proxies.Pool.Choice.{Meets, select_available_slot-Meets}
use creator_engagement_proje.Proxies.Pool.Conservation.{
  opened, request, answered, call_ended, succeeded, Steps-IsSound,
}

abbrev config : PoolConfig
config = record {
  minutes = 3;
  refresh_before_seconds = 10;
  pool_size = 2;
  max_concurrency_per_proxy = 2;
  lease_optimization_enabled = true;
  refill_batch_size = 2;
  proxy_url = λ e. e.host;
}

abbrev requirement : ProxyRequirements
requirement = record { platform = "weibo"; min_remaining_seconds = 40; exclusive = false }

abbrev endpoints : List (ProxyEndpoint × ℕ)
endpoints = (record { host = "a"; port = 1 }, 0) ∷ (record { host = "b"; port = 2 }, 5) ∷ []

abbrev proxies : ProxyMap
proxies = record { http = "b"; https = "b" }

-- What the tests compute with.
program : Unit {0}
unfolding lookup new_pool get_requests_proxies refill end_refill select_available_slot find_slot
    is_current_proxy_valid slot_expire_at
program = tt

-- A pool is opened, asked, filled and asked again.
abbrev asked : ProxyPool
asked = (get_requests_proxies requirement "" 0 (new_pool config)).1

abbrev filled : ProxyPool
filled = end_refill (refill requirement "" 0 0 2 endpoints asked).2

abbrev lent : ProxyPool
lent = (get_requests_proxies requirement "" 0 filled).1

-- Then the proxy of the endpoint that expires first, which is lent, is returned.
Steps-IsSound_example : IsSound (on_success_for 9 (some proxies) lent) 0
unfolding program
Steps-IsSound_example = Steps-IsSound {config = config} (
    succeeded 9 proxies (omega arith) (
      request requirement "" 0 (
        call_ended (
          answered requirement "" 0 0 2 endpoints refl (omega arith)
            (request requirement "" 0 opened)))))

abbrev second_slot : Slot
second_slot = record {
  endpoint = record { host = "b"; port = 2 };
  proxies = proxies;
  expire_at = 169999995;
  in_flight = 0;
  draining = false;
  exclusive = false;
  cooldown_until = 0;
  platform_cooldowns = [];
  transport_errors = 0;
}

select_available_slot-Meets_example :
    (get_elem? (select_available_slot requirement "" 7 filled).1.slots 1 ≡ some second_slot)
    × (second_slot.draining ≡ false)
    × (7 < second_slot.expire_at)
    × (second_slot.in_flight < filled.config.max_concurrency_per_proxy)
    × ((filled.config.lease_optimization_enabled ≡ false) ⊎ Meets requirement 7 second_slot)
unfolding program
select_available_slot-Meets_example =
    select_available_slot-Meets requirement "" 7 filled (1, second_slot) refl

abbrev unused : Provider
unused = record {
  current_endpoint = none;
  current_proxies = none;
  current_expire_at = none;
  last_endpoint = none;
}

abbrev first_endpoint : ProxyEndpoint
first_endpoint = record { host = "a"; port = 1 }

get_proxies-reuse_example :
    let s' = (get_proxies config 0 (some first_endpoint) unused).1 in
    (get_proxies config 9 none (Single.on_failure_for (some proxies) s')
      ≡ (some (build_proxies config first_endpoint), s'))
    × ((get_proxies config 9 none
          (Single.on_failure_for (some (build_proxies config first_endpoint)) s')).0
        ≡ none)
unfolding program
get_proxies-reuse_example =
    get_proxies-reuse config 0 9 first_endpoint none (some proxies) unused refl refl (omega arith)

-- Three calls at once, and one after a pause.
acquire_all-starts_within_example :
    starts_within 100 160 (
        acquire_all 100
          ((0, 0) ∷ (0, 3) ∷ (0, 0) ∷ (40, 1) ∷ [])
          (record { interval = 20; next_allowed_at = 90 }))
      * 20
    ≤ 160 - 100 + 20
acquire_all-starts_within_example =
    acquire_all-starts_within 100 ((0, 0) ∷ (0, 3) ∷ (0, 0) ∷ (40, 1) ∷ [])
      (record { interval = 20; next_allowed_at = 90 }) 100 160
