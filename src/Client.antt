-- ===== src/Client.antt =====
-- CurlAsyncHttpClient (app/crawlers/http_client.py): the proxy lease of a collection and the
-- requests under it. What the provider and the network answer are parameters of a request.
pub mod Requests
pub mod Attempts
pub mod Failed
pub mod Leases
pub mod Paced
pub mod Returned
pub mod Scopes
pub mod Unscoped
mod Tests
use Prim.Native.String.{◌++◌ as join_text}
use creator_engagement_proje.Base.{
  ℕ, zero, suc, ◌+◌, String, Bool, true, false, not, ◌&&◌, ◌||◌, Option, none, some, List, [], ◌∷◌,
  ◌++◌, ltb, leb, if◌then◌else◌, ◌==◌, string_key, nat_key, contains, max, is_none,
}
use creator_engagement_proje.Base.Dict.{Dict, lookup}
use creator_engagement_proje.Engagement.Collected.{Coverage, blocked}
use creator_engagement_proje.Proxies.Policy.{
  ProxyRequirements, ProxyFailure, FailureKind, transport, platform, task, collection_requirements,
}
use creator_engagement_proje.Crawler.Protocol.{ProxyMode, direct, prefer, required, is_required}

-- The proxies of a request: addresses by scheme.
abbrev pub Mapping : Type 0
Mapping = Dict String String

-- `has_provider`: there is a proxy provider; `is_optimized`: its `lease_optimization_enabled`.
pub record ClientConfig : Type 0 where
  pub proxy_mode : ProxyMode
  pub has_provider : Bool
  pub is_optimized : Bool
  pub request_timeout_seconds : ℕ

-- The exception of `on_failure_for`, or none for `on_success_for`.
pub data Notice : Type 0 where
  worked : Notice
  broke_with : (why : String) → Notice
  failed_with : ProxyFailure → (why : String) → Notice

-- The calls of the provider that give or take back a proxy.
pub data ProviderEvent : Type 0 where
  leased : ProxyRequirements → Mapping → ProviderEvent
  given_back : Mapping → Notice → ProviderEvent

-- `_ProxyLeaseState`
pub record LeaseState : Type 0 where
  pub proxies : Option Mapping
  pub acquired : Bool
  pub failed : Bool
  pub failure_reason : String
  pub failure_kind : Option FailureKind
  pub requirements : ProxyRequirements
  pub requests_started : Bool

abbrev pub no_requirements : ProxyRequirements
no_requirements = record { platform = ""; min_remaining_seconds = 0; exclusive = false }

abbrev pub new_lease : ProxyRequirements → LeaseState
new_lease requirements = record {
  proxies = none;
  acquired = false;
  failed = false;
  failure_reason = "";
  failure_kind = none;
  requirements = requirements;
  requests_started = false;
}

-- What `get_requests_proxies` gives: proxies, none, or an exception.
pub data ProviderAnswer : Type 0 where
  proxies_given : Option Mapping → ProviderAnswer
  provider_raised : String → ProviderAnswer

pub data Acquired : Type 0 where
  got : Option Mapping → Acquired
  refused : String → Acquired

-- None is not enough where a proxy is required.
abbrev pub checked : ProxyMode → Option Mapping → Acquired
checked mode (some proxies) = got (some proxies)
checked required none = refused "未获取到代理，禁止本机直连请求"
checked direct none = got none
checked prefer none = got none

unfoldable pub acquired_by : ProxyMode → Bool → ProviderAnswer → Acquired
acquired_by direct has_provider answer = got none
acquired_by prefer false answer = got none
acquired_by required false answer = refused "代理模式为 required，但没有配置代理提供器"
acquired_by prefer true (proxies_given proxies) = checked prefer proxies
acquired_by required true (proxies_given proxies) = checked required proxies
acquired_by prefer true (provider_raised why) = refused why
acquired_by required true (provider_raised why) = refused why

unfoldable pub acquire_proxy : ClientConfig → ProviderAnswer → Acquired
unfolding acquired_by
acquire_proxy config answer = acquired_by config.proxy_mode config.has_provider answer

-- What the provider sees of an acquisition.
unfoldable pub lease_events : ProxyRequirements → Acquired → List ProviderEvent
lease_events requirements (got (some proxies)) = leased requirements proxies ∷ []
lease_events requirements (got none) = []
lease_events requirements (refused why) = []

-- `_notify_proxy`
unfoldable pub notify_proxy : ClientConfig → Option Mapping → Notice → List ProviderEvent
notify_proxy config none notice = []
notify_proxy config (some proxies) notice =
    if config.has_provider then given_back proxies notice ∷ [] else []

-- A step under a lease: what it leaves, what the provider sees, and the text of an exception.
pub record LeaseStep : Type 0 where
  pub lease : LeaseState
  pub events : List ProviderEvent
  pub problem : Option String

abbrev pub quiet : LeaseState → LeaseStep
quiet lease = record { lease = lease; events = []; problem = none }

-- `if not state.acquired`: the proxies are acquired once.
unfoldable pub after_acquire : LeaseState → Acquired → LeaseStep
unfolding lease_events
after_acquire lease (got proxies) = record {
  lease = record lease { proxies = proxies; acquired = true };
  events = lease_events lease.requirements (got proxies);
  problem = none;
}
after_acquire lease (refused why) = record { lease = lease; events = []; problem = some why }

unfoldable pub take_lease : ClientConfig → ProviderAnswer → LeaseState → LeaseStep
unfolding after_acquire
take_lease config answer lease =
    if lease.acquired then quiet lease else after_acquire lease (acquire_proxy config answer)

-- `not state.proxies`
abbrev pub has_no_proxies : Option Mapping → Bool
has_no_proxies none = true
has_no_proxies (some []) = true
has_no_proxies (some (entry ∷ entries)) = false

-- `ensure_proxy_lifetime` on a lease, where `remaining` is what the provider says of its proxies.
unfoldable pub ensure_proxy_lifetime : ClientConfig → ℕ → Bool → ℕ → LeaseState → LeaseStep
unfolding notify_proxy
ensure_proxy_lifetime config seconds exclusive remaining lease =
    let needs_upgrade = exclusive && not lease.requirements.exclusive in
    let upgraded = record lease {
      requirements = record (lease.requirements) {
        min_remaining_seconds = max seconds lease.requirements.min_remaining_seconds;
        exclusive = exclusive || lease.requirements.exclusive;
      };
    } in
    if not config.is_optimized
    then quiet lease
    else if not lease.acquired
        || has_no_proxies lease.proxies
        || (leb seconds remaining && not needs_upgrade)
    then quiet upgraded
    else if lease.requests_started
    then record {
      lease = record upgraded {
        failed = true;
        failure_kind = some task;
        failure_reason = "proxy lifetime insufficient for next step";
      };
      events = [];
      problem = some "代理剩余寿命不足，需从会话边界重试";
    }
    else record {
      lease = record upgraded { acquired = false; proxies = none };
      events = notify_proxy config lease.proxies worked;
      problem = none;
    }
