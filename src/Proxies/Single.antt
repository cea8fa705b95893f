-- ===== src/Proxies/Single.antt =====
-- The provider that reuses one proxy (DailiProxyProvider and AsyncDailiProxyProvider of
-- app/crawlers/proxy_provider.py). `answer` is the endpoint that a call of the supplier gives, if
-- the code calls it; a call ends at the instant at which it began.
use creator_engagement_proje.Base.{
  ℕ, ◌<◌, ◌≡◌, Bool, true, false, not, ◌&&◌, Option, none, some, arith, string_key, ltb,
  if◌then◌else◌, is_none,
}
use creator_engagement_proje.Base.Dict.{same_refl}
use creator_engagement_proje.Proxies.Pool.{ProxyEndpoint, ProxyMap, PoolConfig, slot_expire_at}
use creator_engagement_proje.Proxies.Pool.Returns.{map_same}

pub record Provider : Type 0 where
  pub current_endpoint : Option ProxyEndpoint
  pub current_proxies : Option ProxyMap
  pub current_expire_at : Option ℕ
  pub last_endpoint : Option ProxyEndpoint

unfoldable pub clear_current_proxy : Provider → Provider
clear_current_proxy s = record s {
  current_endpoint = none;
  current_proxies = none;
  current_expire_at = none;
}

abbrev pub build_proxies : PoolConfig → ProxyEndpoint → ProxyMap
build_proxies config endpoint = record {
  http = config.proxy_url endpoint;
  https = config.proxy_url endpoint;
}

unfoldable pub set_current_proxy : PoolConfig → ℕ → ProxyEndpoint → ProxyMap → Provider → Provider
unfolding slot_expire_at
set_current_proxy config now endpoint proxies s = record s {
  current_endpoint = some endpoint;
  current_proxies = some proxies;
  current_expire_at = some (slot_expire_at config now);
}

abbrev pub is_before : ℕ → Option ℕ → Bool
is_before now none = false
is_before now (some t) = ltb now t

unfoldable pub is_current_proxy_valid : ℕ → Provider → Bool
is_current_proxy_valid now s =
    not (is_none s.current_endpoint)
    && not (is_none s.current_proxies)
    && is_before now s.current_expire_at

abbrev pub renew : PoolConfig → ℕ → Option ProxyEndpoint → Provider → Option ProxyMap × Provider
renew config now none s = (none, clear_current_proxy s)
renew config now (some e) s =
    (some (build_proxies config e), set_current_proxy config now e (build_proxies config e) s)

unfoldable pub get_proxies :
    PoolConfig → ℕ → Option ProxyEndpoint → Provider → Option ProxyMap × Provider
unfolding is_current_proxy_valid clear_current_proxy set_current_proxy
get_proxies config now answer s =
    if is_current_proxy_valid now s
    then (s.current_proxies, s)
    else renew config now answer (record s { last_endpoint = answer })

-- proxies is None or self.current_proxies != proxies
abbrev pub is_late : Option ProxyMap → Option ProxyMap → Bool
is_late none current = true
is_late (some p) none = true
is_late (some p) (some q) = not (map_same q p)

unfoldable pub on_failure_for : Option ProxyMap → Provider → Provider
unfolding clear_current_proxy
on_failure_for proxies s = if is_late proxies s.current_proxies then s else clear_current_proxy s

-- A provider without a valid proxy that gets one from the supplier: until that proxy expires, and
-- whatever failure of another proxy is reported late, it gives the same proxy again and stays as it
-- is, whatever the supplier would answer; after a failure reported of that proxy it gives nothing
-- if the supplier has no answer.
pub get_proxies-reuse :
    (config : PoolConfig) (now later : ℕ) (e : ProxyEndpoint) (answer : Option ProxyEndpoint)
    (late : Option ProxyMap) (s : Provider)
    → is_current_proxy_valid now s ≡ false
    → is_late late (some (build_proxies config e)) ≡ true
    → later < slot_expire_at config now
    → let s' = (get_proxies config now (some e) s).1 in
      (get_proxies config later answer (on_failure_for late s')
        ≡ (some (build_proxies config e), s'))
      × ((get_proxies config later none (on_failure_for (some (build_proxies config e)) s')).0
          ≡ none)
unfolding get_proxies on_failure_for set_current_proxy clear_current_proxy is_current_proxy_valid
get_proxies-reuse config now later e answer late s stale other early =
    (ground arith, ground (arith, same_refl (config.proxy_url e)))
