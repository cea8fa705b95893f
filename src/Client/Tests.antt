-- ===== src/Client/Tests.antt =====
-- A lease scope at concrete inputs.
use creator_engagement_proje.Base.{ℕ, zero, suc, ◌≡◌, refl, true, false, some, List, [], ◌∷◌}
use creator_engagement_proje.Base.Dict.{lookup}
use creator_engagement_proje.Proxies.Policy.{collection_requirements, transport}
use creator_engagement_proje.Crawler.Protocol.{required}
use creator_engagement_proje.Client.{
  Mapping, ClientConfig, leased, given_back, worked, failed_with, proxies_given, acquire_proxy,
}
use creator_engagement_proje.Client.Requests.{
  Exchange, Request, broke_off, answered_with, responded,
}
use creator_engagement_proje.Client.Scopes.{
  Action, requests, asks_mapping, ensures, collection_lease_scope, request_unleased,
}
use creator_engagement_proje.Client.Attempts.{is_interrupted}
use creator_engagement_proje.Client.Unscoped.{IsUnleased, request_unleased-Ledger}
use creator_engagement_proje.Client.Failed.{left_by, has_failing}
use creator_engagement_proje.Client.Returned.{IsScope, first_lease, collection_lease_scope-Ledger}

abbrev client : ClientConfig
client = record {
  proxy_mode = required;
  has_provider = true;
  is_optimized = true;
  request_timeout_seconds = 15;
}

abbrev proxies : ℕ → Mapping
proxies zero = ("https", "http://10.0.0.1:80") ∷ []
proxies n = ("https", "http://10.0.0.2:80") ∷ []

abbrev page : Request
page = record { host = "m.weibo.cn"; account_direct = false; force_direct = false }

-- A lease that waited too long is given back unused; the next one breaks in a request.
abbrev work : List Action
work =
    asks_mapping (proxies_given (some (proxies 0)))
    ∷ ensures 30 false 12
    ∷ requests page (record {
      provider = proxies_given (some (proxies 1));
      remaining = 50;
      reply = broke_off "ProxyError";
    })
    ∷ []

collection_lease_scope-Ledger_example :
    IsScope client false
      (collection_lease_scope client (λ n. "") "weibo" false work false)
      (left_by client (λ n. "") work (first_lease client "weibo" false))
    × ((left_by client (λ n. "") work (first_lease client "weibo" false)).failed
        ≡ has_failing client (λ n. "") work (first_lease client "weibo" false))
collection_lease_scope-Ledger_example =
    collection_lease_scope-Ledger client (λ n. "") "weibo" false work false

both_are_given_back : collection_lease_scope client (λ n. "") "weibo" false work false ≡ (
    leased
      (record { platform = "weibo"; min_remaining_seconds = 40; exclusive = false })
      (proxies 0)
    ∷ given_back (proxies 0) worked
    ∷ leased
        (record { platform = "weibo"; min_remaining_seconds = 40; exclusive = false })
        (proxies 1)
    ∷ given_back (proxies 1) (
        failed_with
          (record { kind = transport; platform = "weibo" })
          "transport failure: ProxyError")
    ∷ [])
unfolding collection_lease_scope collection_requirements lookup acquire_proxy
both_are_given_back = refl

-- The first proxy is rejected in its request, and the second one answers.
abbrev exchanges : ℕ → Exchange
exchanges zero = record {
  provider = proxies_given (some (proxies 0));
  remaining = 0;
  reply = broke_off "ProxyError";
}
exchanges (suc n) = record {
  provider = proxies_given (some (proxies 1));
  remaining = 0;
  reply = answered_with 200;
}

exchanges_finish : (k : ℕ) → is_interrupted (exchanges k).reply ≡ false
unfolding is_interrupted
exchanges_finish zero = refl
exchanges_finish (suc n) = refl

request_unleased-Ledger_example :
    IsUnleased false client exchanges (request_unleased client (λ n. "") page exchanges).0
request_unleased-Ledger_example =
    request_unleased-Ledger client (λ n. "") page exchanges exchanges_finish

second_attempt_answers : (request_unleased client (λ n. "") page exchanges).1 ≡ responded 200
unfolding request_unleased acquire_proxy lookup
second_attempt_answers = refl
