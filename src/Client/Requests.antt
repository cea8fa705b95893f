-- ===== src/Client/Requests.antt =====
-- Requests under a lease (app/crawlers/http_client.py, _request_unthrottled).
use Prim.Native.String.{◌++◌ as join_text}
use creator_engagement_proje.Base.{
  ℕ, ◌+◌, String, Bool, true, false, not, ◌&&◌, ◌||◌, Option, none, some, List, [], ◌∷◌, ◌++◌, leb,
  if◌then◌else◌, ◌==◌, string_key, nat_key, contains,
}
use creator_engagement_proje.Base.Dict.{lookup}
use creator_engagement_proje.Proxies.Policy.{FailureKind, transport, platform}
use creator_engagement_proje.Crawler.Protocol.{is_required}
use creator_engagement_proje.Client.{
  Mapping, take_lease, ensure_proxy_lifetime, ClientConfig, ProviderEvent, LeaseState,
  ProviderAnswer, LeaseStep,
}

-- What comes of a request that is sent: an exception with its type's name, a status, or the
-- cancellation of the task.
pub data Reply : Type 0 where
  broke_off : String → Reply
  answered_with : ℕ → Reply
  interrupted : Reply

-- One attempt: what the provider answers if it is asked, what it says of the time that its proxies
-- have left, and the reply.
pub record Exchange : Type 0 where
  pub provider : ProviderAnswer
  pub remaining : ℕ
  pub reply : Reply

-- `host` is the URL's; the scopes around a request set the other two.
pub record Request : Type 0 where
  pub host : String
  pub account_direct : Bool
  pub force_direct : Bool

pub data Response : Type 0 where
  responded : ℕ → Response
  request_raised : String → Response
  request_cancelled : Response

-- (proxies or {}).get("https") or (proxies or {}).get("http"), as a test
abbrev is_url : Option String → Bool
is_url none = false
is_url (some url) = not (url == "")

unfoldable pub has_proxy_url : Option Mapping → Bool
has_proxy_url none = false
has_proxy_url (some proxies) = is_url (lookup "https" proxies) || is_url (lookup "http" proxies)

unfoldable pub is_rejected : ℕ → Bool
is_rejected status =
    contains (403 ∷ 407 ∷ 412 ∷ 418 ∷ 429 ∷ 432 ∷ 471 ∷ []) status || leb 500 status

abbrev pub kind_of : ℕ → FailureKind
kind_of status = if status == 407 then transport else platform

-- str(status) is a parameter of the texts.
abbrev pub no_url : String
no_url = "代理映射缺少 http/https 地址，禁止本机直连请求"

-- What a reply leaves in the lease.
unfoldable pub marked : (ℕ → String) → LeaseState → Reply → LeaseState
unfolding is_rejected
marked shown lease (broke_off name) = record lease {
  failed = true;
  failure_kind = some transport;
  failure_reason = join_text "transport failure: " name;
}
marked shown lease (answered_with status) =
    if is_rejected status
    then record lease {
      failed = true;
      failure_kind = some (kind_of status);
      failure_reason = join_text "upstream HTTP " (shown status);
    }
    else lease
marked shown lease interrupted = lease

abbrev pub response_of : Reply → Response
response_of (broke_off name) = request_raised name
response_of (answered_with status) = responded status
response_of interrupted = request_cancelled

-- A request and the lease, and what the provider sees.
pub record Requested : Type 0 where
  pub lease : LeaseState
  pub events : List ProviderEvent
  pub response : Response

-- From the chosen proxies on.
unfoldable pub send_leased :
    ClientConfig
    → (ℕ → String)
    → Option Mapping
    → Reply
    → LeaseState
    → List ProviderEvent
    → Requested
unfolding marked has_proxy_url
send_leased config shown proxies reply lease events =
    if is_required config.proxy_mode && not (has_proxy_url proxies)
    then record {
      lease = record lease { failed = true; failure_reason = no_url };
      events = events;
      response = request_raised no_url;
    }
    else record {
      lease = marked shown (record lease { requests_started = true }) reply;
      events = events;
      response = response_of reply;
    }

-- An exception of a step ends the request.
unfoldable pub go_on_unless :
    Option String
    → (LeaseState → List ProviderEvent → Requested)
    → LeaseState
    → List ProviderEvent
    → Requested
go_on_unless none go_on lease events = go_on lease events
go_on_unless (some why) go_on lease events = record {
  lease = lease;
  events = events;
  response = request_raised why;
}

abbrev pub with_lease_step :
    (LeaseState → List ProviderEvent → Requested) → List ProviderEvent → LeaseStep → Requested
with_lease_step go_on before step =
    go_on_unless step.problem go_on step.lease (before ++ step.events)

-- A request under a lease: one attempt. `is_forced`: `direct_scope` counts.
unfoldable pub request_leased :
    ClientConfig → (ℕ → String) → Request → Exchange → LeaseState → Requested
unfolding send_leased ensure_proxy_lifetime take_lease go_on_unless
request_leased config shown request exchange lease =
    if request.force_direct && not (is_required config.proxy_mode)
    then send_leased config shown none exchange.reply lease []
    else with_lease_step
        (λ kept before.
          with_lease_step
            (λ taken events. send_leased config shown taken.proxies exchange.reply taken events)
            before (take_lease config exchange.provider kept))
        []
        (ensure_proxy_lifetime config (config.request_timeout_seconds + 5) false exchange.remaining
          lease)
