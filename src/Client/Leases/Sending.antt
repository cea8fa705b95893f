-- ===== src/Client/Leases/Sending.antt =====
-- What a request under a lease (app/crawlers/http_client.py) does to the proxies that it holds.
use creator_engagement_proje.Base.{
  of_if, ℕ, ◌+◌, ◌≡◌, refl, sym, subst, String, true, false, not, ◌&&◌, Option, none, some, List,
  [], ◌++◌,
}
use creator_engagement_proje.Crawler.Protocol.{is_required}
use creator_engagement_proje.Client.{
  Mapping, ClientConfig, ProviderEvent, LeaseState, LeaseStep, take_lease, ensure_proxy_lifetime,
}
use creator_engagement_proje.Client.Requests.{
  Reply, broke_off, answered_with, interrupted, Exchange, Request, has_proxy_url, Requested,
  with_lease_step, go_on_unless, request_leased, send_leased, marked, is_rejected,
}
use creator_engagement_proje.Client.Leases.{
  Ledger, Ledger-append, held, IsOwned, IsFair, Ledger-nil, IsFair-take_lease,
  IsFair-ensure_proxy_lifetime,
}

-- A reply leaves the proxies that are held.
held-marked :
    (shown : ℕ → String) (lease : LeaseState) (reply : Reply)
    → held (marked shown lease reply) ≡ held lease
unfolding marked
held-marked shown lease (broke_off name) = refl
held-marked shown lease (answered_with status) =
    of_if (λ (l : LeaseState). held l ≡ held lease) (is_rejected status) _ _ (λ e. refl) (λ e. refl)
held-marked shown lease interrupted = refl

abbrev pub IsFairEnd : ClientConfig → LeaseState → Requested → Type 0
IsFairEnd config before r = IsFair config before r.events r.lease

IsFairEnd-send_leased :
    (config : ClientConfig) (shown : ℕ → String) (proxies : Option Mapping) (reply : Reply)
    (before lease : LeaseState) (events : List ProviderEvent)
    → IsFair config before events lease
    → IsFairEnd config before (send_leased config shown proxies reply lease events)
unfolding send_leased
IsFairEnd-send_leased config shown proxies reply before lease events fair =
    of_if (IsFairEnd config before) (is_required config.proxy_mode && not (has_proxy_url proxies)) _
      _ (λ e. fair)
      (λ e.
        subst (λ h. Ledger (held before) events h × IsOwned config.has_provider h)
          (sym (held-marked shown (record lease { requests_started = true }) reply)) fair)

IsFairEnd-go_on :
    (config : ClientConfig) (before lease : LeaseState) (events : List ProviderEvent)
    (problem : Option String) (go_on : LeaseState → List ProviderEvent → Requested)
    → IsFair config before events lease
    → (IsFair config before events lease → IsFairEnd config before (go_on lease events))
    → IsFairEnd config before (go_on_unless problem go_on lease events)
unfolding go_on_unless
IsFairEnd-go_on config before lease events none go_on fair rest = rest fair
IsFairEnd-go_on config before lease events (some why) go_on fair rest = fair

-- A step after others.
pub IsFair-append :
    (config : ClientConfig) (before middle after : LeaseState) (events others : List ProviderEvent)
    → IsFair config before events middle
    → (IsOwned config.has_provider (held middle) → IsFair config middle others after)
    → IsFair config before (events ++ others) after
IsFair-append config before middle after events others fair rest = (
  Ledger-append (held before) events others (held middle) (held after) fair.0 (rest fair.1).0,
  (rest fair.1).1,
)

IsFairEnd-with_lease_step :
    (config : ClientConfig) (before middle : LeaseState) (events : List ProviderEvent)
    (step : LeaseStep) (go_on : LeaseState → List ProviderEvent → Requested)
    → IsFair config before events middle
    → (IsOwned config.has_provider (held middle) → IsFair config middle step.events step.lease)
    → ((all : List ProviderEvent)
        → IsFair config before all step.lease
        → IsFairEnd config before (go_on step.lease all))
    → IsFairEnd config before (with_lease_step go_on events step)
IsFairEnd-with_lease_step config before middle events step go_on fair next rest =
    IsFairEnd-go_on config before step.lease (events ++ step.events) step.problem go_on
      (IsFair-append config before middle step.lease events step.events fair next)
      (rest (events ++ step.events))

pub IsFairEnd-request_leased :
    (config : ClientConfig) (shown : ℕ → String) (request : Request) (exchange : Exchange)
    (lease : LeaseState)
    → IsOwned config.has_provider (held lease)
    → IsFairEnd config lease (request_leased config shown request exchange lease)
unfolding request_leased
IsFairEnd-request_leased config shown request exchange lease owned =
    of_if (IsFairEnd config lease) (request.force_direct && not (is_required config.proxy_mode)) _ _
      (λ e.
        IsFairEnd-send_leased config shown none exchange.reply lease lease []
          (Ledger-nil (held lease), owned))
      (λ e.
        IsFairEnd-with_lease_step config lease lease []
          (ensure_proxy_lifetime config (config.request_timeout_seconds + 5) false
            exchange.remaining lease)
          (λ kept before. with_lease_step send before (take_lease config exchange.provider kept))
          (Ledger-nil (held lease), owned)
          (λ owns.
            IsFair-ensure_proxy_lifetime config (config.request_timeout_seconds + 5) false
              exchange.remaining lease owns)
          (λ all fair.
            IsFairEnd-with_lease_step config lease
              ((ensure_proxy_lifetime config (config.request_timeout_seconds + 5) false
                exchange.remaining lease).lease)
              all
              (take_lease config exchange.provider (
                (ensure_proxy_lifetime config (config.request_timeout_seconds + 5) false
                  exchange.remaining lease).lease))
              send fair
              (λ owns.
                IsFair-take_lease config exchange.provider
                  ((ensure_proxy_lifetime config (config.request_timeout_seconds + 5) false
                    exchange.remaining lease).lease)
                  owns)
              (λ events taken.
                IsFairEnd-send_leased config shown
                  (take_lease config exchange.provider (
                    (ensure_proxy_lifetime config (config.request_timeout_seconds + 5) false
                      exchange.remaining lease).lease)).lease.proxies
                  exchange.reply lease
                  (take_lease config exchange.provider (
                    (ensure_proxy_lifetime config (config.request_timeout_seconds + 5) false
                      exchange.remaining lease).lease)).lease
                  events taken)))
  where
    send : LeaseState → List ProviderEvent → Requested
    send taken events = send_leased config shown taken.proxies exchange.reply taken events
