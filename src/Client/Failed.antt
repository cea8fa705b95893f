-- ===== src/Client/Failed.antt =====
-- When a lease (app/crawlers/http_client.py) has failed.
use creator_engagement_proje.Base.{
  ℕ, ◌+◌, ◌≡◌, ap, ◌∙◌, String, Bool, true, false, not, ◌&&◌, ◌||◌, Option, none, some, List, [],
  ◌∷◌, ltb, if◌then◌else◌, arith, Bool-cases, inl, inr, is_none,
}
use creator_engagement_proje.Engagement.Collected.{Coverage}
use creator_engagement_proje.Crawler.Protocol.{is_required}
use creator_engagement_proje.Client.{
  Mapping, ClientConfig, ProviderEvent, ProviderAnswer, LeaseState, LeaseStep, after_acquire,
  take_lease, ensure_proxy_lifetime, has_no_proxies,
}
use creator_engagement_proje.Client.Requests.{
  Reply, broke_off, answered_with, interrupted, Exchange, Request, Requested, has_proxy_url,
  is_rejected, marked, send_leased, go_on_unless, request_leased,
}
use creator_engagement_proje.Client.Scopes.{
  Action, requests, asks_mapping, ensures, starts_browser, invalidates, reports, act,
  record_collection_failure, invalidate_active_lease,
}

-- A reply that tells against the proxy.
abbrev pub is_failing : Reply → Bool
is_failing (broke_off name) = true
is_failing (answered_with status) = is_rejected status
is_failing interrupted = false

-- Proxies that requests have used, and that do not last for what follows.
abbrev pub is_too_short : ClientConfig → ℕ → Bool → ℕ → LeaseState → Bool
is_too_short config seconds exclusive remaining lease =
    config.is_optimized
    && lease.acquired
    && not (has_no_proxies lease.proxies)
    && (ltb remaining seconds || (exclusive && not lease.requirements.exclusive))
    && lease.requests_started

-- A request that is sent fails if it lacks a required address or its reply tells against the proxy.
abbrev pub fails_sent : ClientConfig → Reply → LeaseStep → Bool
fails_sent config reply step = elim step.problem [
  | some why ↦ false
  | none ↦
      (is_required config.proxy_mode && not (has_proxy_url step.lease.proxies)) || is_failing reply
]

abbrev pub fails_request : ClientConfig → Request → Exchange → LeaseState → Bool
fails_request config request exchange lease =
    let seconds = config.request_timeout_seconds + 5 in
    if request.force_direct && not (is_required config.proxy_mode)
    then is_failing exchange.reply
    else is_too_short config seconds false exchange.remaining lease
      || fails_sent config exchange.reply (
          take_lease config exchange.provider
            ((ensure_proxy_lifetime config seconds false exchange.remaining lease).lease))

-- Whether an action on a lease makes it fail.
abbrev pub fails : ClientConfig → Action → LeaseState → Bool
fails config (requests request exchange) lease =
    not request.account_direct && fails_request config request exchange lease
fails config (asks_mapping answer) lease = false
fails config (ensures seconds exclusive remaining) lease =
    is_too_short config seconds exclusive remaining lease
fails config starts_browser lease = false
fails config (invalidates why) lease = true
fails config (reports coverage why) lease = true

failed-ensure_proxy_lifetime :
    (config : ClientConfig) (seconds : ℕ) (exclusive : Bool) (remaining : ℕ) (lease : LeaseState)
    → (ensure_proxy_lifetime config seconds exclusive remaining lease).lease.failed
      ≡ (lease.failed || is_too_short config seconds exclusive remaining lease)
unfolding ensure_proxy_lifetime
failed-ensure_proxy_lifetime config seconds exclusive remaining lease = ground arith

failed-take_lease :
    (config : ClientConfig) (answer : ProviderAnswer) (lease : LeaseState)
    → (take_lease config answer lease).lease.failed ≡ lease.failed
unfolding take_lease after_acquire
failed-take_lease config answer lease = ground arith

failed-marked :
    (shown : ℕ → String) (lease : LeaseState) (reply : Reply)
    → (marked shown lease reply).failed ≡ (lease.failed || is_failing reply)
unfolding marked
failed-marked shown lease (broke_off name) = ground arith
failed-marked shown lease (answered_with status) = ground arith
failed-marked shown lease interrupted = ground arith

failed-send_leased :
    (config : ClientConfig) (shown : ℕ → String) (proxies : Option Mapping) (reply : Reply)
    (lease : LeaseState) (events : List ProviderEvent)
    → (send_leased config shown proxies reply lease events).lease.failed ≡ (
        lease.failed
        || ((is_required config.proxy_mode && not (has_proxy_url proxies)) || is_failing reply))
unfolding send_leased
failed-send_leased config shown proxies reply lease events =
    ground (arith, failed-marked shown (record lease { requests_started = true }) reply)

failed-record_collection_failure :
    (config : ClientConfig) (coverage : Coverage) (why : String) (lease : LeaseState)
    → (record_collection_failure config coverage why lease).failed ≡ (lease.failed || true)
unfolding record_collection_failure
failed-record_collection_failure config coverage why lease = ground arith

-- The request after its proxies are taken.
failed-sent :
    (config : ClientConfig) (shown : ℕ → String) (reply : Reply) (problem : Option String)
    (lease : LeaseState) (events all : List ProviderEvent)
    → (go_on_unless problem
        (λ taken events. send_leased config shown taken.proxies reply taken events)
        lease
        all).lease.failed
      ≡ (lease.failed
          || fails_sent config reply (record { lease = lease; events = events; problem = problem }))
unfolding go_on_unless
failed-sent config shown reply none lease events all =
    failed-send_leased config shown lease.proxies reply lease all
failed-sent config shown reply (some why) lease events all = ground arith

problem-ensure_proxy_lifetime :
    (config : ClientConfig) (seconds : ℕ) (exclusive : Bool) (remaining : ℕ) (lease : LeaseState)
    → is_none (ensure_proxy_lifetime config seconds exclusive remaining lease).problem
      ≡ not (is_too_short config seconds exclusive remaining lease)
unfolding ensure_proxy_lifetime
problem-ensure_proxy_lifetime config seconds exclusive remaining lease = ground arith

failed-go_on :
    (problem : Option String) (go_on : LeaseState → List ProviderEvent → Requested)
    (lease : LeaseState) (events : List ProviderEvent) (before is_short later : Bool)
    → is_none problem ≡ not is_short
    → lease.failed ≡ (before || is_short)
    → (go_on lease events).lease.failed ≡ (lease.failed || later)
    → (go_on_unless problem go_on lease events).lease.failed ≡ (before || (is_short || later))
unfolding go_on_unless
failed-go_on none go_on lease events before is_short later e f g = ground (arith, e, f, g)
failed-go_on (some why) go_on lease events before is_short later e f g = ground (arith, e, f)

failed-request_leased :
    (config : ClientConfig) (shown : ℕ → String) (request : Request) (exchange : Exchange)
    (lease : LeaseState)
    → (request_leased config shown request exchange lease).lease.failed
      ≡ (lease.failed || fails_request config request exchange lease)
unfolding request_leased
failed-request_leased config shown request exchange lease =
    let seconds = config.request_timeout_seconds + 5 in
    let step = ensure_proxy_lifetime config seconds false exchange.remaining lease in
    let taken = take_lease config exchange.provider step.lease in
    elim (Bool-cases (request.force_direct && not (is_required config.proxy_mode))) [
      | inl e ↦
          rw (e, request_leased)
            (failed-send_leased config shown none exchange.reply lease [] ∙ ground (arith, e))
      | inr e ↦
          rw (e, request_leased)
            (failed-go_on step.problem _ step.lease step.events lease.failed
              (is_too_short config seconds false exchange.remaining lease)
              (fails_sent config exchange.reply taken)
              (problem-ensure_proxy_lifetime config seconds false exchange.remaining lease)
              (failed-ensure_proxy_lifetime config seconds false exchange.remaining lease)
              (failed-sent config shown exchange.reply taken.problem taken.lease taken.events _
                ∙ ap (λ f. f || fails_sent config exchange.reply taken)
                    (failed-take_lease config exchange.provider step.lease)))
    ]

failed-act :
    (config : ClientConfig) (shown : ℕ → String) (action : Action) (lease : LeaseState)
    → (act config shown action lease).0.failed ≡ (lease.failed || fails config action lease)
unfolding act
failed-act config shown (requests request exchange) lease =
    ground (arith, failed-request_leased config shown request exchange lease)
failed-act config shown (asks_mapping answer) lease =
    ground (arith, failed-take_lease config answer lease)
failed-act config shown (ensures seconds exclusive remaining) lease =
    failed-ensure_proxy_lifetime config seconds exclusive remaining lease
failed-act config shown starts_browser lease = ground arith
failed-act config shown (invalidates why) lease = unfold invalidate_active_lease in ground arith
failed-act config shown (reports coverage why) lease =
    failed-record_collection_failure config coverage why lease

-- What the actions under a lease leave of it, and whether one of them makes it fail.
abbrev pub left_by : ClientConfig → (ℕ → String) → List Action → LeaseState → LeaseState
left_by config shown [] lease = lease
left_by config shown (action ∷ actions) lease =
    left_by config shown actions (act config shown action lease).0

abbrev pub has_failing : ClientConfig → (ℕ → String) → List Action → LeaseState → Bool
has_failing config shown [] lease = false
has_failing config shown (action ∷ actions) lease =
    fails config action lease || has_failing config shown actions (act config shown action lease).0

pub failed-left_by :
    (config : ClientConfig) (shown : ℕ → String) (actions : List Action) (lease : LeaseState)
    → (left_by config shown actions lease).failed
      ≡ (lease.failed || has_failing config shown actions lease)
failed-left_by config shown [] lease = ground arith
failed-left_by config shown (action ∷ actions) lease = ground (
  arith,
  failed-act config shown action lease,
  failed-left_by config shown actions (act config shown action lease).0,
)
