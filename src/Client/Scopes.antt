-- ===== src/Client/Scopes.antt =====
-- The lease scopes of CurlAsyncHttpClient and what happens in them, and requests outside them
-- (app/crawlers/http_client.py).
use Prim.Native.String.{◌++◌ as join_text}
use creator_engagement_proje.Base.{
  ℕ, zero, suc, ◌+◌, String, Bool, true, false, not, ◌&&◌, ◌||◌, Option, none, some, List, [], ◌∷◌,
  ◌++◌, if◌then◌else◌, ◌==◌, string_key, nat_key,
}
use creator_engagement_proje.Engagement.Collected.{
  Coverage, complete, partial, blocked, failed, unsupported,
}
use creator_engagement_proje.Proxies.Policy.{
  FailureKind, transport, platform, task, collection_requirements,
}
use creator_engagement_proje.Crawler.Protocol.{direct, is_required}
use creator_engagement_proje.Client.{
  Mapping, ClientConfig, Notice, worked, broke_with, failed_with, ProviderEvent, LeaseState,
  no_requirements, new_lease, ProviderAnswer, Acquired, got, refused, acquire_proxy, lease_events,
  notify_proxy, take_lease, ensure_proxy_lifetime,
}
use creator_engagement_proje.Client.Requests.{
  Reply, broke_off, answered_with, interrupted, Exchange, Request, Response, request_raised,
  has_proxy_url, is_rejected, kind_of, no_url, request_leased, response_of,
}

abbrev failure_of : ClientConfig → Request → FailureKind → String → String → Notice
failure_of config request kind why plain =
    if config.is_optimized
    then failed_with (record { kind = kind; platform = request.host }) why
    else broke_with plain

-- A proxy outside a lease is given back with the reply, unless the task is cancelled.
unfoldable pub after_reply :
    ClientConfig → (ℕ → String) → Request → Option Mapping → Reply → List ProviderEvent
unfolding notify_proxy is_rejected
after_reply config shown request proxies (broke_off name) = notify_proxy config proxies (
    if config.is_optimized
    then failed_with (record { kind = transport; platform = "" }) name
    else broke_with name)
after_reply config shown request proxies (answered_with status) = notify_proxy config proxies (
    if is_rejected status
    then failure_of config request (kind_of status) (join_text "upstream HTTP " (shown status))
        (join_text "proxy request returned HTTP " (shown status))
    else worked)
after_reply config shown request proxies interrupted = []

abbrev pub has_broken : Reply → Bool
has_broken reply = elim reply [ broke_off name ↦ true | _ ↦ false ]

-- An attempt outside a lease: the provider's part, the response, and whether another attempt
-- follows if one is left.
unfoldable pub unleased_with :
    ClientConfig → (ℕ → String) → Request → Reply → Acquired → List ProviderEvent × Response × Bool
unfolding lease_events notify_proxy after_reply has_proxy_url
unleased_with config shown request reply (refused why) = ([], request_raised why, false)
unleased_with config shown request reply (got proxies) =
    let asked =
      lease_events
        (record {
          platform = request.host;
          min_remaining_seconds = config.request_timeout_seconds + 5;
          exclusive = false;
        })
        (got proxies) in
    if is_required config.proxy_mode && not (has_proxy_url proxies)
    then (asked ++ notify_proxy config proxies (broke_with no_url), request_raised no_url, false)
    else (
      asked ++ after_reply config shown request proxies reply,
      response_of reply,
      has_broken reply,
    )

unfoldable pub attempt_unleased :
    ClientConfig → (ℕ → String) → Request → Exchange → List ProviderEvent × Response × Bool
unfolding acquire_proxy unleased_with
attempt_unleased config shown request exchange =
    unleased_with config shown request exchange.reply (acquire_proxy config exchange.provider)

-- The attempts that are left; `exchange n` is the n-th one.
unfoldable pub attempts_unleased :
    ClientConfig → (ℕ → String) → Request → (ℕ → Exchange) → ℕ → ℕ → List ProviderEvent × Response
unfolding attempt_unleased
attempts_unleased config shown request exchange zero n =
    let now = attempt_unleased config shown request (exchange n) in (now.0, now.1)
attempts_unleased config shown request exchange (suc left) n =
    let now = attempt_unleased config shown request (exchange n) in
    let rest = attempts_unleased config shown request exchange left (suc n) in
    if now.2 then (now.0 ++ rest.0, rest.1) else (now.0, now.1)

-- The attempts after the first one.
unfoldable pub extra_attempts : ClientConfig → ℕ
extra_attempts config = elim config.proxy_mode [
  | direct ↦ 0
  | _ ↦ if config.has_provider then 1 else 0
]

-- `_request_unthrottled` outside a lease.
unfoldable pub request_unleased :
    ClientConfig → (ℕ → String) → Request → (ℕ → Exchange) → List ProviderEvent × Response
unfolding attempts_unleased extra_attempts
request_unleased config shown request exchange =
    if request.account_direct || (request.force_direct && not (is_required config.proxy_mode))
    then ([], response_of (exchange 0).reply)
    else attempts_unleased config shown request exchange (extra_attempts config) 0

-- `record_collection_failure` and `invalidate_active_lease` on a lease.
unfoldable pub invalidate_active_lease : String → LeaseState → LeaseState
invalidate_active_lease why lease = record lease { failed = true; failure_reason = why }

abbrev coverage_text : Coverage → String
coverage_text complete = "complete"
coverage_text partial = "partial"
coverage_text blocked = "blocked"
coverage_text failed = "failed"
coverage_text unsupported = "unsupported"

unfoldable pub record_collection_failure :
    ClientConfig → Coverage → String → LeaseState → LeaseState
unfolding invalidate_active_lease
record_collection_failure config coverage why lease =
    let text = join_text (coverage_text coverage) (join_text ": " why) in
    if not config.is_optimized
    then invalidate_active_lease (join_text "semantic collection failure: " text) lease
    else if lease.failed
    then lease
    else record lease {
      failed = true;
      failure_kind = some (elim coverage [ blocked ↦ platform | _ ↦ task ]);
      failure_reason = join_text "collection failure: " text;
    }

-- What the collection does under its lease.
pub data Action : Type 0 where
  requests : Request → Exchange → Action
  asks_mapping : ProviderAnswer → Action
  ensures : (seconds : ℕ) (exclusive : Bool) (remaining : ℕ) → Action
  starts_browser : Action
  invalidates : String → Action
  reports : Coverage → String → Action

-- An action under a lease; what an action raises, the collection may catch. A request of
-- `account_direct_scope` leaves the lease alone.
unfoldable pub act :
    ClientConfig → (ℕ → String) → Action → LeaseState → LeaseState × List ProviderEvent
unfolding request_leased take_lease ensure_proxy_lifetime invalidate_active_lease
    record_collection_failure
act config shown (requests request exchange) lease =
    if request.account_direct
    then (lease, [])
    else let done = request_leased config shown request exchange lease in (done.lease, done.events)
act config shown (asks_mapping answer) lease =
    let done = take_lease config answer lease in (done.lease, done.events)
act config shown (ensures seconds exclusive remaining) lease =
    let done = ensure_proxy_lifetime config seconds exclusive remaining lease in
    (done.lease, done.events)
act config shown starts_browser lease = (record lease { requests_started = true }, [])
act config shown (invalidates why) lease = (invalidate_active_lease why lease, [])
act config shown (reports coverage why) lease =
    (record_collection_failure config coverage why lease, [])

abbrev reason_or : String → String → String
reason_or why plain = if why == "" then plain else why

-- The exception that a failed lease gives its proxy back with.
unfoldable pub notice_of : ClientConfig → LeaseState → Notice
notice_of config lease =
    if not lease.failed
    then worked
    else if not config.is_optimized
    then broke_with (reason_or lease.failure_reason "collection proxy lease failed")
    else elim lease.failure_kind [
      | none ↦ broke_with (reason_or lease.failure_reason "collection proxy lease failed")
      | some kind ↦
          failed_with (record { kind = kind; platform = lease.requirements.platform })
            (reason_or lease.failure_reason "collection lease failed")
    ]

-- The end of `lease_scope`, by a cancellation or not.
unfoldable pub at_exit : ClientConfig → Bool → LeaseState → LeaseState
at_exit config is_cancelled lease =
    if is_cancelled && config.is_optimized && not lease.failed
    then record lease {
      failed = true;
      failure_kind = some task;
      failure_reason = "collection cancelled";
    }
    else lease

unfoldable pub end_lease : ClientConfig → Bool → LeaseState → List ProviderEvent
unfolding at_exit notice_of notify_proxy
end_lease config is_cancelled lease =
    let left = at_exit config is_cancelled lease in
    if left.acquired then notify_proxy config left.proxies (notice_of config left) else []

-- What the provider sees of a scope, from a lease on.
unfoldable pub under_lease :
    ClientConfig → (ℕ → String) → List Action → Bool → LeaseState → List ProviderEvent
unfolding act end_lease
under_lease config shown [] is_cancelled lease = end_lease config is_cancelled lease
under_lease config shown (action ∷ actions) is_cancelled lease =
    let now = act config shown action lease in
    now.1 ++ under_lease config shown actions is_cancelled now.0

unfoldable pub lease_scope : ClientConfig → (ℕ → String) → List Action → Bool → List ProviderEvent
unfolding under_lease
lease_scope config shown actions is_cancelled =
    under_lease config shown actions is_cancelled (new_lease no_requirements)

unfoldable pub collection_lease_scope :
    ClientConfig → (ℕ → String) → String → Bool → List Action → Bool → List ProviderEvent
unfolding lease_scope collection_requirements
collection_lease_scope config shown name author actions is_cancelled =
    if config.is_optimized
    then under_lease config shown actions is_cancelled
        (new_lease (collection_requirements name false author))
    else lease_scope config shown actions is_cancelled
