-- ===== src/Client/Returned.antt =====
-- A lease scope (app/crawlers/http_client.py) gives back what it takes.
use creator_engagement_proje.Base.{
  of_if, ℕ, ◌≡◌, refl, sym, subst, ap, ◌∙◌, ◌++◌, ◌||◌, some, arith, String, Bool, true, false, not,
  ◌&&◌, Option, none, List, [], ◌∷◌, if◌then◌else◌,
}
use creator_engagement_proje.Proxies.Policy.{
  collection_requirements, ProxyRequirements, FailureKind, task,
}
use creator_engagement_proje.Engagement.Collected.{Coverage}
use creator_engagement_proje.Client.{
  Mapping, ClientConfig, ProviderEvent, LeaseState, no_requirements, new_lease, notify_proxy,
  Notice, worked, broke_with, failed_with, given_back,
}
use creator_engagement_proje.Client.Scopes.{
  Action, requests, asks_mapping, ensures, starts_browser, invalidates, reports, act, at_exit,
  notice_of, end_lease, under_lease, lease_scope, collection_lease_scope, record_collection_failure,
}
use creator_engagement_proje.Client.Failed.{left_by, has_failing, failed-left_by}
use creator_engagement_proje.Client.Leases.{
  Ledger, held_of, held, IsOwned, IsFair, Ledger-nil, IsFair-take_lease,
  IsFair-ensure_proxy_lifetime,
}
use creator_engagement_proje.Client.Leases.Sending.{IsFairEnd-request_leased, IsFair-append}

-- A change that leaves the proxies.
IsFair-same :
    (config : ClientConfig) (before after : LeaseState)
    → IsOwned config.has_provider (held before)
    → held after ≡ held before
    → IsFair config before [] after
IsFair-same config before after owned same =
    subst (λ h. Ledger (held before) [] h × IsOwned config.has_provider h) (sym same)
      (Ledger-nil (held before), owned)

held-record_collection_failure :
    (config : ClientConfig) (coverage : Coverage) (why : String) (lease : LeaseState)
    → held (record_collection_failure config coverage why lease) ≡ held lease
unfolding record_collection_failure
held-record_collection_failure config coverage why lease =
    of_if (λ (l : LeaseState). held l ≡ held lease) (not config.is_optimized) _ _ (λ e. refl)
      (λ e.
        of_if (λ (l : LeaseState). held l ≡ held lease) lease.failed _ _ (λ f. refl) (λ f. refl))

held-at_exit :
    (config : ClientConfig) (is_cancelled : Bool) (lease : LeaseState)
    → held (at_exit config is_cancelled lease) ≡ held lease
unfolding at_exit
held-at_exit config is_cancelled lease =
    of_if (λ (l : LeaseState). held l ≡ held lease)
      (is_cancelled && config.is_optimized && not lease.failed) _ _ (λ e. refl) (λ e. refl)

IsFair-act :
    (config : ClientConfig) (shown : ℕ → String) (action : Action) (lease : LeaseState)
    → IsOwned config.has_provider (held lease)
    → IsFair config lease (act config shown action lease).1 (act config shown action lease).0
unfolding act
IsFair-act config shown (requests request exchange) lease owned =
    of_if (λ (done : LeaseState × List ProviderEvent). IsFair config lease done.1 done.0)
      request.account_direct _ _ (λ e. (Ledger-nil (held lease), owned))
      (λ e. IsFairEnd-request_leased config shown request exchange lease owned)
IsFair-act config shown (asks_mapping answer) lease owned =
    IsFair-take_lease config answer lease owned
IsFair-act config shown (ensures seconds exclusive remaining) lease owned =
    IsFair-ensure_proxy_lifetime config seconds exclusive remaining lease owned
IsFair-act config shown starts_browser lease owned = (Ledger-nil (held lease), owned)
IsFair-act config shown (invalidates why) lease owned = (Ledger-nil (held lease), owned)
IsFair-act config shown (reports coverage why) lease owned =
    IsFair-same config lease (record_collection_failure config coverage why lease) owned
      (held-record_collection_failure config coverage why lease)

-- What the provider sees of the actions under a lease.
abbrev seen_by : ClientConfig → (ℕ → String) → List Action → LeaseState → List ProviderEvent
seen_by config shown [] lease = []
seen_by config shown (action ∷ actions) lease =
    (act config shown action lease).1
    ++ seen_by config shown actions (act config shown action lease).0

-- The call that gives proxies back.
abbrev pub returned : Option Mapping → Notice → List ProviderEvent
returned none notice = []
returned (some proxies) notice = given_back proxies notice ∷ []

abbrev pub is_failure_notice : Notice → Bool
is_failure_notice worked = false
is_failure_notice (broke_with why) = true
is_failure_notice (failed_with failure why) = true

abbrev pub kind_in : Notice → Option FailureKind
kind_in worked = none
kind_in (broke_with why) = none
kind_in (failed_with failure why) = some failure.kind

-- A notice is a failure exactly if the lease has failed or, where leases are optimised, its scope
-- was cancelled; where leases are optimised it has the kind of the lease's failure, or else that
-- of a task's.
abbrev pub IsOutcome : ClientConfig → Bool → LeaseState → Notice → Type 0
IsOutcome config is_cancelled lease notice =
    (is_failure_notice notice ≡ (lease.failed || (is_cancelled && config.is_optimized)))
    × (kind_in notice ≡ (
        if not config.is_optimized
        then none
        else if lease.failed
        then lease.failure_kind
        else if is_cancelled
        then some task
        else none))

notice_of-IsOutcome :
    (config : ClientConfig) (is_cancelled : Bool) (lease : LeaseState)
    → IsOutcome config is_cancelled lease (notice_of config (at_exit config is_cancelled lease))
unfolding notice_of at_exit
notice_of-IsOutcome config is_cancelled lease = (ground arith, ground arith)

returned-notify_proxy :
    (config : ClientConfig) (acquired : Bool) (proxies : Option Mapping) (notice : Notice)
    → IsOwned config.has_provider (held_of acquired proxies)
    → (if acquired then notify_proxy config proxies notice else [])
      ≡ returned (held_of acquired proxies) notice
unfolding held_of notify_proxy
returned-notify_proxy config false proxies notice owned = refl
returned-notify_proxy config true none notice owned = refl
returned-notify_proxy config true (some m) notice owned = rw owned refl

returned-end_lease :
    (config : ClientConfig) (is_cancelled : Bool) (lease : LeaseState)
    → IsOwned config.has_provider (held lease)
    → end_lease config is_cancelled lease
      ≡ returned (held lease) (notice_of config (at_exit config is_cancelled lease))
unfolding end_lease
returned-end_lease config is_cancelled lease owned =
    let left = at_exit config is_cancelled lease in
    let same = held-at_exit config is_cancelled lease in
    returned-notify_proxy config left.acquired left.proxies (notice_of config left)
      (subst (IsOwned config.has_provider) (sym same) owned)
    ∙ ap (λ h. returned h (notice_of config left)) same

append_assoc : (xs ys zs : List ProviderEvent) → (xs ++ ys) ++ zs ≡ xs ++ (ys ++ zs)
append_assoc [] ys zs = refl
append_assoc (x ∷ xs) ys zs = ap (λ l. x ∷ l) (append_assoc xs ys zs)

under_lease_lem :
    (config : ClientConfig) (shown : ℕ → String) (actions : List Action) (is_cancelled : Bool)
    (lease : LeaseState)
    → under_lease config shown actions is_cancelled lease
      ≡ seen_by config shown actions lease
        ++ end_lease config is_cancelled (left_by config shown actions lease)
unfolding under_lease
under_lease_lem config shown [] is_cancelled lease = refl
under_lease_lem config shown (action ∷ actions) is_cancelled lease =
    ap (λ events. (act config shown action lease).1 ++ events)
      (under_lease_lem config shown actions is_cancelled (act config shown action lease).0)
    ∙ sym (
        append_assoc (act config shown action lease).1
          (seen_by config shown actions (act config shown action lease).0) _)

IsFair-seen_by :
    (config : ClientConfig) (shown : ℕ → String) (actions : List Action) (lease : LeaseState)
    → IsOwned config.has_provider (held lease)
    → IsFair config lease (seen_by config shown actions lease) (left_by config shown actions lease)
IsFair-seen_by config shown [] lease owned = (Ledger-nil (held lease), owned)
IsFair-seen_by config shown (action ∷ actions) lease owned =
    IsFair-append config lease (act config shown action lease).0
      (left_by config shown actions (act config shown action lease).0) _ _
      (IsFair-act config shown action lease owned)
      (IsFair-seen_by config shown actions (act config shown action lease).0)

-- What the provider sees of a scope whose lease is left as the second one.
abbrev pub IsScope : ClientConfig → Bool → List ProviderEvent → LeaseState → Type 0
IsScope config is_cancelled events left =
    (seen : List ProviderEvent) × (notice : Notice) × (events ≡ seen ++ returned (held left) notice)
    × Ledger none seen (held left)
    × IsOutcome config is_cancelled left notice

under_lease-IsScope :
    (config : ClientConfig) (shown : ℕ → String) (actions : List Action) (is_cancelled : Bool)
    (lease : LeaseState)
    → held lease ≡ none
    → IsScope config is_cancelled
        (under_lease config shown actions is_cancelled lease)
        (left_by config shown actions lease)
under_lease-IsScope config shown actions is_cancelled lease free =
    let left = left_by config shown actions lease in
    let fair =
      IsFair-seen_by config shown actions lease
        (subst (IsOwned config.has_provider) (sym free) tt) in
    (
      seen_by config shown actions lease,
      notice_of config (at_exit config is_cancelled left),
      under_lease_lem config shown actions is_cancelled lease
          ∙ ap (λ events. seen_by config shown actions lease ++ events)
              (returned-end_lease config is_cancelled left fair.1),
      subst (λ h. Ledger h (seen_by config shown actions lease) (held left)) free fair.0,
      notice_of-IsOutcome config is_cancelled left,
    )

-- The lease that a collection begins with.
abbrev pub first_lease : ClientConfig → String → Bool → LeaseState
first_lease config name author =
    new_lease
      (if config.is_optimized then collection_requirements name false author else no_requirements)

-- Whatever a collection does under its lease (requests in any scopes, with any answers of the
-- provider and any replies, upgrades, reported failures, a browser), and whether it ends by a
-- cancellation or not: each proxy that the provider gives is given back to it once, before another
-- one is taken, and none is held at the end. Before the end proxies are given back only as ones
-- that worked; at the end they are given back with a failure exactly if the lease has failed or,
-- where leases are optimised, the collection was cancelled, and there with the kind of failure. The
-- lease has failed exactly if an action made it fail: a request that was sent and broke off, was
-- answered with a status that tells against the proxy or lacked a required address, used proxies
-- that do not last, or a failure that was reported.
pub collection_lease_scope-Ledger :
    (config : ClientConfig) (shown : ℕ → String) (name : String) (author : Bool)
    (actions : List Action) (is_cancelled : Bool)
    → IsScope config is_cancelled
        (collection_lease_scope config shown name author actions is_cancelled)
        (left_by config shown actions (first_lease config name author))
      × ((left_by config shown actions (first_lease config name author)).failed
          ≡ has_failing config shown actions (first_lease config name author))
unfolding collection_lease_scope lease_scope held_of
collection_lease_scope-Ledger config shown name author actions is_cancelled = (
  scope config.is_optimized (collection_requirements name false author) no_requirements,
  failed-left_by config shown actions (first_lease config name author),
)
  where
    scope :
        (is_optimized : Bool) (r s : ProxyRequirements)
        → IsScope config is_cancelled
            (if is_optimized
              then under_lease config shown actions is_cancelled (new_lease r)
              else under_lease config shown actions is_cancelled (new_lease s))
            (left_by config shown actions (new_lease (if is_optimized then r else s)))
    scope true r s = under_lease-IsScope config shown actions is_cancelled (new_lease r) free
      where
        free : held (new_lease r) ≡ none
        free = unfold held_of in refl
    scope false r s = under_lease-IsScope config shown actions is_cancelled (new_lease s) free
      where
        free : held (new_lease s) ≡ none
        free = unfold held_of in refl
