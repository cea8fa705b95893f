-- ===== src/Client/Leases.antt =====
-- What the steps under a lease (app/crawlers/http_client.py) do to the proxies that it holds.
pub mod Sending
use creator_engagement_proje.Base.{
  of_if, ℕ, ◌+◌, ◌≡◌, refl, sym, subst, String, Bool, true, false, not, ◌&&◌, ◌||◌, Option, none,
  some, List, [], ◌∷◌, ◌++◌, leb,
}
use creator_engagement_proje.Crawler.Protocol.{ProxyMode, direct, prefer, required, is_required}
use creator_engagement_proje.Client.{
  Mapping, ClientConfig, Notice, worked, ProviderEvent, leased, given_back, LeaseState,
  ProviderAnswer, proxies_given, provider_raised, acquired_by, Acquired, got, refused,
  acquire_proxy, notify_proxy, LeaseStep, after_acquire, take_lease, ensure_proxy_lifetime,
  has_no_proxies,
}
use creator_engagement_proje.Client.Requests.{
  Reply, broke_off, answered_with, interrupted, Exchange, Request, has_proxy_url, Requested,
  with_lease_step, go_on_unless, request_leased, send_leased, marked, is_rejected,
}

-- The events begin with the first proxies held, or none, and end with the second ones held: proxies
-- are taken where none are held, and those that are held are given back, as proxies that worked.
unfoldable pub Ledger : Option Mapping → List ProviderEvent → Option Mapping → Type 0
Ledger before [] after = before ≡ after
Ledger none (leased requirements proxies ∷ events) after = Ledger (some proxies) events after
Ledger none (given_back proxies notice ∷ events) after = ⊥
Ledger (some held) (leased requirements proxies ∷ events) after = ⊥
Ledger (some held) (given_back proxies notice ∷ events) after =
    (proxies ≡ held) × (notice ≡ worked) × Ledger none events after

pub Ledger-append :
    (before : Option Mapping) (events others : List ProviderEvent) (middle after : Option Mapping)
    → Ledger before events middle
    → Ledger middle others after
    → Ledger before (events ++ others) after
unfolding Ledger
Ledger-append before [] others middle after h k = subst (λ b. Ledger b others after) (sym h) k
Ledger-append none (leased r m ∷ events) others middle after h k =
    Ledger-append (some m) events others middle after h k
Ledger-append none (given_back m n ∷ events) others middle after h k = absurd h
Ledger-append (some p) (leased r m ∷ events) others middle after h k = absurd h
Ledger-append (some p) (given_back m n ∷ events) others middle after h k =
    (h.0, h.1, Ledger-append none events others middle after h.2 k)

unfoldable pub held_of : Bool → Option Mapping → Option Mapping
held_of true proxies = proxies
held_of false proxies = none

-- The proxies that a lease holds.
abbrev pub held : LeaseState → Option Mapping
held lease = held_of lease.acquired lease.proxies

-- Proxies are held only of a provider.
abbrev pub IsOwned : Bool → Option Mapping → Type 0
IsOwned has_provider none = Unit
IsOwned has_provider (some proxies) = has_provider ≡ true

abbrev pub IsGot : Bool → Acquired → Type 0
IsGot has_provider (got proxies) = IsOwned has_provider proxies
IsGot has_provider (refused why) = Unit

pub IsGot-acquired_by :
    (mode : ProxyMode) (has_provider : Bool) (answer : ProviderAnswer)
    → IsGot has_provider (acquired_by mode has_provider answer)
unfolding acquired_by
IsGot-acquired_by direct has_provider answer = tt
IsGot-acquired_by prefer false answer = tt
IsGot-acquired_by required false answer = tt
IsGot-acquired_by prefer true (proxies_given none) = tt
IsGot-acquired_by prefer true (proxies_given (some m)) = refl
IsGot-acquired_by required true (proxies_given none) = tt
IsGot-acquired_by required true (proxies_given (some m)) = refl
IsGot-acquired_by prefer true (provider_raised why) = tt
IsGot-acquired_by required true (provider_raised why) = tt

first_not : (a b c : Bool) → (not a || b || c) ≡ false → a ≡ true
first_not true b c f = refl
first_not false b c f = absurd (cc)

-- What holds of a step from one lease to another.
abbrev pub IsFair : ClientConfig → LeaseState → List ProviderEvent → LeaseState → Type 0
IsFair config before events after =
    Ledger (held before) events (held after) × IsOwned config.has_provider (held after)

IsFair-after_acquire :
    (config : ClientConfig) (lease : LeaseState) (a : Acquired)
    → lease.acquired ≡ false
    → IsGot config.has_provider a
    → IsFair config lease (after_acquire lease a).events (after_acquire lease a).lease
unfolding after_acquire Ledger held_of
IsFair-after_acquire config lease (got none) free owned = rw free (refl, tt)
IsFair-after_acquire config lease (got (some m)) free owned = rw free (refl, owned)
IsFair-after_acquire config lease (refused why) free owned = rw free (refl, tt)

pub Ledger-nil : (held : Option Mapping) → Ledger held [] held
unfolding Ledger
Ledger-nil held = refl

pub IsFair-take_lease :
    (config : ClientConfig) (answer : ProviderAnswer) (lease : LeaseState)
    → IsOwned config.has_provider (held lease)
    → IsFair config lease
        (take_lease config answer lease).events
        (take_lease config answer lease).lease
unfolding take_lease acquire_proxy
IsFair-take_lease config answer lease owned =
    of_if (λ (step : LeaseStep). IsFair config lease step.events step.lease) lease.acquired _ _
      (λ e. (Ledger-nil (held lease), owned))
      (λ e.
        IsFair-after_acquire config lease (acquire_proxy config answer) e
          (IsGot-acquired_by config.proxy_mode config.has_provider answer))

pub Ledger-notify_proxy :
    (config : ClientConfig) (acquired : Bool) (proxies : Option Mapping)
    → acquired ≡ true
    → IsOwned config.has_provider (held_of acquired proxies)
    → Ledger (held_of acquired proxies) (notify_proxy config proxies worked) none
unfolding Ledger held_of notify_proxy
Ledger-notify_proxy config true none taken owned = refl
Ledger-notify_proxy config true (some m) taken owned = rw owned (refl, refl, refl)
Ledger-notify_proxy config false proxies taken owned = absurd (cc)

pub IsFair-ensure_proxy_lifetime :
    (config : ClientConfig) (seconds : ℕ) (exclusive : Bool) (remaining : ℕ) (lease : LeaseState)
    → IsOwned config.has_provider (held lease)
    → IsFair config lease
        (ensure_proxy_lifetime config seconds exclusive remaining lease).events
        (ensure_proxy_lifetime config seconds exclusive remaining lease).lease
unfolding ensure_proxy_lifetime held_of
IsFair-ensure_proxy_lifetime config seconds exclusive remaining lease owned =
    of_if P (not config.is_optimized) _ _ (λ e. same)
      (λ e.
        of_if P
          (not lease.acquired
            || has_no_proxies lease.proxies
            || (leb seconds remaining && not (exclusive && not lease.requirements.exclusive)))
          _ _ (λ e. same)
          (λ f.
            of_if P lease.requests_started _ _ (λ e. same)
              (λ e. (Ledger-notify_proxy config lease.acquired lease.proxies (taken f) owned, tt))))
  where
    P : LeaseStep → Type 0
    P step = IsFair config lease step.events step.lease

    same : Ledger (held lease) [] (held lease) × IsOwned config.has_provider (held lease)
    same = (Ledger-nil (held lease), owned)

    taken :
        (not lease.acquired
            || has_no_proxies lease.proxies
            || (leb seconds remaining && not (exclusive && not lease.requirements.exclusive)))
          ≡ false
        → lease.acquired ≡ true
    taken f =
        first_not lease.acquired (has_no_proxies lease.proxies)
          (leb seconds remaining && not (exclusive && not lease.requirements.exclusive)) f
