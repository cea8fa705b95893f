-- ===== src/Client/Attempts.antt =====
-- An attempt of a request outside a lease scope (app/crawlers/http_client.py) and its proxies.
use creator_engagement_proje.Base.{
  of_if, ℕ, ◌+◌, ◌≡◌, refl, subst, ap, String, Bool, true, false, not, ◌&&◌, ◌||◌, Option, none,
  some, List, [], ◌∷◌, arith,
}
use creator_engagement_proje.Proxies.Policy.{ProxyRequirements}
use creator_engagement_proje.Crawler.Protocol.{ProxyMode, direct, prefer, required, is_required}
use creator_engagement_proje.Client.{
  acquired_by, Mapping, ClientConfig, Notice, ProviderEvent, leased, given_back, broke_with,
  ProviderAnswer, proxies_given, provider_raised, Acquired, got, refused, acquire_proxy,
  lease_events, notify_proxy,
}
use creator_engagement_proje.Client.Requests.{
  no_url, Reply, broke_off, answered_with, interrupted, Exchange, Request, Response, has_proxy_url,
}
use creator_engagement_proje.Client.Scopes.{unleased_with, attempt_unleased, after_reply}
use creator_engagement_proje.Client.Leases.{IsGot, IsGot-acquired_by}
use creator_engagement_proje.Client.Failed.{is_failing}
use creator_engagement_proje.Client.Returned.{is_failure_notice}

unfoldable pub is_interrupted : Reply → Bool
is_interrupted (broke_off name) = false
is_interrupted (answered_with status) = false
is_interrupted interrupted = true

-- What a provider gives to a request: none is asked in direct mode.
abbrev pub taken_by : ProxyMode → Bool → ProviderAnswer → Option Mapping
taken_by direct has_provider answer = none
taken_by prefer false answer = none
taken_by required false answer = none
taken_by prefer true (proxies_given proxies) = proxies
taken_by required true (proxies_given proxies) = proxies
taken_by prefer true (provider_raised why) = none
taken_by required true (provider_raised why) = none

-- What the provider sees of an attempt that took the given proxies: they are given back, as a
-- failure exactly if they lack an address that is required, or the reply tells against them.
abbrev IsAttemptOf : ClientConfig → Reply → Option Mapping → List ProviderEvent → Type 0
IsAttemptOf config reply none events = events ≡ []
IsAttemptOf config reply (some m) events =
    (requirements : ProxyRequirements) × (notice : Notice) × (events
      ≡ leased requirements m ∷ given_back m notice ∷ [])
    × (is_failure_notice notice
        ≡ ((is_required config.proxy_mode && not (has_proxy_url (some m))) || is_failing reply))

abbrev pub IsAttempt : ClientConfig → Exchange → List ProviderEvent → Type 0
IsAttempt config exchange events =
    IsAttemptOf config exchange.reply
      (taken_by config.proxy_mode config.has_provider exchange.provider) events

notified :
    (config : ClientConfig) (m : Mapping) (notice : Notice)
    → config.has_provider ≡ true
    → notify_proxy config (some m) notice ≡ given_back m notice ∷ []
unfolding notify_proxy
notified config m notice owned = rw owned refl

after_reply_lem :
    (config : ClientConfig) (shown : ℕ → String) (request : Request) (m : Mapping) (reply : Reply)
    → is_interrupted reply ≡ false
    → config.has_provider ≡ true
    → (notice : Notice) × (after_reply config shown request (some m) reply
        ≡ given_back m notice ∷ [])
      × (is_failure_notice notice ≡ is_failing reply)
unfolding after_reply is_interrupted
after_reply_lem config shown request m (broke_off name) finished owned =
    (_, notified config m _ owned, ground arith)
after_reply_lem config shown request m (answered_with status) finished owned =
    (_, notified config m _ owned, ground arith)
after_reply_lem config shown request m interrupted finished owned = absurd (cc)

after_reply-none :
    (config : ClientConfig) (shown : ℕ → String) (request : Request) (reply : Reply)
    → after_reply config shown request none reply ≡ []
unfolding after_reply notify_proxy
after_reply-none config shown request (broke_off name) = refl
after_reply-none config shown request (answered_with status) = refl
after_reply-none config shown request interrupted = refl

abbrev proxies_of : Acquired → Option Mapping
proxies_of (got proxies) = proxies
proxies_of (refused why) = none

proxies_of-acquired_by :
    (mode : ProxyMode) (has_provider : Bool) (answer : ProviderAnswer)
    → proxies_of (acquired_by mode has_provider answer) ≡ taken_by mode has_provider answer
unfolding acquired_by
proxies_of-acquired_by direct has_provider answer = refl
proxies_of-acquired_by prefer false answer = refl
proxies_of-acquired_by required false answer = refl
proxies_of-acquired_by prefer true (proxies_given none) = refl
proxies_of-acquired_by prefer true (proxies_given (some m)) = refl
proxies_of-acquired_by required true (proxies_given none) = refl
proxies_of-acquired_by required true (proxies_given (some m)) = refl
proxies_of-acquired_by prefer true (provider_raised why) = refl
proxies_of-acquired_by required true (provider_raised why) = refl

or_left : (a b : Bool) → a ≡ true → true ≡ (a || b)
or_left a b h = rw h refl

or_right : (a b c : Bool) → a ≡ false → c ≡ b → c ≡ (a || b)
or_right a b c h k = rw (h, k) refl

IsAttempt-unleased_with :
    (config : ClientConfig) (shown : ℕ → String) (request : Request) (reply : Reply) (a : Acquired)
    → is_interrupted reply ≡ false
    → IsGot config.has_provider a
    → IsAttemptOf config reply (proxies_of a) (unleased_with config shown request reply a).0
unfolding unleased_with lease_events
IsAttempt-unleased_with config shown request reply (refused why) finished owned = refl
IsAttempt-unleased_with config shown request reply (got none) finished owned =
    of_if (λ (done : List ProviderEvent × Response × Bool). done.0 ≡ [])
      (is_required config.proxy_mode && not (has_proxy_url none)) _ _
      (λ e. unfold notify_proxy in refl) (λ e. after_reply-none config shown request reply)
IsAttempt-unleased_with config shown request reply (got (some m)) finished owned =
    of_if
      (λ (done : List ProviderEvent × Response × Bool). IsAttemptOf config reply (some m) done.0)
      (is_required config.proxy_mode && not (has_proxy_url (some m))) _ _
      (λ e. (
        asked,
        broke_with no_url,
        ap (λ events. leased asked m ∷ events) (notified config m (broke_with no_url) owned),
        or_left _ (is_failing reply) e,
      ))
      (λ e.
        let after = after_reply_lem config shown request m reply finished owned in
        (
          asked,
          after.0,
          ap (λ events. leased asked m ∷ events) after.1,
          or_right _ (is_failing reply) (is_failure_notice after.0) e after.2,
        ))
  where
    asked : ProxyRequirements
    asked = record {
      platform = request.host;
      min_remaining_seconds = config.request_timeout_seconds + 5;
      exclusive = false;
    }

pub IsAttempt-attempt_unleased :
    (config : ClientConfig) (shown : ℕ → String) (request : Request) (exchange : Exchange)
    → is_interrupted exchange.reply ≡ false
    → IsAttempt config exchange (attempt_unleased config shown request exchange).0
unfolding attempt_unleased acquire_proxy
IsAttempt-attempt_unleased config shown request exchange finished =
    let a = acquired_by config.proxy_mode config.has_provider exchange.provider in
    subst
      (λ o.
        IsAttemptOf config exchange.reply o (unleased_with config shown request exchange.reply a).0)
      (proxies_of-acquired_by config.proxy_mode config.has_provider exchange.provider)
      (IsAttempt-unleased_with config shown request exchange.reply a finished
        (IsGot-acquired_by config.proxy_mode config.has_provider exchange.provider))
