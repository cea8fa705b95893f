-- ===== src/Client/Unscoped.antt =====
-- Requests outside a lease scope (app/crawlers/http_client.py) give back what they take.
use creator_engagement_proje.Base.{
  of_if, ℕ, zero, suc, ◌≤◌, ◌≡◌, refl, ap, String, Bool, true, false, not, ◌&&◌, ◌||◌, List, [],
  ◌∷◌, ◌++◌, ◌⊎◌, inl, inr, arith, Bool-cases,
}
use creator_engagement_proje.Crawler.Protocol.{is_required}
use creator_engagement_proje.Client.{
  ClientConfig, ProviderEvent, Acquired, got, refused, acquire_proxy,
}
use creator_engagement_proje.Client.Requests.{Reply, Exchange, Request, Response}
use creator_engagement_proje.Client.Scopes.{
  has_broken, extra_attempts, unleased_with, attempt_unleased, attempts_unleased, request_unleased,
}
use creator_engagement_proje.Client.Attempts.{is_interrupted, IsAttempt, IsAttempt-attempt_unleased}

-- Another attempt follows only a reply that broke off.
retried_lem :
    (config : ClientConfig) (shown : ℕ → String) (request : Request) (reply : Reply) (a : Acquired)
    → (unleased_with config shown request reply a).2 ≡ true
    → has_broken reply ≡ true
unfolding unleased_with
retried_lem config shown request reply (refused why) again = absurd (cc)
retried_lem config shown request reply (got proxies) again = ground (arith, again)

-- What the provider sees of a request: nothing where it is direct, and otherwise a first attempt
-- and, where its reply broke off, perhaps a second one.
abbrev pub IsUnleased : Bool → ClientConfig → (ℕ → Exchange) → List ProviderEvent → Type 0
IsUnleased true config exchange events = events ≡ []
IsUnleased false config exchange events =
    (first : List ProviderEvent) × (second : List ProviderEvent) × (events ≡ first ++ second)
    × IsAttempt config (exchange 0) first
    × ((second ≡ [])
        ⊎ ((has_broken (exchange 0).reply ≡ true) × IsAttempt config (exchange 1) second))

first_only : (xs : List ProviderEvent) → xs ≡ xs ++ []
first_only [] = refl
first_only (x ∷ xs) = ap (λ l. x ∷ l) (first_only xs)

IsUnleased-attempts_unleased :
    (config : ClientConfig) (shown : ℕ → String) (request : Request) (exchange : ℕ → Exchange)
    (left : ℕ)
    → left ≤ 1
    → ((k : ℕ) → is_interrupted (exchange k).reply ≡ false)
    → IsUnleased false config exchange (attempts_unleased config shown request exchange left 0).0
unfolding attempts_unleased
IsUnleased-attempts_unleased config shown request exchange zero few finished = (
  _,
  [],
  first_only _,
  IsAttempt-attempt_unleased config shown request (exchange 0) (finished 0),
  inl refl,
)
IsUnleased-attempts_unleased config shown request exchange (suc zero) few finished =
    of_if (λ (done : List ProviderEvent × Response). IsUnleased false config exchange done.0)
      (attempt_unleased config shown request (exchange 0)).2 _ _
      (λ e. (
        _,
        (attempt_unleased config shown request (exchange 1)).0,
        refl,
        IsAttempt-attempt_unleased config shown request (exchange 0) (finished 0),
        inr (
          (unfold attempt_unleased in
              retried_lem config shown request (exchange 0).reply
                (acquire_proxy config (exchange 0).provider) e),
          IsAttempt-attempt_unleased config shown request (exchange 1) (finished 1),
        ),
      ))
      (λ e. (
        _,
        [],
        first_only _,
        IsAttempt-attempt_unleased config shown request (exchange 0) (finished 0),
        inl refl,
      ))
IsUnleased-attempts_unleased config shown request exchange (suc (suc left)) few finished =
    absurd (omega (arith, few))

extra_attempts_lem : (config : ClientConfig) → extra_attempts config ≤ 1
unfolding extra_attempts
extra_attempts_lem config = ground arith

-- A request outside a lease, which no cancellation interrupts: where it is direct the provider sees
-- nothing of it; otherwise the proxies that the provider gives to its first attempt, and to a
-- second one, which only a reply that broke off has, are given back once in that attempt, with a
-- failure exactly if they lack a required address, the reply broke off or its status is one of
-- those that tell against a proxy.
pub request_unleased-Ledger :
    (config : ClientConfig) (shown : ℕ → String) (request : Request) (exchange : ℕ → Exchange)
    → ((k : ℕ) → is_interrupted (exchange k).reply ≡ false)
    → IsUnleased
        (request.account_direct || (request.force_direct && not (is_required config.proxy_mode)))
        config
        exchange
        (request_unleased config shown request exchange).0
unfolding request_unleased
request_unleased-Ledger config shown request exchange finished =
    elim (Bool-cases
      (request.account_direct || (request.force_direct && not (is_required config.proxy_mode)))) [
        | inl e ↦ rw (e, request_unleased) refl
        | inr e ↦
            rw (e, request_unleased)
              (IsUnleased-attempts_unleased config shown request exchange (extra_attempts config)
                (extra_attempts_lem config) finished)
      ]
