-- ===== src/Crawler/Protocol/Reports.antt =====
-- What a run of `_run_protocol_handler` gives, logs and reports.
use creator_engagement_proje.Base.{
  ℕ, suc, ◌+◌, ◌≤◌, ◌<◌, ◌≡◌, refl, subst, String, true, List, [], ◌∷◌, ◌++◌, map, string_key,
  nat_key, arith, length, if◌then◌else◌,
}
use creator_engagement_proje.Engagement.Collected.{Coverage}
use creator_engagement_proje.Crawler.Results.{EngagementResult, should_retry_protocol}
use creator_engagement_proje.Crawler.Protocol.{
  ProtocolConfig, Collection, Transport, Call, ProtocolRun, Retry, Finish, returned, raised,
  no_result, reported, retry_of, returns, max_attempts_of, total_attempts,
}
use creator_engagement_proje.Crawler.Protocol.Loop.{numbered, run_protocol_handler}
use creator_engagement_proje.Crawler.Protocol.Attempts.{
  run_protocol_handler-induct, reported-should_retry,
}

-- The retries are of the attempts in a row from `first` on.
abbrev pub IsInRow : ℕ → List Retry → Type 0
IsInRow first [] = Unit
IsInRow first (retry ∷ retries) = (retry.attempt ≡ first) × IsInRow (suc first) retries

-- A result has the number of the attempts, and the tests of the loop return it; and there is a
-- result, or the handler raised.
unfoldable pub IsFinal : ProtocolConfig → Collection → ℕ → ℕ → ℕ → Finish → Type 0
IsFinal config job deadline at attempts (returned r) =
    (r.protocol_attempts ≡ attempts) × (returns config job deadline r.protocol_attempts at r ≡ true)
IsFinal config job deadline at attempts (raised error) = Unit
IsFinal config job deadline at attempts no_result = ⊥

-- The attempts are numbered from `first` on and within the allowed ones, and the last one is final.
unfoldable pub IsCounted : ProtocolConfig → Collection → ℕ → ℕ → ProtocolRun → Type 0
IsCounted config job deadline first run =
    IsInRow first run.retries
    × (first + length run.retries ≤ total_attempts config job.platform)
    × IsFinal config job deadline run.ended_at (first + length run.retries) run.finish

within_start : (a t : ℕ) → a ≤ t → a + 0 ≤ t
within_start a t within = omega arith

at_start : (a : ℕ) → a ≡ a + 0
at_start a = omega arith

one_more : (a n t : ℕ) → suc a + n ≤ t → a + suc n ≤ t
one_more a n t within = omega arith

shifted : (a n : ℕ) → suc a + n ≡ a + suc n
shifted a n = omega arith

-- With at least one allowed attempt: the handler is called until a result is returned or an
-- exception is raised, within the allowed attempts and, where recovery is enabled, two more; each
-- attempt before the last one is logged as a retry, in order; and a result has the number of the
-- attempts made, at which the tests of the loop stop it.
pub run_protocol_handler-IsCounted :
    (config : ProtocolConfig) (job : Collection) (calls : ℕ → Transport → Call) (now : ℕ)
    → 0 < max_attempts_of config job.platform
    → IsCounted config job (now + 25000) 1 (run_protocol_handler config job calls now)
unfolding IsCounted IsFinal retry_of
run_protocol_handler-IsCounted config job calls now allowed =
    run_protocol_handler-induct (IsCounted config job (now + 25000)) config job (now + 25000)
      (λ attempt error at within. (tt, within_start attempt _ within, tt))
      (λ attempt r at within stops. (tt, within_start attempt _ within, (at_start attempt, stops)))
      (λ attempt r at rest within goes_on counted. (
        (refl, counted.0),
        one_more attempt _ _ counted.1,
        subst (λ n. IsFinal config job (now + 25000) rest.ended_at n rest.finish)
            (shifted attempt _) counted.2,
      ))
      calls now refl allowed

abbrev pub report : Retry → Coverage × String
report retry = (retry.coverage, retry.why)

abbrev pub last_report : ProtocolConfig → Collection → Finish → List (Coverage × String)
last_report config job (returned r) =
    if should_retry_protocol job.wanted r then (r.coverage, r.reason) ∷ [] else []
last_report config job (raised error) = []
last_report config job no_result = []

reported_lem :
    (config : ProtocolConfig) (job : Collection)
    → config.has_leases ≡ true
    → (r : EngagementResult)
    → reported config job r
      ≡ (if should_retry_protocol job.wanted r then (r.coverage, r.reason) ∷ [] else [])
reported_lem config job leases r = ground (arith, leases)

-- With leases and at least one allowed attempt: every attempt that is tried again is reported to
-- the client as a failure of its lease, once and in order, then the last one exactly if it would be
-- worth another attempt; nothing is reported where the handler raises.
pub run_protocol_handler-failures :
    (config : ProtocolConfig) (job : Collection) (calls : ℕ → Transport → Call) (now : ℕ)
    → 0 < max_attempts_of config job.platform
    → config.has_leases ≡ true
    → (run_protocol_handler config job calls now).failures
      ≡ map report (run_protocol_handler config job calls now).retries
        ++ last_report config job (run_protocol_handler config job calls now).finish
unfolding retry_of
run_protocol_handler-failures config job calls now allowed leases =
    run_protocol_handler-induct
      (λ attempt run. run.failures ≡ map report run.retries ++ last_report config job run.finish)
      config job (now + 25000) (λ attempt error at within. refl)
      (λ attempt r at within stops. reported_lem config job leases (numbered r attempt))
      (λ attempt r at rest within goes_on same.
        rw
          (
            reported-should_retry config job (now + 25000) attempt at (numbered r attempt) goes_on
                leases,
            same,
          )
          refl)
      calls now refl allowed
