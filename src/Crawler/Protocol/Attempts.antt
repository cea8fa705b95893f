-- ===== src/Crawler/Protocol/Attempts.antt =====
-- How often `_run_protocol_handler` calls its handler.
use creator_engagement_proje.Base.{
  ℕ, zero, suc, ◌+◌, ◌-◌, ◌≤◌, ◌<◌, ◌≡◌, refl, subst, String, Bool, true, false, not, ◌&&◌, ◌||◌,
  Option, none, some, [], ◌∷◌, ltb, leb, ◌==◌, string_key, nat_key, arith, Bool-cases, inl, inr,
}
use creator_engagement_proje.Alerts.Status.{Error}
use creator_engagement_proje.Crawler.Results.{EngagementResult, should_retry_protocol}
use creator_engagement_proje.Crawler.Protocol.{
  ProtocolConfig, Collection, Transport, Call, ProtocolRun, returned, raised, reported, retry_of,
  returns, gives_up, max_attempts_of, total_attempts, stats_only, is_required, is_transient, Answer,
  answered, threw,
}
use creator_engagement_proje.Crawler.Protocol.Loop.{
  ended, with_retry, numbered, after_call, attempts_from, run_protocol_handler,
}

tests : (a b c d : Bool) → (not a || b || c || d) ≡ false → (a ≡ true) × (c ≡ false)
tests true false false d e = (refl, refl)
tests true false true d e = (refl, e)
tests true true c d e = absurd (cc)
tests false b c d e = absurd (cc)

below : (a b : ℕ) → (a == b) ≡ false → a ≤ b → a < b
below a b other allowed = ground arith

last : (a t : ℕ) → a + 0 ≡ t → a < t → ⊥
last a t total strict = omega arith

suc_pred : (t : ℕ) → 0 < t → suc (t - 1) ≡ t
suc_pred t positive = omega arith

add_pred : (t : ℕ) → 0 < t → 1 + (t - 1) ≡ t
add_pred t positive = omega arith

first_ready : (m : ℕ) (late : Bool) → 0 < m → (ltb m 1 && late) ≡ false
first_ready m late positive = ground arith

total_attempts-positive :
    (config : ProtocolConfig) (platform : String)
    → 0 < max_attempts_of config platform
    → 0 < total_attempts config platform
unfolding total_attempts
total_attempts-positive config platform allowed = ground arith

-- A result that is not returned is worth another attempt, and not the last allowed one.
returns-tests :
    (config : ProtocolConfig) (job : Collection) (deadline attempt now : ℕ) (r : EngagementResult)
    → returns config job deadline attempt now r ≡ false
    → (should_retry_protocol job.wanted r ≡ true)
      × ((attempt == total_attempts config job.platform) ≡ false)
unfolding returns
returns-tests config job deadline attempt now r e =
    tests (should_retry_protocol job.wanted r)
      (job.platform == "xiaohongshu"
        && stats_only job.wanted
        && not (is_required config.proxy_mode))
      (attempt == total_attempts config job.platform)
      (leb (max_attempts_of config job.platform) attempt
        && (not (is_transient job.platform r) || leb deadline now))
      e

returns-last :
    (config : ProtocolConfig) (job : Collection) (deadline attempt now : ℕ) (r : EngagementResult)
    → attempt ≤ total_attempts config job.platform
    → returns config job deadline attempt now r ≡ false
    → attempt < total_attempts config job.platform
returns-last config job deadline attempt now r allowed e =
    below attempt (total_attempts config job.platform)
      (returns-tests config job deadline attempt now r e).1 allowed

pub reported-should_retry :
    (config : ProtocolConfig) (job : Collection) (deadline attempt now : ℕ) (r : EngagementResult)
    → returns config job deadline attempt now r ≡ false
    → config.has_leases ≡ true
    → reported config job r ≡ (r.coverage, r.reason) ∷ []
reported-should_retry config job deadline attempt now r e leases =
    ground (arith, (returns-tests config job deadline attempt now r e).0)

-- A result that is not returned passes the test at the head of the next attempt.
returns-ready :
    (config : ProtocolConfig) (job : Collection) (deadline attempt now : ℕ) (r : EngagementResult)
    → returns config job deadline attempt now r ≡ false
    → (ltb (max_attempts_of config job.platform) (suc attempt)
        && gives_up job.platform deadline (now + (retry_of config job attempt r).delay) (some r))
      ≡ false
unfolding returns gives_up retry_of
returns-ready config job deadline attempt now r e = ground arith

module _ (P : ℕ → ProtocolRun → Type 0) (config : ProtocolConfig) (job : Collection) (deadline : ℕ)
    (on_raise : (attempt : ℕ) (error : Error) (at : ℕ)
      → attempt ≤ total_attempts config job.platform
      → P attempt (ended (raised error) at))
    (on_return : (attempt : ℕ) (r : EngagementResult) (at : ℕ)
      → attempt ≤ total_attempts config job.platform
      → returns config job deadline attempt at (numbered r attempt) ≡ true
      → P attempt (record {
        finish = returned (numbered r attempt);
        ended_at = at;
        failures = reported config job (numbered r attempt);
        retries = [];
      }))
    (on_retry : (attempt : ℕ) (r : EngagementResult) (at : ℕ) (rest : ProtocolRun)
      → attempt < total_attempts config job.platform
      → returns config job deadline attempt at (numbered r attempt) ≡ false
      → P (suc attempt) rest
      → P attempt (
          with_retry
            (reported config job (numbered r attempt))
            (retry_of config job attempt (numbered r attempt))
            rest)) where
  after_call-induct :
      (attempt now : ℕ) (answer : Answer) (go_on : ℕ → EngagementResult → ProtocolRun)
      → attempt ≤ total_attempts config job.platform
      → ((r : EngagementResult)
          → attempt < total_attempts config job.platform
          → returns config job deadline attempt now r ≡ false
          → P (suc attempt) (go_on (now + (retry_of config job attempt r).delay) r))
      → P attempt (after_call config job deadline attempt now answer go_on)
  unfolding after_call
  after_call-induct attempt now (threw error) go_on allowed rest =
      on_raise attempt error now allowed
  after_call-induct attempt now (answered answer) go_on allowed rest =
      elim (Bool-cases (returns config job deadline attempt now (numbered answer attempt))) [
        | inl e ↦ rw (e, after_call) (on_return attempt answer now allowed e)
        | inr e ↦
            rw (e, after_call)
              (on_retry attempt answer now
                (go_on (now + (retry_of config job attempt (numbered answer attempt)).delay)
                  (numbered answer attempt))
                (returns-last config job deadline attempt now (numbered answer attempt) allowed e) e
                (rest (numbered answer attempt)
                  (returns-last config job deadline attempt now (numbered answer attempt) allowed e)
                  e))
      ]

  -- What holds of every run, if it holds where a call raises, where a result is returned, and where
  -- a result is tried again.
  pub run-induct :
      (calls : ℕ → Transport → Call) (left attempt now : ℕ) (result : Option EngagementResult)
      → attempt + left ≡ total_attempts config job.platform
      → (ltb (max_attempts_of config job.platform) attempt
          && gives_up job.platform deadline now result)
        ≡ false
      → P attempt (attempts_from config job calls deadline (suc left) attempt now result)
  unfolding attempts_from
  run-induct calls zero attempt now result total ready =
      rw (ready, attempts_from)
        (after_call-induct attempt _ _ _ (ground arith)
          (λ r strict e. absurd (last attempt _ total strict)))
  run-induct calls (suc left) attempt now result total ready =
      rw (ready, attempts_from)
        (after_call-induct attempt _ _ _ (ground arith) (λ r strict e.
          run-induct calls left (suc attempt) _ (some r) (ground arith)
            (returns-ready config job deadline attempt _ r e)))

  -- The same of a whole run, where an attempt is allowed.
  pub run_protocol_handler-induct :
      (calls : ℕ → Transport → Call) (now : ℕ)
      → deadline ≡ now + 25000
      → 0 < max_attempts_of config job.platform
      → P 1 (run_protocol_handler config job calls now)
  unfolding run_protocol_handler
  run_protocol_handler-induct calls now at allowed =
      subst
        (λ d.
          P 1 (attempts_from config job calls d (total_attempts config job.platform) 1 now none))
        at
        (subst (λ n. P 1 (attempts_from config job calls deadline n 1 now none))
          (suc_pred _ (total_attempts-positive config job.platform allowed))
          (run-induct calls (total_attempts config job.platform - 1) 1 now none
            (add_pred _ (total_attempts-positive config job.platform allowed))
            (first_ready _ _ allowed)))
