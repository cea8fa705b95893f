-- ===== src/Crawler/Protocol/Loop.antt =====
-- The loop of `_run_protocol_handler` (app/crawlers/engagement.py).
use creator_engagement_proje.Base.{
  ℕ, zero, suc, ◌+◌, ◌-◌, String, true, false, ◌&&◌, Option, none, some, List, [], ◌∷◌, ◌++◌, ltb,
  if◌then◌else◌, string_key, nat_key,
}
use creator_engagement_proje.Engagement.Collected.{Coverage}
use creator_engagement_proje.Crawler.Results.{EngagementResult}
use creator_engagement_proje.Crawler.Protocol.{
  transport_of, max_attempts_of, total_attempts, gives_up, invoke_handler, returns, reported,
  retry_of, ProtocolConfig, Collection, Transport, Answer, Call, Finish, Retry, ProtocolRun,
  answered, threw, returned, raised, no_result,
}

abbrev pub ended : Finish → ℕ → ProtocolRun
ended finish now = record { finish = finish; ended_at = now; failures = []; retries = [] }

-- The last result, or the assertion that there is one.
abbrev pub give_up : Option EngagementResult → ℕ → ProtocolRun
give_up none now = ended no_result now
give_up (some r) now = ended (returned r) now

abbrev pub with_retry : List (Coverage × String) → Retry → ProtocolRun → ProtocolRun
with_retry failures retry rest = record {
  finish = rest.finish;
  ended_at = rest.ended_at;
  failures = failures ++ rest.failures;
  retries = retry ∷ rest.retries;
}

abbrev pub numbered : EngagementResult → ℕ → EngagementResult
numbered r attempt = record r { collection = record (r.collection) { protocol_attempts = attempt } }

-- What follows a call of the handler; `go_on` runs the attempts after it.
unfoldable pub after_call :
    ProtocolConfig
    → Collection
    → ℕ
    → ℕ
    → ℕ
    → Answer
    → (ℕ → EngagementResult → ProtocolRun)
    → ProtocolRun
unfolding returns retry_of
after_call config job deadline attempt now (threw error) go_on = ended (raised error) now
after_call config job deadline attempt now (answered answer) go_on =
    let r = numbered answer attempt in
    elim (returns config job deadline attempt now r) [
      | true ↦ record {
        finish = returned r;
        ended_at = now;
        failures = reported config job r;
        retries = [];
      }
      | false ↦
          let retry = retry_of config job attempt r in
          with_retry (reported config job r) retry (go_on (now + retry.delay) r)
    ]

-- The loop from an attempt on, where `left` attempts are left. `calls n t` is the n-th call of the
-- handler, in the scopes t.
unfoldable pub attempts_from :
    ProtocolConfig
    → Collection
    → (ℕ → Transport → Call)
    → ℕ
    → ℕ
    → ℕ
    → ℕ
    → Option EngagementResult
    → ProtocolRun
unfolding max_attempts_of gives_up invoke_handler transport_of after_call
attempts_from config job calls deadline zero attempt now result = give_up result now
attempts_from config job calls deadline (suc left) attempt now result =
    let is_extra = ltb (max_attempts_of config job.platform) attempt in
    elim (is_extra && gives_up job.platform deadline now result) [
      | true ↦ give_up result now
      | false ↦
          let call = calls attempt (transport_of config job.platform) in
          let remaining = if is_extra then some (deadline - now) else none in
          let done = invoke_handler config job remaining now call in
          after_call config job deadline attempt (done.0 + call.trail) done.1 (λ then_at r.
            attempts_from config job calls deadline left (suc attempt) then_at (some r))
    ]

unfoldable pub run_protocol_handler :
    ProtocolConfig → Collection → (ℕ → Transport → Call) → ℕ → ProtocolRun
unfolding total_attempts
run_protocol_handler config job calls now =
    attempts_from config job calls (now + 25000) (total_attempts config job.platform) 1 now none
