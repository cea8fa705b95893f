-- ===== src/Crawler/Protocol.antt =====
-- `_run_protocol_handler` of EngagementCrawler (app/crawlers/engagement.py): a platform's handler
-- is called until its result is not worth another attempt. Instants and durations are natural
-- numbers, in milliseconds.
pub mod Loop
pub mod Attempts
pub mod Reports
use creator_engagement_proje.Base.{
  ℕ, zero, suc, ◌+◌, ◌*◌, ◌-◌, ◌^◌, String, Bool, true, false, not, ◌&&◌, ◌||◌, Option, none, some,
  List, [], ◌∷◌, ◌++◌, ltb, leb, if◌then◌else◌, ◌==◌, string_key, nat_key, max,
}
use creator_engagement_proje.Base.Dict.{Dict, lookup}
use creator_engagement_proje.Engagement.Collected.{Coverage, failed}
use creator_engagement_proje.Alerts.Status.{
  Category, transport_error, risk_limited, Signs, Error, reason,
}
use creator_engagement_proje.Crawler.Results.{
  EngagementResult, result_error, Wanted, should_retry_protocol,
}

-- The client's `proxy_mode`.
pub data ProxyMode : Type 0 where
  direct prefer required : ProxyMode

-- `has_leases`: the client has the scopes of CurlAsyncHttpClient. `signs`: what the expressions of status_errors.py find
-- in a text.
pub record ProtocolConfig : Type 0 where
  pub max_protocol_attempts : ℕ
  pub platform_protocol_max_attempts : Dict String ℕ
  pub protocol_retry_base : ℕ
  pub proxy_mode : ProxyMode
  pub has_leases : Bool
  pub signs : String → Signs

-- What is collected.
pub record Collection : Type 0 where
  pub url : String
  pub platform : String
  pub work_id : String
  pub wanted : Wanted

-- The scopes around a call of the handler: `direct_scope`, and `isolated_session_scope`.
pub record Transport : Type 0 where
  pub is_direct : Bool
  pub is_isolated : Bool

pub data Answer : Type 0 where
  answered : EngagementResult → Answer
  threw : Error → Answer

-- A call of the handler: what it gives if it is given the time, how long that takes, and the time
-- that its scopes take before and after it.
pub record Call : Type 0 where
  pub lead : ℕ
  pub duration : ℕ
  pub answer : Answer
  pub trail : ℕ

-- How the loop ends: `assert result is not None` fails where no attempt is allowed.
pub data Finish : Type 0 where
  returned : EngagementResult → Finish
  raised : Error → Finish
  no_result : Finish

-- A warning `protocol_retry`.
pub record Retry : Type 0 where
  pub attempt : ℕ
  pub delay : ℕ
  pub coverage : Coverage
  pub why : String

-- `failures`: the calls of the client's `record_collection_failure`, in their order.
pub record ProtocolRun : Type 0 where
  pub finish : Finish
  pub ended_at : ℕ
  pub failures : List (Coverage × String)
  pub retries : List Retry

abbrev pub is_required : ProxyMode → Bool
is_required mode = elim mode [ required ↦ true | _ ↦ false ]

abbrev pub is_prefer : ProxyMode → Bool
is_prefer mode = elim mode [ prefer ↦ true | _ ↦ false ]

abbrev pub stats_only : Wanted → Bool
stats_only wanted = wanted.include_stats && not wanted.include_comments

unfoldable pub transport_of : ProtocolConfig → String → Transport
transport_of config platform = record {
  is_direct =
      config.has_leases
      && (platform == "douyin" || platform == "weibo")
      && is_prefer config.proxy_mode;
  is_isolated = config.has_leases && platform == "douyin";
}

unfoldable pub max_attempts_of : ProtocolConfig → String → ℕ
max_attempts_of config platform = elim (lookup platform config.platform_protocol_max_attempts) [
  | none ↦ config.max_protocol_attempts
  | some n ↦ n
]

unfoldable pub recovery_enabled : ProtocolConfig → String → Bool
recovery_enabled config platform =
    (platform == "weibo" || platform == "toutiao") && is_required config.proxy_mode

unfoldable pub total_attempts : ProtocolConfig → String → ℕ
unfolding max_attempts_of recovery_enabled
total_attempts config platform =
    max_attempts_of config platform + (if recovery_enabled config platform then 2 else 0)

unfoldable pub retry_delay : ProtocolConfig → String → ℕ → Wanted → ℕ
retry_delay config platform attempt wanted =
    if platform == "xiaohongshu" && stats_only wanted
    then 0
    else if platform == "douyin" || platform == "weibo"
    then 0
    else max config.protocol_retry_base
        (if platform == "xiaohongshu" && wanted.include_comments then 4000 else 0)
      * 2 ^ (attempt - 1)

-- result._status_error in transient_errors
unfoldable pub is_transient : String → EngagementResult → Bool
is_transient platform r = elim r.status [
  | none ↦ false
  | some category ↦ elim category [
    | transport_error ↦ true
    | risk_limited ↦ platform == "toutiao"
    | _ ↦ false
  ]
]

-- The test at the head of an attempt beyond the allowed ones.
unfoldable pub gives_up : String → ℕ → ℕ → Option EngagementResult → Bool
gives_up platform deadline now none = true
gives_up platform deadline now (some r) = not (is_transient platform r) || leb deadline now

-- The instant at which a call's handler is over, and what it gave: no more than the time that
-- remains is given to it.
unfoldable pub invoke_handler : ProtocolConfig → Collection → Option ℕ → ℕ → Call → ℕ × Answer
invoke_handler config job none now call = (now + call.lead + call.duration, call.answer)
invoke_handler config job (some remaining) now call =
    if ltb call.duration remaining then (now + call.lead + call.duration, call.answer) else (
      now + call.lead + remaining,
      answered (
          result_error job.platform job.url job.work_id failed
            (reason (config.signs "代理恢复超时：额外换出口已达到 25 秒协议恢复预算"))),
    )

-- The tests after an attempt that return its result.
unfoldable pub returns : ProtocolConfig → Collection → ℕ → ℕ → ℕ → EngagementResult → Bool
unfolding max_attempts_of total_attempts is_transient should_retry_protocol
returns config job deadline attempt now r =
    not (should_retry_protocol job.wanted r)
    || (job.platform == "xiaohongshu"
        && stats_only job.wanted
        && not (is_required config.proxy_mode))
    || attempt == total_attempts config job.platform
    || (leb (max_attempts_of config job.platform) attempt
        && (not (is_transient job.platform r) || leb deadline now))

abbrev pub reported : ProtocolConfig → Collection → EngagementResult → List (Coverage × String)
reported config job r =
    if config.has_leases && should_retry_protocol job.wanted r
    then (r.coverage, r.reason) ∷ []
    else []

unfoldable pub retry_of : ProtocolConfig → Collection → ℕ → EngagementResult → Retry
unfolding max_attempts_of retry_delay
retry_of config job attempt r = record {
  attempt = attempt;
  delay =
      if leb (max_attempts_of config job.platform) attempt
      then 0
      else retry_delay config job.platform attempt job.wanted;
  coverage = r.coverage;
  why = r.reason;
}
