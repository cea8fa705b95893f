-- ===== src/Crawler/Browser.antt =====
-- `_run_browser_fallback` of EngagementCrawler (app/crawlers/engagement.py), in milliseconds. The
-- browser itself is a parameter: `BrowserFallback.fetch` gives a result or raises.
use Prim.Native.String.{◌++◌ as join_text}
use creator_engagement_proje.Base.{
  ℕ, zero, suc, ◌+◌, ◌-◌, ◌≤◌, ◌≡◌, String, Bool, true, false, not, ◌&&◌, ◌||◌, Option, none, some,
  ltb, leb, if◌then◌else◌, ◌==◌, string_key, arith, Bool-cases, inl, inr,
}
use creator_engagement_proje.Engagement.Collected.{failed, has_stats}
use creator_engagement_proje.Alerts.Status.{Signs, reason}
use creator_engagement_proje.Crawler.Results.{
  EngagementResult, result_error, Wanted, is_usable, is_final, has_comments, has_no_comments,
}
use creator_engagement_proje.Crawler.Protocol.{Collection}

-- An exception of the browser has a type and a text.
pub data BrowserAnswer : Type 0 where
  gave : EngagementResult → BrowserAnswer
  broke : (type_name text : String) → BrowserAnswer

-- A call of the browser: what it gives if it is given the time, and how long that takes.
pub record BrowserCall : Type 0 where
  pub duration : ℕ
  pub answer : BrowserAnswer

-- `signs`: what the expressions of status_errors.py find in a text.
pub record BrowserConfig : Type 0 where
  pub has_browser : Bool
  pub max_browser_attempts : ℕ
  pub signs : String → Signs

pub record BrowserRun : Type 0 where
  pub result : Option EngagementResult
  pub ended_at : ℕ

abbrev pub browser_seconds : Bool → ℕ
browser_seconds enrich_stats = if enrich_stats then 25000 else 60000

abbrev pub has_deadline : String → Bool
has_deadline platform = platform == "toutiao" || platform == "kuaishou"

abbrev failure : BrowserConfig → Collection → String → EngagementResult
failure config job text =
    result_error job.platform job.url job.work_id failed (reason (config.signs text))

unfoldable pub timeout_text : String → Bool → String
timeout_text platform enrich_stats =
    join_text (if platform == "kuaishou" then "快手" else "头条")
      (join_text "浏览器恢复超时：" (join_text (if enrich_stats then "25" else "60") " 秒内未取得可验证目标数据"))

-- What a call that was given its time leaves.
unfoldable pub browser_result : BrowserConfig → Collection → BrowserAnswer → EngagementResult
browser_result config job (gave r) = r
browser_result config job (broke type_name text) =
    failure config job (join_text "浏览器兜底调用失败: " (join_text type_name (join_text ": " text)))

-- The tests that return a result without another attempt.
unfoldable pub is_enough : Wanted → EngagementResult → Bool
is_enough wanted r =
    is_final r
    || (is_usable r.coverage
        && (not wanted.include_stats || has_stats r.stats)
        && (not wanted.include_comments || has_comments r || has_no_comments r))

-- The loop from an attempt on, with a deadline or none; `calls n` is the n-th call of the browser.
unfoldable pub browser_from :
    BrowserConfig
    → Collection
    → (ℕ → BrowserCall)
    → Bool
    → Option ℕ
    → ℕ
    → ℕ
    → ℕ
    → Option EngagementResult
    → BrowserRun
unfolding is_enough browser_result
browser_from config job calls enrich deadline zero attempt now result = record {
  result = result;
  ended_at = now;
}
browser_from config job calls enrich none (suc left) attempt now result =
    let at = now + (calls attempt).duration in
    let r = browser_result config job (calls attempt).answer in
    elim (is_enough job.wanted r) [
      | true ↦ record { result = some r; ended_at = at }
      | false ↦ browser_from config job calls enrich none left (suc attempt) at (some r)
    ]
browser_from config job calls enrich (some deadline) (suc left) attempt now result =
    elim (leb deadline now) [
      | true ↦ record { result = result; ended_at = now }
      | false ↦ elim (ltb (calls attempt).duration (deadline - now)) [
        | false ↦ record {
          result = some (failure config job (timeout_text job.platform enrich));
          ended_at = now + (deadline - now);
        }
        | true ↦
            let at = now + (calls attempt).duration in
            let r = browser_result config job (calls attempt).answer in
            elim (is_enough job.wanted r) [
              | true ↦ record { result = some r; ended_at = at }
              | false ↦
                  browser_from config job calls enrich (some deadline) left (suc attempt) at
                    (some r)
            ]
      ]
    ]

unfoldable pub run_browser_fallback :
    BrowserConfig → Collection → (ℕ → BrowserCall) → Bool → ℕ → BrowserRun
unfolding browser_from
run_browser_fallback config job calls enrich now =
    if config.has_browser
    then browser_from config job calls enrich
        (if has_deadline job.platform then some (now + browser_seconds enrich) else none)
        (if enrich then 1 else config.max_browser_attempts) 1 now none
    else record { result = none; ended_at = now }

no_later : (now deadline : ℕ) → now ≤ deadline → now + (deadline - now) ≤ deadline
no_later now deadline within = omega arith

in_time :
    (now deadline duration : ℕ)
    → now ≤ deadline
    → ltb duration (deadline - now) ≡ true
    → now + duration ≤ deadline
in_time now deadline duration within under = ground arith

browser_from-deadline :
    (config : BrowserConfig) (job : Collection) (calls : ℕ → BrowserCall) (enrich : Bool)
    (deadline left attempt now : ℕ) (result : Option EngagementResult)
    → now ≤ deadline
    → (browser_from config job calls enrich (some deadline) left attempt now result).ended_at
      ≤ deadline
unfolding browser_from
browser_from-deadline config job calls enrich deadline zero attempt now result within = within
browser_from-deadline config job calls enrich deadline (suc left) attempt now result within =
    elim (Bool-cases (leb deadline now)) [
      | inl late ↦ rw (late, browser_from) within
      | inr early ↦
          rw (early, browser_from)
            elim (Bool-cases (ltb (calls attempt).duration (deadline - now))) [
              | inr over ↦ rw over (no_later now deadline within)
              | inl under ↦
                  rw under
                    elim (Bool-cases
                      (is_enough job.wanted (browser_result config job (calls attempt).answer))) [
                        | inl settled ↦ rw settled (in_time now deadline _ within under)
                        | inr again ↦ rw again (
                            browser_from-deadline config job calls enrich deadline left
                              (suc attempt) (now + (calls attempt).duration)
                              (some (browser_result config job (calls attempt).answer))
                              (in_time now deadline _ within under))
                      ]
            ]
    ]

-- On a platform with a deadline, the browser is done within its 60 seconds, or 25 where it only
-- completes statistics, however many attempts are allowed and however long their calls take.
pub run_browser_fallback-deadline :
    (config : BrowserConfig) (job : Collection) (calls : ℕ → BrowserCall) (enrich : Bool) (now : ℕ)
    → has_deadline job.platform ≡ true
    → (run_browser_fallback config job calls enrich now).ended_at ≤ now + browser_seconds enrich
unfolding run_browser_fallback
run_browser_fallback-deadline config job calls enrich now limited =
    elim (Bool-cases config.has_browser) [
      | inr absent ↦ rw absent (omega arith)
      | inl present ↦
          rw (present, limited)
            (browser_from-deadline config job calls enrich (now + browser_seconds enrich)
              (if enrich then 1 else config.max_browser_attempts) 1 now none (omega arith))
    ]
