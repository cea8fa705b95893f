-- ===== src/Crawler/Fetch.antt =====
-- `_fetch` of EngagementCrawler (app/crawlers/engagement.py) from the identified work on: the
-- handler's run, the browser where it can help, and what is kept of both.
pub mod Statistics
pub mod Enrichment
use Prim.Native.String.{◌++◌ as join_text}
use creator_engagement_proje.Base.{
  ℕ, ◌+◌, String, Bool, true, false, not, ◌&&◌, ◌||◌, Option, none, some, List, [], ◌∷◌,
  if◌then◌else◌, ◌==◌, string_key, is_none, any,
}
use creator_engagement_proje.Base.Dict.{Dict, insert, values}
use creator_engagement_proje.Engagement.Collected.{Coverage, blocked, unsupported, EngagementStats}
use creator_engagement_proje.Alerts.Status.{Error, reason}
use creator_engagement_proje.Crawler.Results.{
  EngagementResult, result_error, Wanted, is_usable, FallbackConfig, should_use_browser_fallback,
}
use creator_engagement_proje.Crawler.Circuit.{Event, recorded}
use creator_engagement_proje.Crawler.Protocol.{
  ProtocolConfig, Collection, Transport, Call, Finish, returned, raised, no_result, ProtocolRun,
}
use creator_engagement_proje.Crawler.Protocol.Loop.{run_protocol_handler, numbered}
use creator_engagement_proje.Crawler.Browser.{
  BrowserConfig, BrowserCall, BrowserRun, run_browser_fallback,
}

-- browser_result.stats.model_dump(exclude_none=True) over a field, and over the named fields.
abbrev pub updated_value : Option ℕ → Option ℕ → Option ℕ
updated_value none old = old
updated_value (some n) old = some n

unfoldable pub updated_extra :
    Dict String (Option ℕ) → Dict String (Option ℕ) → Dict String (Option ℕ)
updated_extra [] old = old
updated_extra ((name, none) ∷ fields) old = updated_extra fields old
updated_extra ((name, some n) ∷ fields) old = updated_extra fields (insert name (some n) old)

-- result.stats.model_copy(update=fields)
unfoldable pub updated_stats : EngagementStats → EngagementStats → EngagementStats
unfolding updated_extra
updated_stats new old = record {
  views = updated_value new.views old.views;
  likes = updated_value new.likes old.likes;
  comments = updated_value new.comments old.comments;
  shares = updated_value new.shares old.shares;
  favorites = updated_value new.favorites old.favorites;
  coins = updated_value new.coins old.coins;
  danmaku = updated_value new.danmaku old.danmaku;
  reposts = updated_value new.reposts old.reposts;
  recommendations = updated_value new.recommendations old.recommendations;
  extra = updated_extra new.extra old.extra;
}

-- any(key != "comments" for key in fields)
unfoldable pub has_other_stats : EngagementStats → Bool
has_other_stats s =
    any (λ value. not (is_none value))
      (s.views
        ∷ s.likes
        ∷ s.shares
        ∷ s.favorites
        ∷ s.coins
        ∷ s.danmaku
        ∷ s.reposts
        ∷ s.recommendations
        ∷ values s.extra)

abbrev with_reason : String → String → EngagementResult → EngagementResult
with_reason source text r = record r {
  collection = record (r.collection) { source = source; reason = text };
}

-- What is said of a browser that brought no statistics.
abbrev pub with_block : Option String → EngagementResult → EngagementResult
with_block none r = r
with_block (some text) r =
    if text == "" then r else with_reason r.source (join_text r.reason (join_text "；" text)) r

-- The branch `if enrich_stats`.
unfoldable pub enriched : EngagementResult → EngagementResult → EngagementResult
unfolding has_other_stats updated_stats
enriched browser r =
    if is_usable browser.coverage && browser.platform == r.platform && browser.work_id == r.work_id
    then (if has_other_stats browser.stats
        then record (with_reason (join_text r.source (join_text " + " browser.source))
            browser.reason r) { stats = updated_stats browser.stats r.stats }
        else with_block browser.stats_block_reason r)
    else if browser.reason == ""
    then r
    else with_reason r.source (join_text r.reason (join_text "；统计补充未完成：" browser.reason)) r

-- What is kept of the protocol's result and the browser's.
unfoldable pub merged : Bool → Option EngagementResult → EngagementResult → EngagementResult
unfolding enriched
merged enrich none r = r
merged enrich (some browser) r =
    if enrich then enriched browser r else numbered browser r.protocol_attempts

-- What the resolver of Xiaohongshu addresses gives: an address, XiaohongshuUrlResolutionError,
-- PlatformCrawlerError, or another exception.
pub data Resolution : Type 0 where
  resolved : String → Resolution
  unresolvable crawler_failed broke : Error → Resolution

-- The collaborators of one `_fetch`: the resolver, if there is one; the platform's handler, if one
-- is registered; the browser.
pub record Collaborators : Type 0 where
  pub resolver : Option Resolution
  pub handler : Option (ℕ → Transport → Call)
  pub browser : ℕ → BrowserCall

pub record CrawlerConfig : Type 0 where
  pub protocol : ProtocolConfig
  pub fallback : FallbackConfig
  pub browser : BrowserConfig

-- How a fetch ends, when, and what it records in the circuits.
pub record FetchRun : Type 0 where
  pub finish : Finish
  pub ended_at : ℕ
  pub event : Option Event

abbrev rejected : Collection → Coverage → Error → ℕ → FetchRun
rejected job coverage error now = record {
  finish = returned (record (result_error job.platform job.url job.work_id coverage error) {
    retryable = some false;
  });
  ended_at = now;
  event = none;
}

-- From the protocol's result on.
unfoldable pub after_protocol :
    CrawlerConfig → Collection → (ℕ → BrowserCall) → EngagementResult → ℕ → FetchRun
unfolding merged
after_protocol config job browser r now =
    let run =
      if should_use_browser_fallback config.fallback job.wanted r
      then run_browser_fallback config.browser job browser r.needs_browser_stats now
      else (record { result = none; ended_at = now }) in
    let kept = merged r.needs_browser_stats run.result r in
    record {
      finish = returned kept;
      ended_at = run.ended_at;
      event = some (recorded run.ended_at kept.platform kept.coverage);
    }

-- From the end of the protocol's run on.
unfoldable pub after_finish : CrawlerConfig → Collection → (ℕ → BrowserCall) → Finish → ℕ → FetchRun
unfolding after_protocol
after_finish config job browser (returned r) now = after_protocol config job browser r now
after_finish config job browser (raised error) now = record {
  finish = raised error;
  ended_at = now;
  event = none;
}
after_finish config job browser no_result now = record {
  finish = no_result;
  ended_at = now;
  event = none;
}

-- handler = PLATFORM_HANDLERS.get(platform), and what follows.
unfoldable pub after_lookup :
    CrawlerConfig → Collection → (ℕ → BrowserCall) → Option (ℕ → Transport → Call) → ℕ → FetchRun
unfolding after_finish
after_lookup config job browser none now =
    after_protocol config job browser
      (result_error job.platform job.url job.work_id unsupported (
        reason
          (config.protocol.signs (join_text job.platform " protocol collector is not registered"))))
      now
after_lookup config job browser (some calls) now =
    let run = run_protocol_handler config.protocol job calls now in
    after_finish config job browser run.finish run.ended_at

-- From the end of the circuit's cooldown on.
unfoldable pub collect : CrawlerConfig → Collaborators → Collection → ℕ → FetchRun
unfolding after_lookup
collect config others job now = after_lookup config job others.browser others.handler now

-- `wait` is the time that the circuit's cooldown still takes.
unfoldable pub fetch : CrawlerConfig → Collaborators → Collection → ℕ → ℕ → FetchRun
unfolding collect
fetch config others job wait now =
    if job.platform == "xiaohongshu"
    then (elim others.resolver [
      | none ↦ collect config others job (now + wait)
      | some resolution ↦ elim resolution [
        | resolved url ↦ collect config others (record job { url = url }) (now + wait)
        | unresolvable error ↦ rejected job unsupported error now
        | crawler_failed error ↦ rejected job blocked error now
        | broke error ↦ record { finish = raised error; ended_at = now; event = none }
      ]
    ])
    else collect config others job (now + wait)
