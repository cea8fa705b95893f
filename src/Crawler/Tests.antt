-- ===== src/Crawler/Tests.antt =====
-- The crawler at concrete inputs.
use creator_engagement_proje.Base.{
  ℕ, suc, ◌+◌, ◌*◌, ◌≤◌, ◌%◌, if◌then◌else◌, ◌==◌, nat_key, string_key, ◌≡◌, refl, String, true,
  false, none, some, List, [], ◌∷◌, ◌++◌, map, arith,
}
use creator_engagement_proje.Base.Dict.{lookup, insert, pop}
use creator_engagement_proje.Engagement.Collected.{complete, partial, blocked, failed, has_stats}
use creator_engagement_proje.Alerts.Status.{Signs, reason}
use creator_engagement_proje.Platforms.Sources.{extended_sources}
use creator_engagement_proje.Crawler.Results.{
  EngagementResult, result_error, no_stats, should_use_browser_fallback,
}
use creator_engagement_proje.Crawler.Circuit.Streaks.{record_circuit_outcome-opens}
use creator_engagement_proje.Crawler.Circuit.{CircuitConfig, Event, recorded, after, streak}
use creator_engagement_proje.Crawler.Protocol.{
  ProtocolConfig, required, Collection, Transport, Call, answered, returned, max_attempts_of,
}
use creator_engagement_proje.Crawler.Protocol.Loop.{run_protocol_handler, attempts_from}
use creator_engagement_proje.Crawler.Protocol.Reports.{
  IsCounted, run_protocol_handler-IsCounted, run_protocol_handler-failures, report, last_report,
}
use creator_engagement_proje.Crawler.Browser.{
  BrowserConfig, BrowserCall, gave, broke, run_browser_fallback, run_browser_fallback-deadline,
}
use creator_engagement_proje.Crawler.Fetch.{CrawlerConfig, Collaborators, collect}
use creator_engagement_proje.Crawler.Fetch.Enrichment.{
  IsCompletedRun, enriching_result, collect-enriches,
}

abbrev circuits : CircuitConfig
circuits = record { failure_threshold = 2; cooldown = 60000 }

abbrev outcomes : List Event
outcomes =
    recorded 20 "weibo" failed
    ∷ recorded 15 "douyin" blocked
    ∷ recorded 10 "weibo" complete
    ∷ recorded 5 "weibo" failed
    ∷ []

-- The second failure in a row opens the circuit.
second_failure_opens :
    lookup "weibo" (after circuits (recorded 30 "weibo" blocked ∷ outcomes)).open_until ≡ some 60030
unfolding after lookup pop insert
second_failure_opens = refl

abbrev signs_in : String → Signs
signs_in text = record {
  text = text;
  codes = [];
  login = false;
  limited = false;
  rejected = false;
  transport = true;
  protocol = false;
  connection = false;
  login_code = false;
  risk_code = false;
  stopped = false;
}

abbrev crawling : ProtocolConfig
crawling = record {
  max_protocol_attempts = 2;
  platform_protocol_max_attempts = [];
  protocol_retry_base = 500;
  proxy_mode = required;
  has_leases = true;
  signs = signs_in;
}

abbrev article : Collection
article = record {
  url = "https://www.toutiao.com/article/1/";
  platform = "toutiao";
  work_id = "1";
  wanted = record { include_stats = true; include_comments = true };
}

abbrev dead_proxy : EngagementResult
dead_proxy = result_error "toutiao" article.url "1" failed (reason (signs_in "connection reset"))

abbrev found : EngagementResult
found = record dead_proxy {
  collection = record (dead_proxy.collection) { coverage = partial; reason = "" };
  stats = record no_stats { likes = some 7; comments = some 0 };
  needs_browser_stats = true;
  status = none;
}

-- Two calls fail in transport, and the third one, an extra one, succeeds.
abbrev calls : ℕ → Transport → Call
calls (suc (suc (suc n))) scopes = record {
  lead = 0;
  duration = 900;
  answer = answered found;
  trail = 10;
}
calls n scopes = record { lead = 0; duration = 4000; answer = answered dead_proxy; trail = 10 }

third_call_found :
    (run_protocol_handler crawling article calls 0).finish
    ≡ returned (record found { collection = record (found.collection) { protocol_attempts = 3 } })
unfolding run_protocol_handler attempts_from lookup result_error has_stats
third_call_found = refl

record_circuit_outcome-opens_example :
    lookup "weibo" (after circuits (recorded 30 "weibo" blocked ∷ outcomes)).open_until ≡ (
      if streak "weibo" (recorded 30 "weibo" blocked ∷ outcomes) % 2 == 0
      then some (30 + 60000)
      else lookup "weibo" (after circuits outcomes).open_until)
record_circuit_outcome-opens_example =
    record_circuit_outcome-opens circuits outcomes 30 "weibo" blocked (omega arith) refl

run_protocol_handler-IsCounted_example :
    IsCounted crawling article 25000 1 (run_protocol_handler crawling article calls 0)
unfolding max_attempts_of lookup
run_protocol_handler-IsCounted_example =
    run_protocol_handler-IsCounted crawling article calls 0 (omega arith)

run_protocol_handler-failures_example :
    (run_protocol_handler crawling article calls 0).failures
    ≡ map report (run_protocol_handler crawling article calls 0).retries
      ++ last_report crawling article (run_protocol_handler crawling article calls 0).finish
unfolding max_attempts_of lookup
run_protocol_handler-failures_example =
    run_protocol_handler-failures crawling article calls 0 (omega arith) refl

abbrev browsing : BrowserConfig
browsing = record { has_browser = true; max_browser_attempts = 3; signs = signs_in }

-- The first call breaks after 20 seconds, and the second one is cut.
abbrev visits : ℕ → BrowserCall
visits n = record { duration = 20000 * n; answer = broke "PageError" "closed" }

run_browser_fallback-deadline_example :
    (run_browser_fallback browsing article visits false 0).ended_at ≤ 0 + 60000
run_browser_fallback-deadline_example =
    run_browser_fallback-deadline browsing article visits false 0 refl

browser_is_cut : (run_browser_fallback browsing article visits false 0).ended_at ≡ 60000
unfolding run_browser_fallback result_error
browser_is_cut = refl

abbrev crawler : CrawlerConfig
crawler = record {
  protocol = crawling;
  fallback = record { strict_anonymous_mode = false; has_xiaohongshu_session_store = false };
  browser = browsing;
}

abbrev viewed : EngagementResult
viewed = record found {
  collection = record (found.collection) { reason = "page"; source = "browser" };
  stats = record no_stats { views = some 90; likes = some 8 };
}

abbrev helpers : Collaborators
helpers = record {
  resolver = none;
  handler = some calls;
  browser = λ n. record { duration = 3000; answer = gave viewed };
}

abbrev protocol_result : EngagementResult
protocol_result = record found { collection = record (found.collection) { protocol_attempts = 3 } }

collect-enriches_example :
    IsCompletedRun "reads"
      (enriching_result crawler article helpers.browser protocol_result
        (run_protocol_handler crawling article calls 0).ended_at)
      protocol_result
      (collect crawler helpers article 0)
unfolding run_protocol_handler attempts_from lookup result_error has_stats
collect-enriches_example =
    collect-enriches crawler helpers article 0 calls protocol_result "reads" refl refl refl

-- The browser's views are added to the protocol's likes and comments.
views_are_added :
    (collect crawler helpers article 0).finish
    ≡ returned (record protocol_result {
      collection = record (protocol_result.collection) {
        source = "protocol + browser";
        reason = "page";
      };
      stats = record no_stats { views = some 90; likes = some 8; comments = some 0 };
    })
unfolding collect should_use_browser_fallback run_protocol_handler attempts_from
    run_browser_fallback lookup result_error has_stats extended_sources
views_are_added = refl
