-- ===== src/Crawler/Results.antt =====
-- What a collector gives: EngagementResult (app/models/engagement.py) with the marks that
-- collectors set on it, result_error (app/crawlers/platforms/common.py), and the decisions on a
-- result in app/crawlers/engagement.py: `_should_retry_protocol`, `_should_use_browser_fallback`.
use text.Mathlib.Text.{starts_with}
use creator_engagement_proje.Base.{
  String, Bool, true, false, not, ◌&&◌, ◌||◌, Option, none, some, List, [], ◌∷◌, ◌==◌, string_key,
  nat_key, option_beq, bool_key, contains,
}
use creator_engagement_proje.Models.{EngagementComment}
use creator_engagement_proje.Engagement.Collected.{
  Coverage, complete, partial, blocked, failed, unsupported, EngagementStats, CollectionResult,
  has_stats,
}
use creator_engagement_proje.Platforms.Sources.{is_extended}
use creator_engagement_proje.Alerts.Status.{Category, Error, signs_of, status_error}

-- `retryable` is none where no collector sets it; the marks after it are false where none does.
pub record EngagementResult : Type 0 where
  pub collection : CollectionResult
  pub open collection use *
  pub stats : EngagementStats
  pub comments : List EngagementComment
  pub next_cursor : Option String
  pub resume_cursor : Option String
  pub status : Option Category
  pub retryable : Option Bool
  pub retryable_partial : Bool
  pub needs_browser_stats : Bool
  pub circuit_open : Bool
  pub stats_block_reason : Option String

abbrev pub no_stats : EngagementStats
no_stats = record {
  views = none;
  likes = none;
  comments = none;
  shares = none;
  favorites = none;
  coins = none;
  danmaku = none;
  reposts = none;
  recommendations = none;
  extra = [];
}

unfoldable pub result_error : String → String → String → Coverage → Error → EngagementResult
unfolding status_error
result_error platform url work_id coverage error = record {
  collection = record {
    platform = platform;
    canonical_url = url;
    work_id = work_id;
    coverage = coverage;
    reason = (signs_of error).text;
    source = "protocol";
    protocol_attempts = 1;
  };
  stats = no_stats;
  comments = [];
  next_cursor = none;
  resume_cursor = none;
  status = status_error error;
  retryable = none;
  retryable_partial = false;
  needs_browser_stats = false;
  circuit_open = false;
  stats_block_reason = none;
}

-- Whether statistics and comments are asked for.
pub record Wanted : Type 0 where
  pub include_stats : Bool
  pub include_comments : Bool

-- coverage in {"blocked", "failed"}, and {"complete", "partial"}
abbrev pub is_failure : Coverage → Bool
is_failure coverage = elim coverage [ blocked ↦ true | failed ↦ true | _ ↦ false ]

abbrev pub is_usable : Coverage → Bool
is_usable coverage = elim coverage [ complete ↦ true | partial ↦ true | _ ↦ false ]

abbrev pub has_comments : EngagementResult → Bool
has_comments r = elim r.comments [ [] ↦ false | c ∷ cs ↦ true ]

-- result.stats.comments == 0
abbrev pub has_no_comments : EngagementResult → Bool
has_no_comments r = option_beq r.stats.comments (some 0)

abbrev pub is_final : EngagementResult → Bool
is_final r = option_beq r.retryable (some false)

unfoldable pub should_retry_protocol : Wanted → EngagementResult → Bool
should_retry_protocol wanted r = not (is_final r) && (elim r.coverage [
  | blocked ↦ true
  | failed ↦ true
  | unsupported ↦ false
  | complete ↦ false
  | partial ↦
      r.retryable_partial
      || (wanted.include_stats && not (has_stats r.stats))
      || (wanted.include_comments && not (has_comments r) && not (has_no_comments r))
])

-- What decides on the browser beside the result.
pub record FallbackConfig : Type 0 where
  pub strict_anonymous_mode : Bool
  pub has_xiaohongshu_session_store : Bool

abbrev pub without_browser : List String
without_browser =
    "sina" ∷ "sina_finance" ∷ "baijiahao" ∷ "yoojia" ∷ "dongchedi" ∷ "netease" ∷ "autohome"
    ∷ "ixigua" ∷ "qq_stock" ∷ "douyin" ∷ "weibo" ∷ []

-- The tests that return False before the result's data are looked at, in their order.
unfoldable pub excludes_browser : FallbackConfig → Wanted → EngagementResult → Bool
unfolding is_extended
excludes_browser config wanted r =
    is_extended r.platform
    || contains without_browser r.platform
    || is_final r
    || r.circuit_open
    || (config.strict_anonymous_mode
        && wanted.include_comments
        && (r.platform == "wechat" || r.platform == "wechat_channels"))
    || r.platform == "wechat"
    || (r.platform == "wechat_channels" && wanted.include_comments)
    || (r.platform == "xiaohongshu"
        && wanted.include_comments
        && config.has_xiaohongshu_session_store)
    || (r.platform == "wechat_channels" && starts_with r.work_id "export/")
    || (r.platform == "xiaohongshu" && wanted.include_stats && not wanted.include_comments)

unfoldable pub should_use_browser_fallback : FallbackConfig → Wanted → EngagementResult → Bool
unfolding excludes_browser
should_use_browser_fallback config wanted r =
    not (excludes_browser config wanted r)
    && (is_failure r.coverage
        || (elim r.coverage [ unsupported ↦ true | _ ↦ false ])
        || (wanted.include_stats && r.needs_browser_stats)
        || (wanted.include_stats && not (has_stats r.stats))
        || (wanted.include_comments
            && not (has_comments r)
            && (elim r.coverage [ partial ↦ true | _ ↦ false ])
            && not (has_no_comments r)))
