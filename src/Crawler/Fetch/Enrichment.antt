-- ===== src/Crawler/Fetch/Enrichment.antt =====
-- What a fetch keeps of the protocol's result where the browser only completes its statistics.
use creator_engagement_proje.Base.{
  ℕ, ◌≡◌, refl, subst, sym, ap, String, Bool, true, false, ◌&&◌, Option, none, some, ◌==◌,
  string_key, if◌then◌else◌, Bool-cases, inl, inr,
}
use creator_engagement_proje.Engagement.Collected.{EngagementStats}
use creator_engagement_proje.Crawler.Results.{
  no_stats, should_use_browser_fallback, EngagementResult, is_usable,
}
use creator_engagement_proje.Crawler.Circuit.{recorded}
use creator_engagement_proje.Crawler.Protocol.{
  Collection, Transport, Call, returned, raised, no_result,
}
use creator_engagement_proje.Crawler.Protocol.Loop.{run_protocol_handler}
use creator_engagement_proje.Crawler.Browser.{BrowserCall, BrowserRun, run_browser_fallback}
use creator_engagement_proje.Crawler.Fetch.{
  after_lookup, after_finish, has_other_stats, CrawlerConfig, Collaborators, FetchRun, collect,
  after_protocol, merged, enriched, with_block,
}
use creator_engagement_proje.Crawler.Fetch.Statistics.{
  IsCompletedStats, IsCompletedStats-self, IsCompletedStats-updated_stats,
}

-- The statistics of a browser's result that count: those of a usable result on the same work that
-- has another statistic than the number of comments.
abbrev pub supplied : EngagementResult → Option EngagementResult → EngagementStats
supplied r none = no_stats
supplied r (some browser) =
    if is_usable browser.coverage && browser.platform == r.platform && browser.work_id == r.work_id
    then (if has_other_stats browser.stats then browser.stats else no_stats)
    else no_stats

-- All but the source, the reason and the statistics is the same, and the statistics are those that
-- the browser supplies and, where it supplies none, the ones that were there.
unfoldable pub IsCompleted :
    String → Option EngagementResult → EngagementResult → EngagementResult → Type 0
IsCompleted name browser r kept =
    IsCompletedStats name (supplied r browser) r.stats kept.stats
    × (kept ≡ record r {
      collection = record (r.collection) { source = kept.source; reason = kept.reason };
      stats = kept.stats;
    })

-- Where the browser supplies nothing, the statistics stay.
abbrev IsUnsupplied : String → EngagementResult → EngagementResult → Type 0
IsUnsupplied name r kept =
    IsCompletedStats name no_stats r.stats kept.stats
    × (kept ≡ record r {
      collection = record (r.collection) { source = kept.source; reason = kept.reason };
      stats = kept.stats;
    })

IsUnsupplied-self : (name : String) (r : EngagementResult) → IsUnsupplied name r r
IsUnsupplied-self name r = (IsCompletedStats-self name r.stats, refl)

IsUnsupplied-with_block :
    (name : String) (block : Option String) (r : EngagementResult)
    → IsUnsupplied name r (with_block block r)
IsUnsupplied-with_block name none r = IsUnsupplied-self name r
IsUnsupplied-with_block name (some text) r = elim (Bool-cases (text == "")) [
  | inl empty ↦ rw empty (IsUnsupplied-self name r)
  | inr written ↦ rw written (IsCompletedStats-self name r.stats, refl)
]

IsCompleted-enriched :
    (name : String) (browser r : EngagementResult)
    → IsCompleted name (some browser) r (enriched browser r)
unfolding enriched IsCompleted
IsCompleted-enriched name browser r =
    elim (Bool-cases (
      is_usable browser.coverage
      && browser.platform == r.platform
      && browser.work_id == r.work_id)) [
        | inl same ↦ rw same elim (Bool-cases (has_other_stats browser.stats)) [
          | inl filled ↦ rw filled (IsCompletedStats-updated_stats name browser.stats r.stats, refl)
          | inr empty ↦ rw empty (IsUnsupplied-with_block name browser.stats_block_reason r)
        ]
        | inr other ↦ rw other elim (Bool-cases (browser.reason == "")) [
          | inl empty ↦ rw empty (IsUnsupplied-self name r)
          | inr written ↦ rw written (IsCompletedStats-self name r.stats, refl)
        ]
      ]

-- The browser's result, where the protocol's one calls for a browser at an instant.
abbrev pub enriching_result :
    CrawlerConfig → Collection → (ℕ → BrowserCall) → EngagementResult → ℕ → Option EngagementResult
enriching_result config job browser r now =
    if should_use_browser_fallback config.fallback job.wanted r
    then (run_browser_fallback config.browser job browser true now).result
    else none

-- What a fetch that returns keeps of the protocol's result, and what it records in the circuits.
unfoldable pub IsCompletedRun :
    String → Option EngagementResult → EngagementResult → FetchRun → Type 0
IsCompletedRun name browser r run = elim run.finish [
  | returned kept ↦
      IsCompleted name browser r kept
      × (run.event ≡ some (recorded run.ended_at r.platform r.coverage))
  | raised error ↦ ⊥
  | no_result ↦ ⊥
]

IsCompleted-merged :
    (name : String) (enrich : Bool) (browser : Option EngagementResult) (r : EngagementResult)
    → enrich ≡ true
    → IsCompleted name browser r (merged enrich browser r)
unfolding merged IsCompleted
IsCompleted-merged name enrich none r on = IsUnsupplied-self name r
IsCompleted-merged name enrich (some browser) r on = rw on (IsCompleted-enriched name browser r)

IsCompletedRun_lem :
    (name : String) (browser : Option EngagementResult) (r kept : EngagementResult) (at : ℕ)
    → IsCompleted name browser r kept
    → IsCompletedRun name browser r (record {
      finish = returned kept;
      ended_at = at;
      event = some (recorded at kept.platform kept.coverage);
    })
unfolding IsCompletedRun IsCompleted
IsCompletedRun_lem name browser r kept at completed =
    (completed, ap (λ (k : EngagementResult). some (recorded at k.platform k.coverage)) completed.1)

result-browser_run :
    (asks : Bool) (run : Bool → BrowserRun) (now : ℕ) (enrich : Bool)
    → enrich ≡ true
    → (if asks then run enrich else (record { result = none; ended_at = now })).result
      ≡ (if asks then (run true).result else none)
result-browser_run true run now enrich on = rw on refl
result-browser_run false run now enrich on = refl

after_protocol-enriches :
    (config : CrawlerConfig) (job : Collection) (browser : ℕ → BrowserCall) (r : EngagementResult)
    (now : ℕ) (name : String)
    → r.needs_browser_stats ≡ true
    → IsCompletedRun name
        (enriching_result config job browser r now)
        r
        (after_protocol config job browser r now)
unfolding after_protocol
after_protocol-enriches config job browser r now name enrich =
    subst (λ b. IsCompletedRun name b r (after_protocol config job browser r now))
      (result-browser_run (should_use_browser_fallback config.fallback job.wanted r)
        (λ e. run_browser_fallback config.browser job browser e now) now r.needs_browser_stats
        enrich)
      (IsCompletedRun_lem name _ r _ _ (IsCompleted-merged name r.needs_browser_stats _ r enrich))

-- Where the protocol's result asks for the browser's statistics only: whatever the browser does,
-- the fetch returns the protocol's result, in which only the source, the reason and the statistics
-- can differ. Each statistic is the browser's, where the browser is used and its result is usable,
-- of the same work and has that statistic and another one than the number of comments; it is
-- exactly the protocol's otherwise. The circuits record the protocol's outcome. `name` is any
-- further statistic.
pub collect-enriches :
    (config : CrawlerConfig) (others : Collaborators) (job : Collection) (now : ℕ)
    (calls : ℕ → Transport → Call) (r : EngagementResult) (name : String)
    → others.handler ≡ some calls
    → (run_protocol_handler config.protocol job calls now).finish ≡ returned r
    → r.needs_browser_stats ≡ true
    → IsCompletedRun name
        (enriching_result config job others.browser r
          (run_protocol_handler config.protocol job calls now).ended_at)
        r
        (collect config others job now)
unfolding collect after_lookup after_finish
collect-enriches config others job now calls r name registered done enrich =
    let ended = (run_protocol_handler config.protocol job calls now).ended_at in
    let browser = enriching_result config job others.browser r ended in
    subst
      (λ handler.
        IsCompletedRun name browser r (after_lookup config job others.browser handler now))
      (sym registered)
      (subst
        (λ finish.
          IsCompletedRun name browser r (after_finish config job others.browser finish ended))
        (sym done) (after_protocol-enriches config job others.browser r ended name enrich))
