-- ===== src/Engagement/Collected.antt =====
-- What the engagement service collects (app/models/engagement.py), and for how long it keeps it:
-- `_is_cacheable_result` and `_cache_ttl_for_result`.
use creator_engagement_proje.Base.{
  ℕ, String, Bool, true, false, not, ◌&&◌, ◌||◌, Option, none, some, List, ◌∷◌, ltb, if◌then◌else◌,
  nat_key, is_none, any, length, nat_beq,
}
use creator_engagement_proje.Base.Dict.{Dict, values}
use creator_engagement_proje.Models.{EngagementComment}

pub data Coverage : Type 0 where
  complete partial blocked failed unsupported : Coverage

pub record EngagementStats : Type 0 where
  pub views : Option ℕ
  pub likes : Option ℕ
  pub comments : Option ℕ
  pub shares : Option ℕ
  pub favorites : Option ℕ
  pub coins : Option ℕ
  pub danmaku : Option ℕ
  pub reposts : Option ℕ
  pub recommendations : Option ℕ
  -- The fields beyond these that the model keeps, by name.
  pub extra : Dict String (Option ℕ)

pub record CollectionResult : Type 0 where
  pub platform : String
  pub canonical_url : String
  pub work_id : String
  pub coverage : Coverage
  pub reason : String
  pub source : String
  pub protocol_attempts : ℕ

pub record InteractionResult : Type 0 where
  pub collection : CollectionResult
  pub open collection use *
  pub stats : EngagementStats

-- Literal["all_public_pages", "paged_until_blocked", "first_public_page", "unavailable"]
pub data CommentPaginationMode : Type 0 where
  all_public_pages paged_until_blocked first_public_page unavailable : CommentPaginationMode

pub record CommentCapabilities : Type 0 where
  pub root_comments : CommentPaginationMode
  pub anonymous : Bool
  pub note : String

pub record CommentPageResult : Type 0 where
  pub collection : CollectionResult
  pub open collection use *
  pub page : ℕ
  pub comments : List EngagementComment
  pub next_page : Option ℕ
  pub next_cursor : Option String
  pub total_comments : Option ℕ
  pub comments_complete : Bool
  pub capabilities : CommentCapabilities

pub data CachedResult : Type 0 where
  interaction : InteractionResult → CachedResult
  comment_page : CommentPageResult → CachedResult

abbrev pub coverage_of : CachedResult → Coverage
coverage_of (interaction r) = r.coverage
coverage_of (comment_page r) = r.coverage

-- any(value is not None for value in result.stats.model_dump().values())
unfoldable pub has_stats : EngagementStats → Bool
has_stats s =
    any (λ value. not (is_none value))
      (s.views
        ∷ s.likes
        ∷ s.comments
        ∷ s.shares
        ∷ s.favorites
        ∷ s.coins
        ∷ s.danmaku
        ∷ s.reposts
        ∷ s.recommendations
        ∷ values s.extra)

abbrev pub is_zero_total : Option ℕ → Bool
is_zero_total none = false
is_zero_total (some n) = nat_beq n 0

abbrev pub partial_is_cacheable : CachedResult → Bool
partial_is_cacheable (interaction r) = has_stats r.stats
partial_is_cacheable (comment_page r) =
    ltb 0 (length r.comments)
    || is_zero_total r.total_comments
    || (ltb 1 r.page && is_none r.next_page && not (is_none r.total_comments))

unfoldable pub is_cacheable_result : CachedResult → Bool
unfolding has_stats
is_cacheable_result result = elim (coverage_of result) [
  | complete ↦ true
  | partial ↦ partial_is_cacheable result
  | _ ↦ false
]

abbrev pub is_unsupported : Coverage → Bool
is_unsupported c = elim c [ unsupported ↦ true | _ ↦ false ]

unfoldable pub cache_ttl_for_result : ℕ → ℕ → CachedResult → ℕ
unfolding is_cacheable_result
cache_ttl_for_result cache_ttl failure_cache_ttl result =
    if is_cacheable_result result || is_unsupported (coverage_of result)
    then cache_ttl
    else failure_cache_ttl
