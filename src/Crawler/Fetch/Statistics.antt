-- ===== src/Crawler/Fetch/Statistics.antt =====
-- The statistics that `_fetch` keeps (app/crawlers/engagement.py) of two results.
use creator_engagement_proje.Base.{
  ℕ, ◌≡◌, refl, ap, String, Bool, true, false, Option, none, some, [], ◌∷◌, ◌==◌, string_key,
  if◌then◌else◌, ◌∙◌, Bool-cases, inl, inr,
}
use creator_engagement_proje.Base.Dict.{Dict, insert, lookup, lookup-insert}
use creator_engagement_proje.Engagement.Collected.{EngagementStats}
use creator_engagement_proje.Crawler.Results.{no_stats}
use creator_engagement_proje.Crawler.Fetch.{updated_value, updated_extra, updated_stats}

-- The first value that is there.
abbrev pub first_given : Option ℕ → Option ℕ → Option ℕ
first_given none old = old
first_given (some n) old = some n

abbrev flat : Option (Option ℕ) → Option ℕ
flat none = none
flat (some value) = value

-- The field of a name, which may be missing or empty.
unfoldable pub field : String → Dict String (Option ℕ) → Option ℕ
field name d = flat (lookup name d)

-- The last value that fields have under a name.
unfoldable pub last_field : String → Dict String (Option ℕ) → Option ℕ
last_field name [] = none
last_field name ((key, value) ∷ fields) =
    first_given (last_field name fields) (if key == name then value else none)

-- Each statistic is the first one's where it has one, and the second one's otherwise.
pub record IsCompletedStats (name : String) (new old kept : EngagementStats) : Type 0 where
  pub views : kept.views ≡ first_given new.views old.views
  pub likes : kept.likes ≡ first_given new.likes old.likes
  pub comments : kept.comments ≡ first_given new.comments old.comments
  pub shares : kept.shares ≡ first_given new.shares old.shares
  pub favorites : kept.favorites ≡ first_given new.favorites old.favorites
  pub coins : kept.coins ≡ first_given new.coins old.coins
  pub danmaku : kept.danmaku ≡ first_given new.danmaku old.danmaku
  pub reposts : kept.reposts ≡ first_given new.reposts old.reposts
  pub recommendations : kept.recommendations ≡ first_given new.recommendations old.recommendations
  pub extra : field name kept.extra ≡ first_given (last_field name new.extra) (field name old.extra)

updated_value_lem : (new old : Option ℕ) → updated_value new old ≡ first_given new old
updated_value_lem none old = refl
updated_value_lem (some n) old = refl

field-insert :
    (name key : String) (n : ℕ) (d : Dict String (Option ℕ))
    → field name (insert key (some n) d) ≡ (if key == name then some n else field name d)
unfolding field
field-insert name key n d = elim (Bool-cases (key == name)) [
  | inl same ↦ rw (lookup-insert key name (some n) d, same) refl
  | inr other ↦ rw (lookup-insert key name (some n) d, other) refl
]

first_given-under :
    (last old : Option ℕ) (is_same : Bool) (n : ℕ)
    → first_given last (if is_same then some n else old)
      ≡ first_given (first_given last (if is_same then some n else none)) old
first_given-under none old true n = refl
first_given-under none old false n = refl
first_given-under (some m) old is_same n = refl

first_given-empty :
    (last old : Option ℕ) (is_same : Bool)
    → first_given last old ≡ first_given (first_given last (if is_same then none else none)) old
first_given-empty none old true = refl
first_given-empty none old false = refl
first_given-empty (some m) old is_same = refl

field-updated_extra :
    (name : String) (new old : Dict String (Option ℕ))
    → field name (updated_extra new old) ≡ first_given (last_field name new) (field name old)
unfolding updated_extra last_field
field-updated_extra name [] old = refl
field-updated_extra name ((key, none) ∷ fields) old =
    field-updated_extra name fields old
    ∙ first_given-empty (last_field name fields) (field name old) (key == name)
field-updated_extra name ((key, some n) ∷ fields) old =
    field-updated_extra name fields (insert key (some n) old)
    ∙ ap (first_given (last_field name fields)) (field-insert name key n old)
    ∙ first_given-under (last_field name fields) (field name old) (key == name) n

pub IsCompletedStats-self :
    (name : String) (s : EngagementStats) → IsCompletedStats name no_stats s s
unfolding last_field
IsCompletedStats-self name s = record {
  views = refl;
  likes = refl;
  comments = refl;
  shares = refl;
  favorites = refl;
  coins = refl;
  danmaku = refl;
  reposts = refl;
  recommendations = refl;
  extra = refl;
}

pub IsCompletedStats-updated_stats :
    (name : String) (new old : EngagementStats)
    → IsCompletedStats name new old (updated_stats new old)
unfolding updated_stats
IsCompletedStats-updated_stats name new old = record {
  views = updated_value_lem new.views old.views;
  likes = updated_value_lem new.likes old.likes;
  comments = updated_value_lem new.comments old.comments;
  shares = updated_value_lem new.shares old.shares;
  favorites = updated_value_lem new.favorites old.favorites;
  coins = updated_value_lem new.coins old.coins;
  danmaku = updated_value_lem new.danmaku old.danmaku;
  reposts = updated_value_lem new.reposts old.reposts;
  recommendations = updated_value_lem new.recommendations old.recommendations;
  extra = field-updated_extra name new.extra old.extra;
}
