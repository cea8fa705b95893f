-- ===== src/Proxies/Policy.antt =====
-- app/crawlers/proxy_policy.py: what a lease must offer, and how a lease can fail.
use creator_engagement_proje.Base.{
  ℕ, String, Bool, true, false, Option, none, some, [], ◌∷◌, if◌then◌else◌, ◌==◌, string_key,
}
use creator_engagement_proje.Base.Dict.{Dict, lookup}

pub record ProxyRequirements : Type 0 where
  pub platform : String
  pub min_remaining_seconds : ℕ
  pub exclusive : Bool

pub data FailureKind : Type 0 where
  transport platform task : FailureKind

pub record ProxyFailure : Type 0 where
  pub kind : FailureKind
  pub platform : String

abbrev platform_seconds : Dict String ℕ
platform_seconds = ("weibo", 40) ∷ ("bilibili", 60) ∷ ("kuaishou", 60) ∷ ("wechat", 60) ∷ []

abbrev or_default : Option ℕ → ℕ → ℕ
or_default none n = n
or_default (some m) n = m

unfoldable pub collection_requirements : String → Bool → Bool → ProxyRequirements
collection_requirements name browser author =
    if browser
    then record { platform = name; min_remaining_seconds = 90; exclusive = true }
    else if author
    then record { platform = name; min_remaining_seconds = 60; exclusive = true }
    else if name == "douyin"
    then record { platform = name; min_remaining_seconds = 25; exclusive = true }
    else record {
      platform = name;
      min_remaining_seconds = or_default (lookup name platform_seconds) 35;
      exclusive = false;
    }
