-- ===== src/Engagement/Tests.antt =====
-- Runs of the result cache (`_fetch_cached`) and small traffic policies.
use creator_engagement_proje.Base.{
  pair_key, ℕ, String, ◌≡◌, refl, none, some, [], ◌∷◌, arith, string_key,
}
use creator_engagement_proje.Engagement.Traffic.{Policies, operation_key}
use creator_engagement_proje.Engagement.Cache.{Entry, Limits, Cache, find, keep}
use creator_engagement_proje.Engagement.Cache.Bounds.{IsBounded, keep-IsBounded}
use creator_engagement_proje.Engagement.Cache.Hits.{find-keep}

abbrev pub limits : Limits
limits = record { max_entries = 2; max_bytes = 100 }

abbrev entry : ℕ → ℕ → ℕ → Entry ℕ
entry expires_at size_bytes result = record {
  expires_at = expires_at;
  size_bytes = size_bytes;
  result = result;
}

-- Two results, of which the older use has expired at 10.
abbrev pub cached : Cache String ℕ
cached = record { entries = ("a", entry 10 30 1) ∷ ("b", entry 50 40 2) ∷ []; size = 70 }

pub cached-IsBounded : IsBounded limits cached
cached-IsBounded = record {
  distinct = (refl, (refl, tt));
  counted = refl;
  few = omega arith;
  small = omega arith;
}

keep-IsBounded_example :
    (c' : Cache String ℕ) × (keep limits 5 "c" 3 20 50 cached ≡ some c') × IsBounded limits c'
keep-IsBounded_example = keep-IsBounded limits 5 "c" 3 20 50 cached cached-IsBounded

find-keep_example :
    (c' : Cache String ℕ) × (keep limits 5 "c" 3 20 50 cached ≡ some c')
    × ((find 24 "c" c').0 ≡ some 3)
find-keep_example =
    find-keep limits 5 "c" 3 20 50 cached 24 cached-IsBounded (omega arith) (omega arith)
      (omega arith) (omega arith)

abbrev policies : Policies
policies =
    (
      "sina",
      record {
        max_concurrency = 3;
        min_interval = 500;
        interactions_min_interval = none;
        comments_min_interval = some 0;
      },
    )
    ∷ (
      "sina_finance",
      record {
        max_concurrency = 1;
        min_interval = 200;
        interactions_min_interval = none;
        comments_min_interval = none;
      },
    )
    ∷ []
