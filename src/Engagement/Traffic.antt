-- ===== src/Engagement/Traffic.antt =====
-- The traffic limits that EngagementService.__init__ makes of its platform policies
-- (app/services/engagement_service.py). Intervals are milliseconds.
use creator_engagement_proje.Base.{
  ℕ, min, max, ap, String, ◌≡◌, refl, Bool, true, false, ◌&&◌, Option, none, some, List, [], ◌∷◌,
  map, arith, ltb, inl, inr, Bool-cases, if◌then◌else◌, Key, ◌==◌, string_key, pair_key, minimum,
  least, select, ◌↔◌,
}
use creator_engagement_proje.Base.Dict.{Dict, lookup, insert, lookup-insert}
use creator_engagement_proje.Models.{CollectOperation, interactions, comments}
use creator_engagement_proje.Platforms.{traffic_platform}

pub record PlatformTrafficPolicy : Type 0 where
  pub max_concurrency : ℕ
  pub min_interval : ℕ
  pub interactions_min_interval : Option ℕ
  pub comments_min_interval : Option ℕ

abbrev pub same_operation : CollectOperation → CollectOperation → Bool
same_operation interactions interactions = true
same_operation comments comments = true
same_operation _ _ = false

pub same_operation_iff : (a b : CollectOperation) → (same_operation a b ≡ true) ↔ (a ≡ b)
same_operation_iff interactions interactions = (λ e. refl, λ e. refl)
same_operation_iff comments comments = (λ e. refl, λ e. refl)
same_operation_iff interactions comments = (λ e. cc, λ e. cc)
same_operation_iff comments interactions = (λ e. cc, λ e. cc)

instance abbrev pub operation_key : Key CollectOperation
operation_key = record { same = same_operation; same_iff = same_operation_iff }

abbrev pub Policies : Type 0
Policies = Dict String PlatformTrafficPolicy

abbrev pub get_or : Option ℕ → ℕ → ℕ
get_or none n = n
get_or (some m) n = m

-- for platform, policy in policies.items(): the limit of a family is its strictest.
unfoldable pub limits_from : Dict String ℕ → Policies → Dict String ℕ
limits_from limits [] = limits
limits_from limits ((platform, policy) ∷ others) =
    let family = traffic_platform platform in
    limits_from
      (insert family
        (min (get_or (lookup family limits) policy.max_concurrency) policy.max_concurrency) limits)
      others

unfoldable pub platform_concurrency : Policies → Dict String ℕ
unfolding limits_from
platform_concurrency policies = limits_from [] policies

abbrev pub interval_of : CollectOperation → PlatformTrafficPolicy → ℕ
interval_of interactions policy = get_or policy.interactions_min_interval policy.min_interval
interval_of comments policy = get_or policy.comments_min_interval policy.min_interval

abbrev pub Intervals : Type 0
Intervals = Dict (String × CollectOperation) ℕ

abbrev pub widen : String → PlatformTrafficPolicy → CollectOperation → Intervals → Intervals
widen platform policy operation intervals =
    let key : String × CollectOperation = (traffic_platform platform, operation) in
    insert key (max (get_or (lookup key intervals) 0) (interval_of operation policy)) intervals

unfoldable pub intervals_from : Intervals → Policies → Intervals
intervals_from intervals [] = intervals
intervals_from intervals ((platform, policy) ∷ others) =
    intervals_from (widen platform policy comments (widen platform policy interactions intervals))
      others

unfoldable pub family_intervals : Policies → Intervals
unfolding intervals_from
family_intervals policies = intervals_from [] policies

abbrev pub positive : Option ℕ → Option ℕ
positive none = none
positive (some n) = if ltb 0 n then some n else none

abbrev pub if_listed : Option PlatformTrafficPolicy → Option ℕ → Option ℕ
if_listed none limit = none
if_listed (some policy) limit = limit

-- The semaphore of a platform, by its size, and its limiter, by its interval.
unfoldable pub platform_semaphore : Policies → String → Option ℕ
unfolding platform_concurrency
platform_semaphore policies platform =
    if_listed (lookup platform policies)
      (lookup (traffic_platform platform) (platform_concurrency policies))

unfoldable pub platform_rate_limiter : Policies → String → CollectOperation → Option ℕ
unfolding family_intervals
platform_rate_limiter policies platform operation =
    if_listed (lookup platform policies)
      (positive (lookup (traffic_platform platform, operation) (family_intervals policies)))

-- The policies of a platform family.
abbrev pub members : String → Policies → Policies
members family policies = select (λ e. traffic_platform e.0 == family) policies

abbrev least_from : (ℕ → ℕ → Bool) → Option ℕ → List ℕ → Option ℕ
least_from less none ns = minimum less ns
least_from less (some n) ns = some (least less n ns)

least_from-step :
    (o : Option ℕ) (m : ℕ) (ns : List ℕ)
    → least_from ltb (some (min (get_or o m) m)) ns ≡ least_from ltb o (m ∷ ns)
least_from-step none m ns = ap (λ k. some (least ltb k ns)) (omega arith)
least_from-step (some n) m ns = ap (λ k. some (least ltb k ns)) (ground arith)

lookup-limits_from :
    (limits : Dict String ℕ) (policies : Policies) (family : String)
    → lookup family (limits_from limits policies)
      ≡ least_from ltb
          (lookup family limits)
          (map (λ e. e.1.max_concurrency) (members family policies))
unfolding limits_from
lookup-limits_from limits [] family = go (lookup family limits)
  where
    go : (o : Option ℕ) → o ≡ least_from ltb o []
    go none = refl
    go (some n) = refl
lookup-limits_from limits ((platform, policy) ∷ others) family =
    elim (Bool-cases (traffic_platform platform == family)) [
      | inl same ↦
          let f : traffic_platform platform ≡ family = (string_key.same_iff _ _).0 same in
          rw (same, lookup-limits_from limits' others family, there family, same, f)
            (least_from-step (lookup family limits) m (rest family))
      | inr other ↦ rw (other, lookup-limits_from limits' others family, there family, other) refl
    ]
  where
    m : ℕ
    m = policy.max_concurrency

    v : ℕ
    v = min (get_or (lookup (traffic_platform platform) limits) m) m

    limits' : Dict String ℕ
    limits' = insert (traffic_platform platform) v limits

    rest : String → List ℕ
    rest family = map (λ e. e.1.max_concurrency) (members family others)

    there :
        (family : String)
        → lookup family limits'
          ≡ (if traffic_platform platform == family then some v else lookup family limits)
    there family = lookup-insert (traffic_platform platform) family v limits

-- The limit of a platform family is the smallest among the policies of its platforms, and there is
-- none if no platform of the family has a policy.
pub platform_concurrency-minimum :
    (policies : Policies) (family : String)
    → lookup family (platform_concurrency policies)
      ≡ minimum ltb (map (λ e. e.1.max_concurrency) (members family policies))
unfolding platform_concurrency lookup
platform_concurrency-minimum policies family = lookup-limits_from [] policies family

abbrev greater : ℕ → ℕ → Bool
greater a b = ltb b a

greatest_from-step :
    (o : Option ℕ) (m : ℕ) (ns : List ℕ)
    → least_from greater (some (max (get_or o 0) m)) ns ≡ least_from greater o (m ∷ ns)
greatest_from-step none m ns = ap (λ k. some (least greater k ns)) (omega arith)
greatest_from-step (some n) m ns = ap (λ k. some (least greater k ns)) (ground arith)

module _ (platform : String) (policy : PlatformTrafficPolicy) (intervals : Intervals)
    (family : String) where
  lookup-widen :
      (done operation : CollectOperation)
      → lookup (family, operation) (widen platform policy done intervals) ≡ (
          if traffic_platform platform == family && same_operation done operation
          then some (
              max
                (get_or (lookup (traffic_platform platform, done) intervals) 0)
                (interval_of done policy))
          else lookup (family, operation) intervals)
  lookup-widen done operation =
      lookup-insert (traffic_platform platform, done) (family, operation) _ intervals

widen_both :
    (platform : String) (policy : PlatformTrafficPolicy) (intervals : Intervals) (family : String)
    (operation : CollectOperation)
    → lookup
        (family, operation)
        (widen platform policy comments (widen platform policy interactions intervals))
      ≡ (if traffic_platform platform == family
          then some
              (max (get_or (lookup (family, operation) intervals) 0) (interval_of operation policy))
          else lookup (family, operation) intervals)
widen_both platform policy intervals family interactions = ground (
  arith,
  lookup-widen platform policy (widen platform policy interactions intervals) family comments
      interactions,
  lookup-widen platform policy intervals family interactions interactions,
  string_key.same_iff (traffic_platform platform) family,
)
widen_both platform policy intervals family comments = ground (
  arith,
  lookup-widen platform policy (widen platform policy interactions intervals) family comments
      comments,
  lookup-widen platform policy intervals family interactions comments,
  lookup-widen platform policy intervals (traffic_platform platform) interactions comments,
  string_key.same_iff (traffic_platform platform) family,
)

lookup-intervals_from :
    (intervals : Intervals) (policies : Policies) (family : String) (operation : CollectOperation)
    → lookup (family, operation) (intervals_from intervals policies)
      ≡ least_from greater
          (lookup (family, operation) intervals)
          (map (λ e. interval_of operation e.1) (members family policies))
unfolding intervals_from
lookup-intervals_from intervals [] family operation = go (lookup (family, operation) intervals)
  where
    go : (o : Option ℕ) → o ≡ least_from greater o []
    go none = refl
    go (some n) = refl
lookup-intervals_from intervals ((platform, policy) ∷ others) family operation =
    elim (Bool-cases (traffic_platform platform == family)) [
      | inl same ↦
          rw (same, lookup-intervals_from widened others family operation, both, same)
            (greatest_from-step (lookup (family, operation) intervals) m rest)
      | inr other ↦
          rw (other, lookup-intervals_from widened others family operation, both, other) refl
    ]
  where
    m : ℕ
    m = interval_of operation policy

    widened : Intervals
    widened = widen platform policy comments (widen platform policy interactions intervals)

    rest : List ℕ
    rest = map (λ e. interval_of operation e.1) (members family others)

    both : lookup (family, operation) widened ≡ (
        if traffic_platform platform == family
        then some (max (get_or (lookup (family, operation) intervals) 0) m)
        else lookup (family, operation) intervals)
    both = widen_both platform policy intervals family operation

-- The interval between two collections of one operation in a platform family is the largest that
-- the policies of its platforms ask for, their own interval for the operation before the general
-- one, and there is none if no platform of the family has a policy.
pub family_intervals-minimum :
    (policies : Policies) (family : String) (operation : CollectOperation)
    → lookup (family, operation) (family_intervals policies)
      ≡ minimum (λ a b. ltb b a) (map (λ e. interval_of operation e.1) (members family policies))
unfolding family_intervals lookup
family_intervals-minimum policies family operation =
    lookup-intervals_from [] policies family operation
