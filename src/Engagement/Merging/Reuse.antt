-- ===== src/Engagement/Merging/Reuse.antt =====
-- `_fetch_cached` with its cache and its running tasks.
use creator_engagement_proje.Base.{
  ℕ, ◌+◌, ◌≤◌, ◌<◌, ◌≡◌, refl, Bool, some, Key, inl, pair_key, bool_key,
}
use creator_engagement_proje.Engagement.Cache.{Limits}
use creator_engagement_proje.Engagement.Cache.Bounds.{IsBounded}
use creator_engagement_proje.Engagement.Cache.Hits.{find-keep}
use creator_engagement_proje.Engagement.Merging.{Fetches, leave, begin_fetch, end_fetch}

module _ {ℓ κ} {K : Type ℓ} {R : Type κ} ⦃key : Key K⦄ where
  -- A caller whose task gave a result with a positive caching time, no larger than the cache's
  -- bytes, where the cache is within its limits and may hold an entry, ends without a KeyError,
  -- and every later call for the key before that time is over, from a reserved slot or not,
  -- returns this result at once: it joins and starts no task.
  pub begin_fetch-end_fetch :
      (limits : Limits) (now : ℕ) (k : K) (reserved : Bool) (task : ℕ) (result : R)
      (ttl size_bytes : ℕ) (f : Fetches K R) (later : ℕ) (reserved' : Bool)
      → IsBounded limits f.cache
      → 0 < limits.max_entries
      → size_bytes ≤ limits.max_bytes
      → later < now + ttl
      → 0 < ttl
      → (f' : Fetches K R) × (end_fetch limits now k reserved task result ttl size_bytes f
          ≡ some f')
        × ((begin_fetch later k reserved' f').0 ≡ inl result)
        × ((begin_fetch later k reserved' f').1.running ≡ leave (k, reserved) task f.running)
  unfolding end_fetch begin_fetch
  begin_fetch-end_fetch limits now k reserved task result ttl size_bytes f later reserved' h e s l
        t =
      let kept = find-keep limits now k result ttl size_bytes f.cache later h e s l t in
      (
        record { cache = kept.0; running = leave (k, reserved) task f.running },
        rw (kept.1, end_fetch) refl,
        rw (kept.2, begin_fetch) refl,
        rw (kept.2, begin_fetch) refl,
      )
