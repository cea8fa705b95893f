-- ===== src/Engagement/Cache/Hits.antt =====
-- Which results a cache returns (`_fetch_cached`), and until when.
use creator_engagement_proje.Base.{
  ℕ, suc, ◌+◌, ◌-◌, ◌≤◌, ◌<◌, ◌≡◌, refl, true, false, ◌||◌, Option, none, some, [], ◌∷◌, ◌++◌,
  arith, ltb, if◌then◌else◌, Key, ◌==◌, length, IsDistinct, contains, Bool-cases, inl, inr, ◌∙◌,
}
use creator_engagement_proje.Base.Dict.{
  Dict, keys, lookup, pop, lookup-pop_self, contains-keys, same_refl,
}
use creator_engagement_proje.Engagement.Cache.{
  Entry, Limits, Cache, purge_entries, purge, evict_entries, hit, find, keep, replaced_size,
}
use creator_engagement_proje.Engagement.Cache.Bounds.{bytes, IsBounded, keep-IsBounded, bytes-kept}

-- What is left of an entry at `now`.
abbrev pub unless_over {κ} : {R : Type κ} → ℕ → Option (Entry R) → Option R
unless_over now none = none
unless_over now (some e) = if ltb now e.expires_at then some e.result else none

module _ {ℓ κ} {K : Type ℓ} {R : Type κ} ⦃key : Key K⦄ where
  lookup-purge :
      (now : ℕ) (k : K) (d : Dict K (Entry R)) (size : ℕ)
      → IsDistinct (keys d)
      → unless_over now (lookup k (purge_entries now d size).entries) ≡ unless_over now (lookup k d)
  unfolding purge_entries lookup
  lookup-purge now k [] size h = refl
  lookup-purge now k ((j, e) ∷ d) size h =
      ground
        (arith, lookup-purge now k d (size - e.size_bytes) h.1, contains-keys j d, key.same_iff j k)

  hit-unless_over :
      (now : ℕ) (k : K) (c : Cache K R) → (hit now k c).0 ≡ unless_over now (lookup k c.entries)
  unfolding hit
  hit-unless_over now k c = go (lookup k c.entries) refl
    where
      go :
          (o : Option (Entry R))
          → lookup k c.entries ≡ o
          → (hit now k c).0 ≡ unless_over now (lookup k c.entries)
      go none e = rw (e, hit)
      go (some x) e = elim (Bool-cases (ltb now x.expires_at)) [
        | inl alive ↦ rw (e, hit, alive)
        | inr over ↦ rw (e, hit, over)
      ]

  -- In a cache with one entry to a key, looking up returns the result of the key's entry if there
  -- is one and it has not expired, and nothing otherwise: the sweep of the oldest entries is not
  -- seen.
  pub find-unless_over :
      (now : ℕ) (k : K) (c : Cache K R)
      → IsDistinct (keys c.entries)
      → (find now k c).0 ≡ unless_over now (lookup k c.entries)
  unfolding find purge
  find-unless_over now k c h =
      hit-unless_over now k (purge now c) ∙ lookup-purge now k c.entries c.size h

  contains-none : (k : K) (d : Dict K (Entry R)) → contains (keys d) k ≡ false → lookup k d ≡ none
  unfolding lookup
  contains-none k [] h = refl
  contains-none k ((j, x) ∷ d) h = ground (arith, contains-none k d)

  lookup-append_new :
      (k : K) (e : Entry R) (d : Dict K (Entry R))
      → lookup k d ≡ none
      → lookup k (d ++ (k, e) ∷ []) ≡ some e
  unfolding lookup
  lookup-append_new k e [] h = rw (same_refl k)
  lookup-append_new k e ((j, x) ∷ d) h = ground (arith, lookup-append_new k e d)

  held : K → Option (Cache K R) → Option (Entry R)
  held k none = none
  held k (some c) = lookup k c.entries

  -- Eviction never reaches a last entry that fits alone.
  held-evict_entries :
      (limits : Limits) (k : K) (e : Entry R) (d : Dict K (Entry R)) (size : ℕ)
      → lookup k d ≡ none
      → size ≡ bytes (d ++ (k, e) ∷ [])
      → e.size_bytes ≤ limits.max_bytes
      → 0 < limits.max_entries
      → held k (evict_entries limits (d ++ (k, e) ∷ []) size) ≡ some e
  unfolding evict_entries lookup held
  held-evict_entries limits k e [] size absent counted fits room =
      let small : (ltb limits.max_entries 1 || ltb limits.max_bytes size) ≡ false = ground arith in
      rw (small, same_refl k)
  held-evict_entries limits k e ((j, x) ∷ d) size absent counted fits room =
      elim (Bool-cases
        (ltb limits.max_entries (suc (length (d ++ (k, e) ∷ []))) || ltb limits.max_bytes size)) [
          | inl over ↦ rw over (
              held-evict_entries limits k e d (size - x.size_bytes) (ground arith) (omega arith)
                fits room)
          | inr under ↦
              let other : (j == k) ≡ false = ground arith in
              rw (under, other) (lookup-append_new k e d (ground arith))
        ]

  -- In a cache with one entry to a key, an exact count of bytes and both limits kept, a result
  -- that is kept for a positive time and is no larger than the limit of bytes, where the limit of
  -- entries is positive: it is found at every instant before its time is over.
  pub find-keep :
      (limits : Limits) (now : ℕ) (k : K) (result : R) (ttl size_bytes : ℕ) (c : Cache K R)
      (later : ℕ)
      → IsBounded limits c
      → 0 < limits.max_entries
      → size_bytes ≤ limits.max_bytes
      → later < now + ttl
      → 0 < ttl
      → (c' : Cache K R) × (keep limits now k result ttl size_bytes c ≡ some c')
        × ((find later k c').0 ≡ some result)
  unfolding keep held
  find-keep limits now k result ttl size_bytes c later h room fits early lasting =
      let kept = keep-IsBounded limits now k result ttl size_bytes c h in
      (kept.0, kept.1, found kept.0 kept.1 kept.2)
    where
      fresh : Entry R
      fresh = record { expires_at = now + ttl; size_bytes = size_bytes; result = result }

      there : held k (keep limits now k result ttl size_bytes c) ≡ some fresh
      there =
          let some_time : ltb 0 ttl ≡ true = ground arith in
          rw some_time (
            held-evict_entries limits k fresh (pop k c.entries)
              (c.size - replaced_size (lookup k c.entries) + size_bytes)
              (lookup-pop_self k c.entries) (bytes-kept k fresh c h.distinct h.counted) fits room)

      found :
          (c' : Cache K R)
          → keep limits now k result ttl size_bytes c ≡ some c'
          → IsBounded limits c'
          → (find later k c').0 ≡ some result
      found c' kept bounded =
          let entry : lookup k c'.entries ≡ some fresh = (rw kept at there) in
          let alive : ltb later (now + ttl) ≡ true = ground arith in
          rw (find-unless_over later k c' bounded.distinct, entry, alive)
