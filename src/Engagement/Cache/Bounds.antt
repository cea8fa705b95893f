-- ===== src/Engagement/Cache/Bounds.antt =====
-- The byte count and the two limits of the result cache (`_fetch_cached`).
use creator_engagement_proje.Base.{
  ℕ, is_none, suc, ◌+◌, ◌-◌, ◌≤◌, ◌≡◌, refl, false, ◌||◌, Option, none, some, [], ◌∷◌, ◌++◌, arith,
  ltb, if◌then◌else◌, Key, ◌==◌, length, total, length-append, total-append, IsDistinct, contains,
  Bool-cases, inl, inr, ap,
}
use creator_engagement_proje.Base.Dict.{
  Dict, keys, lookup, pop, lookup-pop_self, pop-IsDistinct, contains-keys,
}
use creator_engagement_proje.Engagement.Cache.{
  Entry, Limits, Cache, purge_entries, purge, evict_entries, hit, find, keep, replaced_size,
}

module _ {ℓ κ} {K : Type ℓ} {R : Type κ} ⦃key : Key K⦄ where
  abbrev pub bytes : Dict K (Entry R) → ℕ
  bytes entries = total (λ e. e.1.size_bytes) entries

  -- One entry to a key, an exact count of bytes, and both limits kept.
  pub record IsBounded (limits : Limits) (c : Cache K R) : Type 0 where
    pub distinct : IsDistinct (keys c.entries)
    pub counted : c.size ≡ bytes c.entries
    pub few : length c.entries ≤ limits.max_entries
    pub small : c.size ≤ limits.max_bytes

  bytes-pop :
      (k : K) (d : Dict K (Entry R))
      → IsDistinct (keys d)
      → bytes (pop k d) + replaced_size (lookup k d) ≡ bytes d
  unfolding pop lookup
  bytes-pop k [] h = omega arith
  bytes-pop k ((j, e) ∷ d) h =
      ground (arith, bytes-pop k d h.1, contains-keys j d, key.same_iff j k)

  length-pop :
      (k : K) (d : Dict K (Entry R))
      → IsDistinct (keys d)
      → length (pop k d) + (if is_none (lookup k d) then 0 else 1) ≡ length d
  unfolding pop lookup
  length-pop k [] h = omega arith
  length-pop k ((j, e) ∷ d) h =
      ground (arith, length-pop k d h.1, contains-keys j d, key.same_iff j k)

  evict_entries-IsBounded :
      (limits : Limits) (d : Dict K (Entry R)) (size : ℕ)
      → IsDistinct (keys d)
      → size ≡ bytes d
      → (c' : Cache K R) × (evict_entries limits d size ≡ some c') × IsBounded limits c'
  unfolding evict_entries
  evict_entries-IsBounded limits [] size h e =
      (record { entries = []; size = size }, ground arith, ground arith)
  evict_entries-IsBounded limits ((j, x) ∷ d) size h e =
      let rest = evict_entries-IsBounded limits d (size - x.size_bytes) h.1 (omega arith) in
      elim (Bool-cases (ltb limits.max_entries (suc (length d)) || ltb limits.max_bytes size)) [
        | inl over ↦ (rest.0, rw over rest.1, rest.2)
        | inr under ↦ (
          record { entries = (j, x) ∷ d; size = size },
          rw under,
          record { distinct = h; counted = e; few = ground arith; small = ground arith },
        )
      ]

  -- A new key at the end.
  contains-append :
      (j k : K) (e : Entry R) (d : Dict K (Entry R))
      → contains (keys (d ++ (k, e) ∷ [])) j ≡ (contains (keys d) j || (k == j || false))
  contains-append j k e [] = refl
  contains-append j k e ((i, x) ∷ d) = ground (arith, contains-append j k e d)

  IsDistinct-append :
      (k : K) (e : Entry R) (d : Dict K (Entry R))
      → IsDistinct (keys d)
      → lookup k d ≡ none
      → IsDistinct (keys (d ++ (k, e) ∷ []))
  unfolding lookup
  IsDistinct-append k e [] h absent = (refl, tt)
  IsDistinct-append k e ((j, x) ∷ d) h absent = ground (
    arith,
    IsDistinct-append k e d h.1,
    contains-append j k e d,
    key.same_iff j k,
    key.same_iff k j,
  )

  -- The byte count when an entry takes the place of the old one.
  pub bytes-kept :
      (k : K) (e : Entry R) (c : Cache K R)
      → IsDistinct (keys c.entries)
      → c.size ≡ bytes c.entries
      → c.size - replaced_size (lookup k c.entries) + e.size_bytes
        ≡ bytes (pop k c.entries ++ (k, e) ∷ [])
  bytes-kept k e c h counted = omega (
    arith,
    counted,
    bytes-pop k c.entries h,
    total-append (λ e. e.1.size_bytes) (pop k c.entries) ((k, e) ∷ []),
  )

  -- Keeping a result in a cache with one entry to a key, an exact count of bytes and both limits
  -- kept always succeeds (the eviction meets no empty dictionary), and leaves such a cache.
  pub keep-IsBounded :
      (limits : Limits) (now : ℕ) (k : K) (result : R) (ttl size_bytes : ℕ) (c : Cache K R)
      → IsBounded limits c
      → (c' : Cache K R) × (keep limits now k result ttl size_bytes c ≡ some c')
        × IsBounded limits c'
  unfolding keep
  keep-IsBounded limits now k result ttl size_bytes c h = elim (Bool-cases (ltb 0 ttl)) [
    | inl kept ↦ rw kept (
        evict_entries-IsBounded limits (pop k c.entries ++ (k, fresh) ∷ [])
          (c.size - replaced_size (lookup k c.entries) + size_bytes)
          (IsDistinct-append k fresh (pop k c.entries) (pop-IsDistinct k c.entries h.distinct)
            (lookup-pop_self k c.entries))
          (bytes-kept k fresh c h.distinct h.counted))
    | inr dropped ↦ (c, rw dropped, h)
  ]
    where
      fresh : Entry R
      fresh = record { expires_at = now + ttl; size_bytes = size_bytes; result = result }

  purge_entries-IsBounded :
      (limits : Limits) (now : ℕ) (d : Dict K (Entry R)) (size : ℕ)
      → IsBounded limits (record { entries = d; size = size })
      → IsBounded limits (purge_entries now d size)
  unfolding purge_entries
  purge_entries-IsBounded limits now [] size h = h
  purge_entries-IsBounded limits now ((j, x) ∷ d) size h =
      elim (Bool-cases (ltb now x.expires_at)) [
        | inl alive ↦ rw alive h
        | inr over ↦ rw over (
            purge_entries-IsBounded limits now d (size - x.size_bytes) (record {
              distinct = h.distinct.1;
              counted = omega (arith, h.counted);
              few = omega (arith, h.few);
              small = omega (arith, h.small);
            }))
      ]

  hit-IsBounded :
      (limits : Limits) (now : ℕ) (k : K) (c : Cache K R)
      → IsBounded limits c
      → IsBounded limits (hit now k c).1
  unfolding hit
  hit-IsBounded limits now k c h = go (lookup k c.entries) refl
    where
      moved :
          (x : Entry R)
          → lookup k c.entries ≡ some x
          → IsBounded limits (record c { entries = pop k c.entries ++ (k, x) ∷ [] })
      moved x found = record {
        distinct =
            IsDistinct-append k x (pop k c.entries) (pop-IsDistinct k c.entries h.distinct)
              (lookup-pop_self k c.entries);
        counted = omega (
          arith,
          h.counted,
          bytes-pop k c.entries h.distinct,
          ap replaced_size found,
          total-append (λ e. e.1.size_bytes) (pop k c.entries) ((k, x) ∷ []),
        );
        few = omega (
          arith,
          h.few,
          length-pop k c.entries h.distinct,
          ap {B = ℕ} (λ o. if is_none o then 0 else 1) found,
          length-append (pop k c.entries) ((k, x) ∷ []),
        );
        small = h.small;
      }

      go : (o : Option (Entry R)) → lookup k c.entries ≡ o → IsBounded limits (hit now k c).1
      go none e = rw (e, hit) h
      go (some x) e = elim (Bool-cases (ltb now x.expires_at)) [
        | inl alive ↦ rw (e, hit, alive) (moved x e)
        | inr over ↦ rw (e, hit, over) h
      ]

  -- Looking a result up, with its sweep of expired entries and its move to the end, leaves a
  -- cache with one entry to a key, an exact count of bytes and both limits kept, if it finds one.
  pub find-IsBounded :
      (limits : Limits) (now : ℕ) (k : K) (c : Cache K R)
      → IsBounded limits c
      → IsBounded limits (find now k c).1
  unfolding find purge
  find-IsBounded limits now k c h =
      hit-IsBounded limits now k (purge now c)
        (purge_entries-IsBounded limits now c.entries c.size h)
