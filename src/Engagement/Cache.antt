-- ===== src/Engagement/Cache.antt =====
-- The result cache of EngagementService (`_fetch_cached`): an ordered dictionary, oldest use first,
-- with a count of its bytes. Monotonic instants are natural numbers of one small unit.
pub mod Bounds
pub mod Hits
use creator_engagement_proje.Base.{
  ℕ, zero, suc, ◌+◌, ◌-◌, String, ◌≡◌, refl, Bool, true, false, not, ◌&&◌, ◌||◌, Option, none, some,
  List, [], ◌∷◌, ◌++◌, arith, ltb, leb, if◌then◌else◌, Key, ◌==◌, length, total,
}
use creator_engagement_proje.Base.Dict.{Dict, lookup, pop}

pub record Entry {ℓ} (R : Type ℓ) : Type ℓ where
  pub expires_at : ℕ
  pub size_bytes : ℕ
  pub result : R

pub record Limits : Type 0 where
  pub max_entries : ℕ
  pub max_bytes : ℕ

pub record Cache {ℓ κ} (K : Type ℓ) (R : Type κ) : Type (ℓ ⊔ κ) where
  pub entries : Dict K (Entry R)
  pub size : ℕ

abbrev pub replaced_size {κ} : {R : Type κ} → Option (Entry R) → ℕ
replaced_size none = 0
replaced_size (some e) = e.size_bytes

module _ {ℓ κ} {K : Type ℓ} {R : Type κ} where
  abbrev pub empty : Cache K R
  empty = record { entries = []; size = 0 }

  -- while self._result_cache: the oldest entry goes if it has expired.
  unfoldable pub purge_entries : ℕ → Dict K (Entry R) → ℕ → Cache K R
  purge_entries now [] size = record { entries = []; size = size }
  purge_entries now ((k, e) ∷ rest) size =
      let rest' = purge_entries now rest (size - e.size_bytes) in
      if ltb now e.expires_at then record { entries = (k, e) ∷ rest; size = size } else rest'

  unfoldable pub purge : ℕ → Cache K R → Cache K R
  unfolding purge_entries
  purge now c = purge_entries now c.entries c.size

  -- The loop that drops the oldest entries; `none` is the KeyError of an empty dictionary.
  unfoldable pub evict_entries : Limits → Dict K (Entry R) → ℕ → Option (Cache K R)
  evict_entries limits [] size =
      if ltb limits.max_entries 0 || ltb limits.max_bytes size
      then none
      else some (record { entries = []; size = size })
  evict_entries limits ((k, e) ∷ rest) size =
      let rest' = evict_entries limits rest (size - e.size_bytes) in
      if ltb limits.max_entries (length ((k, e) ∷ rest)) || ltb limits.max_bytes size
      then rest'
      else some (record { entries = (k, e) ∷ rest; size = size })

module _ {ℓ κ} {K : Type ℓ} {R : Type κ} ⦃key : Key K⦄ where
  -- self._result_cache.get(key), and move_to_end(key) on a hit.
  unfoldable pub hit : ℕ → K → Cache K R → Option R × Cache K R
  hit now k c = elim (lookup k c.entries) [
    | none ↦ (none, c)
    | some e ↦
        if ltb now e.expires_at
        then (some e.result, record c { entries = pop k c.entries ++ (k, e) ∷ [] })
        else (none, c)
  ]

  -- What `_fetch_cached` does under the lock before it looks for a running task.
  unfoldable pub find : ℕ → K → Cache K R → Option R × Cache K R
  unfolding purge hit
  find now k c = hit now k (purge now c)

  -- What a waiter does with a finished result: `ttl` is how long it may be kept, `size_bytes` the
  -- length of its JSON text.
  unfoldable pub keep : Limits → ℕ → K → R → ℕ → ℕ → Cache K R → Option (Cache K R)
  unfolding evict_entries
  keep limits now k result ttl size_bytes c =
      if ltb 0 ttl
      then evict_entries limits
          (pop k c.entries
            ++ (k, record { expires_at = now + ttl; size_bytes = size_bytes; result = result })
              ∷ [])
          (c.size - replaced_size (lookup k c.entries) + size_bytes)
      else some c
