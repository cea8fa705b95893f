-- ===== src/Base/Dict.antt =====
-- Python's `dict`: an association list in insertion order. A write to a key that is there
-- keeps its place; a new key goes to the end.
use creator_engagement_proje.Base.Tests.{if◌then◌else◌, Key, ◌==◌}
use mathlib.Core.Path.{◌≡◌, refl}
use mathlib.Core.Bool.{true, false, not, ◌||◌}
use creator_engagement_proje.Base.Tests.{is_none}
use creator_engagement_proje.Base.Lists.{contains, IsDistinct}
use mathlib.Core.List.{List, [], ◌∷◌, map}
use mathlib.Core.Option.{Option, none, some}
use native.Mathlib.Omega.{arith}

abbrev pub Dict {ℓ κ} : Type ℓ → Type κ → Type (ℓ ⊔ κ)
Dict K V = List (K × V)

module _ {ℓ κ} {K : Type ℓ} {V : Type κ} where
  -- d.keys(), d.values()
  abbrev pub keys : Dict K V → List K
  keys d = map (λ e. e.0) d

  abbrev pub values : Dict K V → List V
  values d = map (λ e. e.1) d

pub same_refl {ℓ} : {K : Type ℓ} ⦃e : Key K⦄ (k : K) → (k == k) ≡ true
same_refl ⦃e⦄ k = (e.same_iff k k).1 refl

module _ {ℓ κ} {K : Type ℓ} {V : Type κ} ⦃e : Key K⦄ where
  -- d.get(wanted)
  unfoldable pub lookup : K → Dict K V → Option V
  lookup wanted [] = none
  lookup wanted ((k, value) ∷ others) = if k == wanted then some value else lookup wanted others

  -- d[key] = value
  unfoldable pub insert : K → V → Dict K V → Dict K V
  insert key value [] = (key, value) ∷ []
  insert key value ((k, old) ∷ others) =
      let rest = insert key value others in
      if k == key then (k, value) ∷ others else (k, old) ∷ rest

  -- d.pop(gone, None)
  unfoldable pub pop : K → Dict K V → Dict K V
  pop gone [] = []
  pop gone ((k, old) ∷ others) =
      let rest = pop gone others in if k == gone then rest else (k, old) ∷ rest

  pub lookup-insert :
      (k j : K) (v : V) (d : Dict K V)
      → lookup j (insert k v d) ≡ (if k == j then some v else lookup j d)
  unfolding lookup insert
  lookup-insert k j v [] = refl
  lookup-insert k j v ((i, w) ∷ d) =
      ground (arith, lookup-insert k j v d, e.same_iff i k, e.same_iff i j, e.same_iff k j)

  pub lookup-pop :
      (k j : K) (d : Dict K V) → lookup j (pop k d) ≡ (if k == j then none else lookup j d)
  unfolding lookup pop
  lookup-pop k j [] = ground arith
  lookup-pop k j ((i, w) ∷ d) =
      ground (arith, lookup-pop k j d, e.same_iff i k, e.same_iff i j, e.same_iff k j)

  pub lookup-insert_self : (k : K) (v : V) (d : Dict K V) → lookup k (insert k v d) ≡ some v
  lookup-insert_self k v d = ground (arith, lookup-insert k k v d, same_refl k)

  pub lookup-pop_self : (k : K) (d : Dict K V) → lookup k (pop k d) ≡ none
  lookup-pop_self k d = ground (arith, lookup-pop k k d, same_refl k)

  pub contains-keys : (k : K) (d : Dict K V) → contains (keys d) k ≡ not (is_none (lookup k d))
  unfolding lookup
  contains-keys k [] = refl
  contains-keys k ((j, w) ∷ d) = ground (arith, contains-keys k d)

  pub contains-keys-insert :
      (k j : K) (v : V) (d : Dict K V)
      → contains (keys (insert k v d)) j ≡ (k == j || contains (keys d) j)
  unfolding insert
  contains-keys-insert k j v [] = refl
  contains-keys-insert k j v ((i, w) ∷ d) =
      ground (arith, contains-keys-insert k j v d, e.same_iff i k, e.same_iff i j, e.same_iff k j)

  pub contains-keys-pop :
      (k j : K) (d : Dict K V)
      → contains (keys (pop k d)) j ≡ (if k == j then false else contains (keys d) j)
  unfolding pop
  contains-keys-pop k j [] = ground arith
  contains-keys-pop k j ((i, w) ∷ d) =
      ground (arith, contains-keys-pop k j d, e.same_iff i k, e.same_iff i j, e.same_iff k j)

  pub insert-IsDistinct :
      (k : K) (v : V) (d : Dict K V) → IsDistinct (keys d) → IsDistinct (keys (insert k v d))
  unfolding insert
  insert-IsDistinct k v [] h = (refl, tt)
  insert-IsDistinct k v ((i, w) ∷ d) h = ground (
    arith,
    insert-IsDistinct k v d h.1,
    contains-keys-insert k i v d,
    e.same_iff i k,
    e.same_iff k i,
  )

  pub pop-IsDistinct : (k : K) (d : Dict K V) → IsDistinct (keys d) → IsDistinct (keys (pop k d))
  unfolding pop
  pop-IsDistinct k [] h = tt
  pop-IsDistinct k ((i, w) ∷ d) h = ground (arith, pop-IsDistinct k d h.1, contains-keys-pop k i d)
