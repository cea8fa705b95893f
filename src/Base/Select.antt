-- ===== src/Base/Select.antt =====
-- Selections of lists and dictionaries, and dictionaries that are made of rows.
use Prim.Native.Nat.{ℕ, zero, suc}
use mathlib.Core.Path.{◌≡◌, refl, ap}
use mathlib.Core.Bool.{Bool, true, false, not, ◌||◌}
use mathlib.Core.Logic.{inl, inr}
use mathlib.Core.List.{List, [], ◌∷◌, ◌++◌, map}
use mathlib.Core.Option.{none, some}
use native.Mathlib.Omega.{arith}
use creator_engagement_proje.Base.Tests.{if◌then◌else◌, Key, ◌==◌, Bool-cases}
use creator_engagement_proje.Base.Lists.{take, select, contains, IsDistinct, All, first}
use creator_engagement_proje.Base.Dict.{Dict, keys, lookup, insert, pop, contains-keys, same_refl}

module _ {ℓ} {A : Type ℓ} where
  pub map_cong {κ} :
      {B : Type κ} (f g : A → B) (xs : List A) → All (λ a. f a ≡ g a) xs → map f xs ≡ map g xs
  map_cong f g [] h = refl
  map_cong f g (x ∷ xs) h = λ i. h.0 i ∷ map_cong f g xs h.1 i

  pub select_cong :
      (p q : A → Bool) (xs : List A) → All (λ a. p a ≡ q a) xs → select p xs ≡ select q xs
  select_cong p q [] h = refl
  select_cong p q (x ∷ xs) h = ground (arith, h.0, select_cong p q xs h.1)

  pub select-map {κ} :
      {B : Type κ} (p : B → Bool) (f : A → B) (xs : List A)
      → select p (map f xs) ≡ map f (select (λ a. p (f a)) xs)
  select-map p f [] = refl
  select-map p f (x ∷ xs) = ground (arith, select-map p f xs)

  pub All-select {κ} :
      (Q : A → Type κ) (p : A → Bool) (xs : List A) → All Q xs → All Q (select p xs)
  All-select Q p [] h = tt
  All-select Q p (x ∷ xs) h = elim (Bool-cases (p x)) [
    | inl keeps ↦ rw keeps (h.0, All-select Q p xs h.1)
    | inr drops ↦ rw drops (All-select Q p xs h.1)
  ]

  pub All-imp {κ ι} :
      (Q : A → Type κ) (R : A → Type ι) (xs : List A) → ((a : A) → Q a → R a) → All Q xs → All R xs
  All-imp Q R [] step h = tt
  All-imp Q R (x ∷ xs) step h = (step x h.0, All-imp Q R xs step h.1)

  pub All-take {κ} : (Q : A → Type κ) (n : ℕ) (xs : List A) → All Q xs → All Q (take n xs)
  All-take Q zero xs h = tt
  All-take Q (suc n) [] h = tt
  All-take Q (suc n) (x ∷ xs) h = (h.0, All-take Q n xs h.1)

  -- The elements that pass a test are changed.
  pub All-update {κ} :
      (Q : A → Type κ) (test : A → Bool) (change : A → A) (xs : List A)
      → ((a : A) → Q a → Q (change a))
      → All Q xs
      → All Q (map (λ a. if test a then change a else a) xs)
  All-update Q test change [] keeps h = tt
  All-update Q test change (x ∷ xs) keeps h = elim (Bool-cases (test x)) [
    | inl e ↦ rw e (keeps x h.0, All-update Q test change xs keeps h.1)
    | inr e ↦ rw e (h.0, All-update Q test change xs keeps h.1)
  ]

  pub All-zip {κ ι μ} :
      (Q : A → Type κ) (R : A → Type ι) (S : A → Type μ) (xs : List A)
      → ((a : A) → Q a → R a → S a)
      → All Q xs
      → All R xs
      → All S xs
  All-zip Q R S [] step h g = tt
  All-zip Q R S (x ∷ xs) step h g = (step x h.0 g.0, All-zip Q R S xs step h.1 g.1)

  pub map_same : (f : A → A) (xs : List A) → ((a : A) → f a ≡ a) → map f xs ≡ xs
  map_same f [] h = refl
  map_same f (x ∷ xs) h = λ i. h x i ∷ map_same f xs h i

  pub map_ext {κ} :
      {B : Type κ} (f g : A → B) (xs : List A) → ((a : A) → f a ≡ g a) → map f xs ≡ map g xs
  map_ext f g [] h = refl
  map_ext f g (x ∷ xs) h = λ i. h x i ∷ map_ext f g xs h i

  pub map-map {κ ι} :
      {B : Type κ} {C : Type ι} (g : B → C) (f : A → B) (xs : List A)
      → map g (map f xs) ≡ map (λ a. g (f a)) xs
  map-map g f [] = refl
  map-map g f (x ∷ xs) = λ i. g (f x) ∷ map-map g f xs i

  pub map-append {κ} :
      {B : Type κ} (f : A → B) (xs ys : List A) → map f (xs ++ ys) ≡ map f xs ++ map f ys
  map-append f [] ys = refl
  map-append f (x ∷ xs) ys = λ i. f x ∷ map-append f xs ys i

module _ {ℓ κ} {K : Type ℓ} {V : Type κ} ⦃e : Key K⦄ where
  pub pop-select : (k : K) (d : Dict K V) → pop k d ≡ select (λ x. not (x.0 == k)) d
  unfolding pop
  pop-select k [] = refl
  pop-select k ((j, v) ∷ d) = ground (arith, pop-select k d)

  -- A new key goes to the end.
  pub insert_new :
      (k : K) (v : V) (d : Dict K V) → contains (keys d) k ≡ false → insert k v d ≡ d ++ (k, v) ∷ []
  unfolding insert
  insert_new k v [] h = refl
  insert_new k v ((j, w) ∷ d) h = ground (arith, insert_new k v d)

-- Rows with a key, such as those of a table.
module _ {ℓ κ} {A : Type ℓ} {K : Type κ} ⦃e : Key K⦄ (id : A → K) where
  -- No row of the list has the key.
  pub All-other :
      (k : K) (xs : List A) → contains (map id xs) k ≡ false → All (λ a. (id a == k) ≡ false) xs
  All-other k [] h = tt
  All-other k (x ∷ xs) h = (ground arith, All-other k xs (ground arith))

  pub contains-map-select :
      (p : A → Bool) (k : K) (xs : List A)
      → contains (map id xs) k ≡ false
      → contains (map id (select p xs)) k ≡ false
  contains-map-select p k [] h = refl
  contains-map-select p k (x ∷ xs) h = ground (arith, contains-map-select p k xs)

  pub select-IsDistinct :
      (p : A → Bool) (xs : List A) → IsDistinct (map id xs) → IsDistinct (map id (select p xs))
  select-IsDistinct p [] h = tt
  select-IsDistinct p (x ∷ xs) h =
      ground (arith, select-IsDistinct p xs h.1, contains-map-select p (id x) xs h.0)

  -- Where keys are distinct, a key is among the selected ones exactly if its row is selected.
  pub contains-selected :
      (p : A → Bool) (xs : List A)
      → IsDistinct (map id xs)
      → All (λ a. contains (map id (select p xs)) (id a) ≡ p a) xs
  contains-selected p [] h = tt
  contains-selected p (x ∷ xs) h = (
    ground (arith, same_refl (id x), contains-map-select p (id x) xs h.0),
    All-zip (λ a. contains (map id (select p xs)) (id a) ≡ p a) (λ a. (id a == id x) ≡ false)
        (λ a. contains (map id (select p (x ∷ xs))) (id a) ≡ p a) xs
        (λ a q r. ground (arith, e.same_iff (id x) (id a), e.same_iff (id a) (id x)))
        (contains-selected p xs h.1) (All-other (id x) xs h.0),
  )

  pub All-contains : (xs : List A) → All (λ a. contains (map id xs) (id a) ≡ true) xs
  All-contains [] = tt
  All-contains (x ∷ xs) = (
    ground (arith, same_refl (id x)),
    All-imp (λ a. contains (map id xs) (id a) ≡ true)
        (λ a. contains (map id (x ∷ xs)) (id a) ≡ true) xs (λ a q. ground arith) (All-contains xs),
  )

  -- A dictionary of the rows under their keys, less some keys.
  pub select-rows {ι} :
      {V : Type ι} (f : A → V) (ks : List K) (p : A → Bool) (xs : List A)
      → All (λ a. contains ks (id a) ≡ p a) xs
      → select {A = K × V} (λ x. not (contains ks x.0)) (map (λ a. (id a, f a)) xs)
        ≡ map (λ a. (id a, f a)) (select (λ a. not (p a)) xs)
  select-rows f ks p [] h = refl
  select-rows f ks p (x ∷ xs) h = ground (arith, h.0, select-rows f ks p xs h.1)

  pub lookup-rows {ι} :
      {V : Type ι} (f : A → V) (k : K) (xs : List A)
      → lookup k (map (λ a. (id a, f a)) xs)
        ≡ (elim (first (λ a. id a == k) xs) [ none ↦ none | some a ↦ some (f a) ])
  unfolding lookup
  lookup-rows f k [] = refl
  lookup-rows f k (x ∷ xs) = ground (arith, lookup-rows f k xs)

  pub contains-append_one :
      (k : K) (a : A) (xs : List A)
      → contains (map id (xs ++ a ∷ [])) k ≡ (contains (map id xs) k || id a == k)
  contains-append_one k a [] = ground arith
  contains-append_one k a (x ∷ xs) = ground (arith, contains-append_one k a xs)

  pub IsDistinct-append_one :
      (a : A) (xs : List A)
      → IsDistinct (map id xs)
      → contains (map id xs) (id a) ≡ false
      → IsDistinct (map id (xs ++ a ∷ []))
  IsDistinct-append_one a [] h fresh = (refl, tt)
  IsDistinct-append_one a (x ∷ xs) h fresh = ground (
    arith,
    IsDistinct-append_one a xs h.1,
    contains-append_one (id x) a xs,
    e.same_iff (id x) (id a),
    e.same_iff (id a) (id x),
  )

  -- A new row is a new key of the dictionary of the rows.
  pub insert_new_row {ι} :
      {V : Type ι} (f : A → V) (a : A) (v : V) (xs : List A)
      → contains (map id xs) (id a) ≡ false
      → f a ≡ v
      → map (λ x. (id x, f x)) (xs ++ a ∷ []) ≡ insert (id a) v (map (λ x. (id x, f x)) xs)
  unfolding insert
  insert_new_row f a v [] fresh same = λ i. (id a, same i) ∷ []
  insert_new_row f a v (x ∷ xs) fresh same =
      ground (arith, insert_new_row f a v xs (ground arith) same)

module _ {ℓ κ} {K : Type ℓ} {V : Type κ} ⦃e : Key K⦄ where
  pub keys-insert_there :
      (k : K) (v : V) (d : Dict K V) → contains (keys d) k ≡ true → keys (insert k v d) ≡ keys d
  unfolding insert
  keys-insert_there k v [] h = absurd (cc)
  keys-insert_there k v ((j, w) ∷ d) h = elim (Bool-cases (j == k)) [
    | inl here ↦ rw here refl
    | inr other ↦ rw other (λ i. j ∷ keys-insert_there k v d (rw other at h) i)
  ]

  -- Dictionaries with the same keys in the same order, and the same value under each.
  pub Dict_ext :
      (c d : Dict K V)
      → keys c ≡ keys d
      → IsDistinct (keys c)
      → ((k : K) → lookup k c ≡ lookup k d)
      → c ≡ d
  unfolding lookup
  Dict_ext [] [] same h read = refl
  Dict_ext [] ((k, w) ∷ d) same h read = absurd (cc)
  Dict_ext ((j, v) ∷ c) [] same h read = absurd (cc)
  Dict_ext ((j, v) ∷ c) ((k, w) ∷ d) same h read =
      let jk : j ≡ k = cc in
      let ks : keys c ≡ keys d = cc in
      let vw : v ≡ w = ground (arith, read j, same_refl j, e.same_iff k j) in
      let rest : c ≡ d = Dict_ext c d ks h.1 (λ i. ground (
        arith,
        read i,
        contains-keys j c,
        contains-keys k d,
        e.same_iff j i,
        e.same_iff k i,
        ap (λ l. contains l j) ks,
      )) in
      λ i. (jk i, vw i) ∷ rest i
