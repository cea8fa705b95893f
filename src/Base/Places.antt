-- ===== src/Base/Places.antt =====
-- Elements by their place, for objects that a list holds and that are changed in place.
use Prim.Native.Nat.{ℕ, zero, suc, ◌+◌}
use mathlib.Core.Path.{◌≡◌, refl, ap, sym, subst}
use mathlib.Core.Bool.{Bool, true}
use mathlib.Core.List.{List, [], ◌∷◌, ◌++◌, map}
use mathlib.Core.Option.{Option, none, some}
use native.Mathlib.Omega.{arith}
use creator_engagement_proje.Base.Tests.{if◌then◌else◌, Bool-cases}
use mathlib.Core.Logic.{inl, inr}
use creator_engagement_proje.Base.Lists.{first, total, All}

pub some-injective {ℓ} : {A : Type ℓ} {x y : A} → some x ≡ some y → x ≡ y
some-injective e = cc

All-map {ℓ κ ι} :
    {A : Type ℓ} {B : Type κ} (Q : B → Type ι) (f : A → B) (xs : List A)
    → All (λ a. Q (f a)) xs
    → All Q (map f xs)
All-map Q f [] h = tt
All-map Q f (x ∷ xs) h = (h.0, All-map Q f xs h.1)

module _ {ℓ} {A : Type ℓ} where
  -- What stands at a place.
  abbrev pub get_elem? : List A → ℕ → Option A
  get_elem? [] i = none
  get_elem? (x ∷ xs) zero = some x
  get_elem? (x ∷ xs) (suc i) = get_elem? xs i

  abbrev pub modify : ℕ → (A → A) → List A → List A
  modify i f [] = []
  modify zero f (x ∷ xs) = f x ∷ xs
  modify (suc i) f (x ∷ xs) = x ∷ modify i f xs

  -- The elements that satisfy the test, each with its place.
  abbrev pub places : (A → Bool) → List A → List (ℕ × A)
  places test [] = []
  places test (x ∷ xs) =
      let rest = map (λ p. (suc p.0, p.1)) (places test xs) in
      if test x then (0, x) ∷ rest else rest

  -- min(xs, key=...): the first element that none is less than.
  abbrev pub least : (A → A → Bool) → A → List A → A
  least less best [] = best
  least less best (x ∷ xs) = least less (if less x best then x else best) xs

  abbrev pub minimum : (A → A → Bool) → List A → Option A
  minimum less [] = none
  minimum less (x ∷ xs) = some (least less x xs)

  pub total-modify :
      (measure : A → ℕ) (i : ℕ) (f : A → A) (xs : List A) (x : A)
      → get_elem? xs i ≡ some x
      → total measure (modify i f xs) + measure x ≡ total measure xs + measure (f x)
  total-modify measure i f [] x found = absurd cc
  total-modify measure zero f (y ∷ xs) x found = ground arith
  total-modify measure (suc i) f (y ∷ xs) x found =
      omega (arith, total-modify measure i f xs x found)

  pub get_elem?-modify :
      (i : ℕ) (f : A → A) (xs : List A) (x : A)
      → get_elem? xs i ≡ some x
      → get_elem? (modify i f xs) i ≡ some (f x)
  get_elem?-modify i f [] x found = absurd cc
  get_elem?-modify zero f (y ∷ ys) x found = ap (λ z. some (f z)) (some-injective found)
  get_elem?-modify (suc i) f (y ∷ ys) x found = get_elem?-modify i f ys x found

  -- A place with its element, which satisfies the test.
  abbrev pub IsPlace : (A → Bool) → List A → ℕ × A → Type ℓ
  IsPlace test xs p = (get_elem? xs p.0 ≡ some p.1) × (test p.1 ≡ true)

  pub places-IsPlace : (test : A → Bool) (xs : List A) → All (IsPlace test xs) (places test xs)
  places-IsPlace test [] = tt
  places-IsPlace test (x ∷ xs) =
      let rest =
        All-map (IsPlace test (x ∷ xs)) (λ p. (suc p.0, p.1)) (places test xs)
          (places-IsPlace test xs) in
      elim (Bool-cases (test x)) [
        | inl passes ↦ rw passes ((refl, passes), rest)
        | inr fails ↦ rw fails rest
      ]

module _ {ℓ κ} {A : Type ℓ} where
  pub All-modify :
      (Q : A → Type κ) (i : ℕ) (f : A → A) (xs : List A) (x : A)
      → get_elem? xs i ≡ some x
      → (Q x → Q (f x))
      → All Q xs
      → All Q (modify i f xs)
  All-modify Q i f [] x found step all = tt
  All-modify Q zero f (y ∷ xs) x found step all = (
    subst Q (ap f (sym (some-injective found))) (step (subst Q (some-injective found) all.0)),
    all.1,
  )
  All-modify Q (suc i) f (y ∷ xs) x found step all = (all.0, All-modify Q i f xs x found step all.1)

  pub All-get_elem? :
      (Q : A → Type κ) (i : ℕ) (xs : List A) (x : A) → get_elem? xs i ≡ some x → All Q xs → Q x
  All-get_elem? Q i [] x found all = absurd cc
  All-get_elem? Q zero (y ∷ xs) x found all = subst Q (some-injective found) all.0
  All-get_elem? Q (suc i) (y ∷ xs) x found all = All-get_elem? Q i xs x found all.1

  least-All :
      (Q : A → Type κ) (less : A → A → Bool) (best : A) (xs : List A)
      → Q best
      → All Q xs
      → Q (least less best xs)
  least-All Q less best [] q all = q
  least-All Q less best (x ∷ xs) q all =
      least-All Q less (if less x best then x else best) xs
        (elim (Bool-cases (less x best)) [ inl passes ↦ rw passes all.0 | inr fails ↦ rw fails q ])
        all.1

  pub minimum-All :
      (Q : A → Type κ) (less : A → A → Bool) (xs : List A) (x : A)
      → All Q xs
      → minimum less xs ≡ some x
      → Q x
  minimum-All Q less [] x all found = absurd cc
  minimum-All Q less (y ∷ ys) x all found =
      subst Q (some-injective found) (least-All Q less y ys all.0 all.1)

  pub first-All :
      (Q : A → Type κ) (test : A → Bool) (xs : List A) (x : A)
      → All Q xs
      → first test xs ≡ some x
      → Q x
  first-All Q test [] x all found = absurd cc
  first-All Q test (y ∷ ys) x all found = elim (Bool-cases (test y)) [
    | inl passes ↦ subst Q (some-injective (rw passes at found)) all.0
    | inr fails ↦ first-All Q test ys x all.1 (rw fails at found)
  ]

  pub All-append_one :
      (Q : A → Type κ) (xs : List A) (x : A) → All Q xs → Q x → All Q (xs ++ x ∷ [])
  All-append_one Q [] x all q = (q, tt)
  All-append_one Q (y ∷ ys) x all q = (all.0, All-append_one Q ys x all.1 q)
