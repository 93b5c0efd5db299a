-- ===== src/Common/Sort.antt =====
-- JavaScript's `sort` with a comparator, which is stable: `before a b` is `compare(a, b) <= 0`.
use mathlib.Core.Path.{◌≡◌, refl, ◌∙◌}
use mathlib.Core.Bool.{Bool, true, false, not, ◌&&◌, ◌||◌}
use mathlib.Core.Logic.{inl, inr}
use mathlib.Core.List.{List, [], ◌∷◌, ◌++◌, Perm}
use mathlib.Core.List.Perm
use native.Mathlib.Omega.{arith}
use new_specter.Common.Tests.{if◌then◌else◌, Bool-cases}
use new_specter.Common.Lists.{all_of, filter_by}

module _ {ℓ} {A : Type ℓ} (before : A → A → Bool) where
  abbrev pub place : A → List A → List A
  place x [] = x ∷ []
  place x (y ∷ ys) = if before x y then x ∷ y ∷ ys else y ∷ place x ys

  abbrev pub sort_by : List A → List A
  sort_by [] = []
  sort_by (x ∷ xs) = place x (sort_by xs)

  -- Every element is before all that follow it.
  abbrev pub is_sorted_by : List A → Bool
  is_sorted_by [] = true
  is_sorted_by (x ∷ xs) = all_of (before x) xs && is_sorted_by xs

  place-Perm : (x : A) (ys : List A) → Perm (place x ys) (x ∷ ys)
  place-Perm x [] = Perm.rfl
  place-Perm x (y ∷ ys) = elim (Bool-cases (before x y)) [
    | inl e ↦ rw e Perm.rfl
    | inr e ↦ rw e (Perm.trans (Perm.cons y (place-Perm x ys)) (Perm.swap x y ys))
  ]

  -- Sorting loses and invents nothing.
  pub sort_by-Perm : (xs : List A) → Perm (sort_by xs) xs
  sort_by-Perm [] = Perm.rfl
  sort_by-Perm (x ∷ xs) = Perm.trans (place-Perm x (sort_by xs)) (Perm.cons x (sort_by-Perm xs))

  place-all_of : (p : A → Bool) (x : A) (ys : List A) → all_of p (place x ys) ≡ (p x && all_of p ys)
  place-all_of p x [] = refl
  place-all_of p x (y ∷ ys) = ground (arith, place-all_of p x ys)

  pub sort_by-all_of : (p : A → Bool) (xs : List A) → all_of p (sort_by xs) ≡ all_of p xs
  sort_by-all_of p [] = refl
  sort_by-all_of p (x ∷ xs) = ground (arith, place-all_of p x (sort_by xs), sort_by-all_of p xs)

  -- Elements that tie pairwise keep their order.
  place-filter_by :
      (p : A → Bool) (x : A) (ys : List A)
      → ((a b : A) → p a ≡ true → p b ≡ true → before a b ≡ true)
      → filter_by p (place x ys) ≡ filter_by p (x ∷ ys)
  place-filter_by p x [] tied = refl
  place-filter_by p x (y ∷ ys) tied = ground (arith, place-filter_by p x ys tied, tied x y)

  pub sort_by-stable :
      (p : A → Bool) (xs : List A)
      → ((a b : A) → p a ≡ true → p b ≡ true → before a b ≡ true)
      → filter_by p (sort_by xs) ≡ filter_by p xs
  sort_by-stable p [] tied = refl
  sort_by-stable p (x ∷ xs) tied =
      place-filter_by p x (sort_by xs) tied ∙ ground (arith, sort_by-stable p xs tied)

  module _ (total : (a b : A) → (before a b || before b a) ≡ true)
      (trans : (a b c : A) → before a b ≡ true → before b c ≡ true → before a c ≡ true) where
    all_of-before :
        (x y : A) (ys : List A)
        → before x y ≡ true
        → all_of (before y) ys ≡ true
        → all_of (before x) ys ≡ true
    all_of-before x y [] h a = refl
    all_of-before x y (z ∷ ys) h a = ground (arith, all_of-before x y ys h, trans x y z)

    place-is_sorted_by :
        (x : A) (ys : List A) → is_sorted_by ys ≡ true → is_sorted_by (place x ys) ≡ true
    place-is_sorted_by x [] h = refl
    place-is_sorted_by x (y ∷ ys) h = ground (
      arith,
      place-is_sorted_by x ys,
      place-all_of (before y) x ys,
      all_of-before x y ys,
      total x y,
    )

    pub sort_by-is_sorted_by : (xs : List A) → is_sorted_by (sort_by xs) ≡ true
    sort_by-is_sorted_by [] = refl
    sort_by-is_sorted_by (x ∷ xs) = place-is_sorted_by x (sort_by xs) (sort_by-is_sorted_by xs)

-- By a test alone: the elements that pass it come first, and both groups keep their order.
module _ {ℓ} {A : Type ℓ} (p : A → Bool) where
  abbrev fails : A → Bool
  fails a = not (p a)

  abbrev first : A → A → Bool
  first a b = p a || not (p b)

  place_passing : (x : A) (ys : List A) → p x ≡ true → place first x ys ≡ x ∷ ys
  place_passing x [] h = refl
  place_passing x (y ∷ ys) h = ground arith

  place_failing :
      (x : A) (xs ys : List A)
      → p x ≡ false
      → place first x (filter_by p xs ++ filter_by fails ys)
        ≡ filter_by p xs ++ (x ∷ filter_by fails ys)
  place_failing x [] [] h = refl
  place_failing x [] (y ∷ ys) h = ground (arith, place_failing x [] ys h)
  place_failing x (y ∷ xs) ys h = ground (arith, place_failing x xs ys h)

  pub sort_by-eq-filter_by :
      (xs : List A)
      → sort_by (λ a b. p a || not (p b)) xs ≡ filter_by p xs ++ filter_by (λ a. not (p a)) xs
  sort_by-eq-filter_by [] = refl
  sort_by-eq-filter_by (x ∷ xs) = elim (Bool-cases (p x)) [
    | inl e ↦
        rw (sort_by-eq-filter_by xs, e) (place_passing x (filter_by p xs ++ filter_by fails xs) e)
    | inr e ↦ rw (sort_by-eq-filter_by xs, e) (place_failing x xs xs e)
  ]
