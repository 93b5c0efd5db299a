-- ===== src/Common/Lists.antt =====
-- Lists measured and indexed by native numbers, and JavaScript's `some`, `every` and `filter`.
use Prim.Native.Nat.{ℕ, zero, suc, ◌+◌, ◌<◌, ◌≤◌}
use mathlib.Core.Path.{◌≡◌, refl}
use mathlib.Core.Bool.{Bool, true, false, ◌&&◌, ◌||◌}
use mathlib.Core.List.{List, [], ◌∷◌, ◌++◌}
use native.Mathlib.Omega.{arith}
use new_specter.Common.Tests.{if◌then◌else◌}

module _ {ℓ} {A : Type ℓ} where
  abbrev pub length : List A → ℕ
  length [] = 0
  length (x ∷ xs) = suc (length xs)

  abbrev pub get_or : List A → ℕ → A → A
  get_or [] i d = d
  get_or (x ∷ xs) zero d = x
  get_or (x ∷ xs) (suc i) d = get_or xs i d

  abbrev pub any_of : (A → Bool) → List A → Bool
  any_of p [] = false
  any_of p (x ∷ xs) = p x || any_of p xs

  abbrev pub all_of : (A → Bool) → List A → Bool
  all_of p [] = true
  all_of p (x ∷ xs) = p x && all_of p xs

  abbrev pub filter_by : (A → Bool) → List A → List A
  filter_by p [] = []
  filter_by p (x ∷ xs) = if p x then x ∷ filter_by p xs else filter_by p xs

  pub length-append : (xs ys : List A) → length (xs ++ ys) ≡ length xs + length ys
  length-append [] ys = omega arith
  length-append (x ∷ xs) ys = omega (arith, length-append xs ys)

  pub any_of-append :
      (p : A → Bool) (xs ys : List A) → any_of p (xs ++ ys) ≡ (any_of p xs || any_of p ys)
  any_of-append p [] ys = refl
  any_of-append p (x ∷ xs) ys = ground (arith, any_of-append p xs ys)

  -- An element inside the bounds is among the elements.
  pub get_or-any_of :
      (p : A → Bool) (xs : List A) (i : ℕ) (d : A)
      → i < length xs
      → p (get_or xs i d) ≡ true
      → any_of p xs ≡ true
  get_or-any_of p [] i d h e = elim h [ ]
  get_or-any_of p (x ∷ xs) zero d h e = ground arith
  get_or-any_of p (x ∷ xs) (suc i) d h e = ground (arith, get_or-any_of p xs i d (omega arith) e)

  -- A test that fails at every index fails for the whole list.
  pub any_of-false :
      (p : A → Bool) (xs : List A) (d : A)
      → ((i : ℕ) → i < length xs → p (get_or xs i d) ≡ false)
      → any_of p xs ≡ false
  any_of-false p [] d h = refl
  any_of-false p (x ∷ xs) d h =
      ground (arith, h 0 (omega arith), any_of-false p xs d (λ i l. h (suc i) (omega arith)))

  -- `every` and `some` are dual.
  pub all_of-get_or :
      (p : A → Bool) (xs : List A) (i : ℕ) (d : A)
      → all_of p xs ≡ true
      → i < length xs
      → p (get_or xs i d) ≡ true
  all_of-get_or p [] i d a h = elim h [ ]
  all_of-get_or p (x ∷ xs) zero d a h = ground arith
  all_of-get_or p (x ∷ xs) (suc i) d a h = all_of-get_or p xs i d (ground arith) (omega arith)

  pub all_of-filter_by :
      (p q : A → Bool) (xs : List A) → all_of p xs ≡ true → all_of p (filter_by q xs) ≡ true
  all_of-filter_by p q [] h = refl
  all_of-filter_by p q (x ∷ xs) h = ground (arith, all_of-filter_by p q xs)

  pub length-filter_by-le : (p : A → Bool) (xs : List A) → length (filter_by p xs) ≤ length xs
  length-filter_by-le p [] = omega arith
  length-filter_by-le p (x ∷ xs) = ground (arith, length-filter_by-le p xs)
