-- ===== src/Common/Split.antt =====
-- JavaScript's `text.split(separator)` for a separator of one character.
use Prim.Native.String.{String}
use Prim.Native.Char.{code}
use Prim.Native.Nat.{ℕ}
use mathlib.Core.Path.{◌≡◌, refl}
use mathlib.Core.Bool.{Bool, true, not}
use mathlib.Core.List.{List, [], ◌∷◌}
use native.Mathlib.Omega.{arith}
use new_specter.Common.Tests.{◌==◌, if◌then◌else◌, Bool-cases}
use mathlib.Core.Logic.{inl, inr}
use new_specter.Common.Lists.{any_of, all_of}
use new_specter.Common.Text.{codes}

-- A character put in front of the first part.
abbrev pub put_first : String → List String → List String
put_first s [] = s ∷ []
put_first s (t ∷ ts) = s ∷ ts

abbrev pub first_part : List String → String
first_part [] = String.[]
first_part (t ∷ ts) = t

unfoldable pub split_at : ℕ → String → List String
split_at sep String.[] = String.[] ∷ []
split_at sep (String.◌∷◌ c s) =
    let rest = split_at sep s in
    if code c == sep then String.[] ∷ rest else put_first (String.◌∷◌ c (first_part rest)) rest

abbrev pub has_code : ℕ → String → Bool
has_code n s = any_of (λ c. c == n) (codes s)

abbrev pub lacks : ℕ → String → Bool
lacks sep s = not (has_code sep s)

put_first-lacks :
    (sep : ℕ) (s : String) (ts : List String)
    → lacks sep s ≡ true
    → all_of (lacks sep) ts ≡ true
    → all_of (lacks sep) (put_first s ts) ≡ true
put_first-lacks sep s [] h a = ground arith
put_first-lacks sep s (t ∷ ts) h a = ground arith

first_part-lacks :
    (sep : ℕ) (ts : List String) → all_of (lacks sep) ts ≡ true → lacks sep (first_part ts) ≡ true
first_part-lacks sep [] a = refl
first_part-lacks sep (t ∷ ts) a = ground arith

-- No part has the separator.
pub split_at-lacks : (sep : ℕ) (s : String) → all_of (lacks sep) (split_at sep s) ≡ true
unfolding split_at
split_at-lacks sep String.[] = refl
split_at-lacks sep (String.◌∷◌ c s) =
    let rest = split_at sep s in
    let a = split_at-lacks sep s in
    elim (Bool-cases (code c == sep)) [
      | inl e ↦ rw (e, split_at) a
      | inr e ↦
          let f = first_part-lacks sep rest a in
          rw (e, split_at)
            (put_first-lacks sep (String.◌∷◌ c (first_part rest)) rest (ground arith) a)
    ]
