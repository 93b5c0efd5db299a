-- ===== src/Common/Text.antt =====
-- Equality of texts, and JavaScript's `includes` on arrays of them.
use Prim.Native.String.{String}
use text.Mathlib.Text
use text.Mathlib.TextEquality
use mathlib.Core.Path.{◌≡◌, refl}
use mathlib.Core.Logic.{◌↔◌, ◌≢◌}
use Prim.Native.Nat.{ℕ, ◌+◌}
use Prim.Native.Char.{code}
use mathlib.Core.Bool.{Bool, true, false, ◌&&◌, ◌||◌}
use new_specter.Common.Tests.{leb, ◌==◌, if◌then◌else◌}
use mathlib.Core.List.{List, [], ◌∷◌, map}
use native.Mathlib.Omega.{arith}
use new_specter.Common.Lists.{any_of}

abbrev pub str_eq : String → String → Bool
str_eq s t = Text.◌==◌ s t

pub str_eq_iff : (s t : String) → (str_eq s t ≡ true) ↔ (s ≡ t)
str_eq_iff s t = TextEquality.eq_iff s t

pub str_eq_refl : (s : String) → str_eq s s ≡ true
str_eq_refl s = (str_eq_iff s s).1 refl

pub str_eq_ne : (s t : String) → s ≢ t → str_eq s t ≡ false
str_eq_ne s t h = ground (arith, str_eq_iff s t)

abbrev pub includes : String → List String → Bool
includes s = any_of (str_eq s)

pub includes-any_of :
    (p : String → Bool) (xs : List String) (s : String)
    → includes s xs ≡ true
    → p s ≡ true
    → any_of p xs ≡ true
includes-any_of p [] s h e = cc
includes-any_of p (x ∷ xs) s h e = ground (arith, str_eq_iff s x, includes-any_of p xs s)

-- The code points of a text.
abbrev pub codes : String → List ℕ
codes String.[] = []
codes (String.◌∷◌ c s) = code c ∷ codes s

-- ASCII lower case of a code point, as in a case-insensitive pattern.
abbrev pub lower_code : ℕ → ℕ
lower_code c = if leb b'A' c && leb c b'Z' then c + 32 else c

abbrev pub is_prefix_of : List ℕ → List ℕ → Bool
is_prefix_of [] t = true
is_prefix_of (p ∷ ps) [] = false
is_prefix_of (p ∷ ps) (c ∷ cs) = p == c && is_prefix_of ps cs

abbrev pub is_infix_of : List ℕ → List ℕ → Bool
is_infix_of p [] = is_prefix_of p []
is_infix_of p (c ∷ cs) = is_prefix_of p (c ∷ cs) || is_infix_of p cs

-- `text.includes(part)`.
unfoldable pub contains : String → String → Bool
contains text part = is_infix_of (codes part) (codes text)

-- `/part/i.test(text)` for a pattern in lower case with no special characters.
unfoldable pub matches_ci : String → String → Bool
matches_ci text part = is_infix_of (codes part) (map lower_code (codes text))
