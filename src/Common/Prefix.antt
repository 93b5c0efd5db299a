-- ===== src/Common/Prefix.antt =====
-- JavaScript's concatenation of two texts, and the test and the rest of a prefix.
use Prim.Native.String.{String}
use Prim.Native.Char.{code}
use text.Mathlib.TextEquality.{Char-path}
use mathlib.Core.Path.{◌≡◌, refl, sym, ap, ◌∙◌}
use mathlib.Core.Logic.{inl, inr}
use mathlib.Core.Option.{Option, none, some}
use native.Mathlib.Omega.{arith}
use new_specter.Common.Tests.{◌==◌, if◌then◌else◌, Bool-cases}

-- `${p}${s}`
unfoldable pub joined : String → String → String
joined String.[] s = s
joined (String.◌∷◌ c p) s = String.◌∷◌ c (joined p s)

-- `s.startsWith(p)`, and then `s.slice(p.length)`.
unfoldable pub after : String → String → Option String
after String.[] s = some s
after (String.◌∷◌ c p) String.[] = none
after (String.◌∷◌ c p) (String.◌∷◌ d s) =
    let rest = after p s in if code c == code d then rest else none

pub after-joined : (p s : String) → after p (joined p s) ≡ some s
unfolding after joined
after-joined String.[] s = refl
after-joined (String.◌∷◌ c p) s = ground (arith, after-joined p s)

some-eq {ℓ} : {A : Type ℓ} {a b : A} → some a ≡ some b → a ≡ b
some-eq h = cc

pub joined-injective : (p s t : String) → joined p s ≡ joined p t → s ≡ t
joined-injective p s t h = some-eq (sym (after-joined p s) ∙ ap (after p) h ∙ after-joined p t)

pub joined-after : (p s t : String) → after p s ≡ some t → s ≡ joined p t
unfolding after joined
joined-after String.[] s t h = cc
joined-after (String.◌∷◌ c p) String.[] t h = cc
joined-after (String.◌∷◌ c p) (String.◌∷◌ d s) t h = elim (Bool-cases (code c == code d)) [
  | inl e ↦
      let same = Char-path c d (ground arith) in
      let r = joined-after p s t (rw e at h) in
      ap (λ x. String.◌∷◌ x s) (sym same) ∙ ap (λ x. String.◌∷◌ c x) r
  | inr e ↦ ground arith
]
