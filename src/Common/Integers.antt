-- ===== src/Common/Integers.antt =====
-- Integers over the native numbers.
use Prim.Native.Nat.{ℕ, suc, ◌+◌, ◌-◌}
use mathlib.Core.Path.{◌≡◌}
use mathlib.Core.Bool.{Bool}
use native.Mathlib.Omega.{arith}
use new_specter.Common.Tests.{leb, if◌then◌else◌}

-- `negsuc n` is -(n + 1).
pub data ℤ : Type 0 where
  pos negsuc : ℕ → ℤ

-- The part above zero and the part below it; one of them is zero.
abbrev pub credit : ℤ → ℕ
credit (pos n) = n
credit (negsuc n) = 0

abbrev pub debit : ℤ → ℕ
debit (pos n) = 0
debit (negsuc n) = suc n

abbrev pub difference : ℕ → ℕ → ℤ
difference a b = if leb b a then pos (a - b) else negsuc (b - suc a)

infixl 65 ◌+ℤ◌
unfoldable pub ◌+ℤ◌ : ℤ → ℤ → ℤ
a +ℤ b = difference (credit a + credit b) (debit a + debit b)

abbrev pub leb_ℤ : ℤ → ℤ → Bool
leb_ℤ a b = leb (credit a + debit b) (credit b + debit a)

pub +ℤ_lem : (a b : ℤ) → credit (a +ℤ b) + debit a + debit b ≡ debit (a +ℤ b) + credit a + credit b
unfolding ◌+ℤ◌
+ℤ_lem a b = ground arith

pub ℤ_ext : (a b : ℤ) → credit a + debit b ≡ credit b + debit a → a ≡ b
ℤ_ext a b h = ground arith

pub ruleset integers = (arith, +ℤ_lem, ℤ_ext)
