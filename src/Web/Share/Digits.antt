-- ===== src/Web/Share/Digits.antt =====
-- The digits of base64: `btoa` followed by `atob`.
use new_specter.Web.Share.Base64.{digit, value_of, groups}
use new_specter.Common.{
  ℕ, ◌+◌, ◌*◌, ◌/◌, ◌%◌, ◌<◌, ◌≡◌, refl, Bool, true, false, ◌&&◌, ◌||◌, none, some, List, [], ◌∷◌,
  arith, leb, ◌==◌, all_of,
}

abbrev pub IsByte : ℕ → Type 0
IsByte b = b < 256

abbrev pub AllBytes : List ℕ → Type 0
AllBytes [] = Unit
AllBytes (b ∷ bs) = IsByte b × AllBytes bs

-- The digits of `btoa` without the padding.
unfoldable pub digits : List ℕ → List ℕ
digits [] = []
digits (a ∷ []) = digit (a / 4) ∷ digit (a % 4 * 16) ∷ []
digits (a ∷ b ∷ []) = digit (a / 4) ∷ digit (a % 4 * 16 + b / 16) ∷ digit (b % 16 * 4) ∷ []
digits (a ∷ b ∷ c ∷ rest) =
    digit (a / 4)
    ∷ digit (a % 4 * 16 + b / 16)
    ∷ digit (b % 16 * 4 + c / 64)
    ∷ digit (c % 64)
    ∷ digits rest

-- A digit of base64, in the alphabet of the standard.
abbrev pub is_digit : ℕ → Bool
is_digit c =
    (leb b'A' c && leb c b'Z')
    || (leb b'a' c && leb c b'z')
    || (leb b'0' c && leb c b'9')
    || c == b'+'
    || c == b'/'

pub digit-is_digit : (n : ℕ) → n < 64 → is_digit (digit n) ≡ true
unfolding digit
digit-is_digit n h = ground arith

pub value_of-digit : (n : ℕ) → n < 64 → value_of (digit n) ≡ some n
unfolding digit value_of
value_of-digit n h = ground arith

pub value_of-foreign : (c : ℕ) → is_digit c ≡ false → value_of c ≡ none
unfolding value_of
value_of-foreign c h = ground arith

pub digits-is_digit : (bs : List ℕ) → AllBytes bs → all_of is_digit (digits bs) ≡ true
unfolding digits
digits-is_digit [] h = refl
digits-is_digit (a ∷ []) h = ground (arith, digit-is_digit (a / 4), digit-is_digit (a % 4 * 16))
digits-is_digit (a ∷ b ∷ []) h = ground (
  arith,
  digit-is_digit (a / 4),
  digit-is_digit (a % 4 * 16 + b / 16),
  digit-is_digit (b % 16 * 4),
)
digits-is_digit (a ∷ b ∷ c ∷ rest) h = ground (
  arith,
  digit-is_digit (a / 4),
  digit-is_digit (a % 4 * 16 + b / 16),
  digit-is_digit (b % 16 * 4 + c / 64),
  digit-is_digit (c % 64),
  digits-is_digit rest h.1.1.1,
)

pub groups-digits : (bs : List ℕ) → AllBytes bs → groups (digits bs) ≡ some bs
unfolding digits groups
groups-digits [] h = refl
groups-digits (a ∷ []) h =
    rw (value_of-digit (a / 4) (omega arith), value_of-digit (a % 4 * 16) (omega arith))
      (ground arith)
groups-digits (a ∷ b ∷ []) h =
    rw
      (
        value_of-digit (a / 4) (omega arith),
        value_of-digit (a % 4 * 16 + b / 16) (omega arith),
        value_of-digit (b % 16 * 4) (omega arith),
      )
      (ground arith)
groups-digits (a ∷ b ∷ c ∷ rest) h =
    rw
      (
        value_of-digit (a / 4) (omega arith),
        value_of-digit (a % 4 * 16 + b / 16) (omega arith),
        value_of-digit (b % 16 * 4 + c / 64) (omega arith),
        value_of-digit (c % 64) (omega arith),
        groups-digits rest h.1.1.1,
      )
      (ground arith)
