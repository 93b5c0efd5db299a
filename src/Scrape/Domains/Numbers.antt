-- ===== src/Scrape/Domains/Numbers.antt =====
-- What the parsers of domains/ read in a text: `parseFloat`, `trim` and the price of generic.ts. A
-- number counts units of which `unit` make one unit of its currency; exponents, `Infinity` and what
-- is below the unit are left out.
use Prim.Native.Char.{code}
use new_specter.Scrape.Validate.{Number, nan, below_zero, amount, is_space, trim_start}
use new_specter.Common.{
  ℕ, ◌+◌, ◌-◌, ◌*◌, ◌/◌, ◌^◌, String, Bool, true, false, ◌&&◌, ◌||◌, Option, none, some, List, [],
  ◌∷◌, ◌++◌, leb, ◌==◌, if◌then◌else◌, length, filter_by, str_eq, codes,
}

abbrev pub is_decimal : ℕ → Bool
is_decimal c = leb b'0' c && leb c b'9'

-- The digits at the start, and the rest.
unfoldable pub digits_of : List ℕ → List ℕ × List ℕ
digits_of [] = ([], [])
digits_of (c ∷ cs) =
    let (ds, rest) = digits_of cs in if is_decimal c then (c ∷ ds, rest) else ([], c ∷ cs)

unfoldable pub value_from : ℕ → List ℕ → ℕ
value_from n [] = n
value_from n (c ∷ cs) = value_from (n * 10 + (c - b'0')) cs

unfoldable pub fraction_of : List ℕ → List ℕ
fraction_of [] = []
fraction_of (c ∷ cs) = if c == b'.' then (digits_of cs).0 else []

-- A decimal without a sign.
unfoldable pub plain_float : ℕ → List ℕ → Number
plain_float unit t =
    let (whole, rest) = digits_of t in
    let fraction = fraction_of rest in
    let all = whole ++ fraction in
    if length all == 0 then nan else amount (value_from 0 all * unit / 10 ^ length fraction)

abbrev pub negated : Number → Number
negated (amount n) = below_zero n
negated x = x

abbrev pub signed_float : ℕ → List ℕ → Number
signed_float unit [] = nan
signed_float unit (c ∷ cs) =
    if c == b'-'
    then negated (plain_float unit cs)
    else if c == b'+'
    then plain_float unit cs
    else plain_float unit (c ∷ cs)

unfoldable pub parse_float : ℕ → List ℕ → Number
parse_float unit t = signed_float unit (trim_start t)

abbrev pub is_nan : Number → Bool
is_nan nan = true
is_nan _ = false

abbrev pub not_nan : Number → Option Number
not_nan x = if is_nan x then none else some x

-- `raw.replace(/[^\d.]/g, '')`
abbrev pub cleaned : List ℕ → List ℕ
cleaned = filter_by (λ c. is_decimal c || c == b'.')

-- `parsePrice`; an empty text is falsy.
unfoldable pub parse_price : ℕ → Option String → Option Number
parse_price unit none = none
parse_price unit (some String.[]) = none
parse_price unit (some (String.◌∷◌ c s)) =
    not_nan (parse_float unit (cleaned (codes (String.◌∷◌ c s))))

unfoldable pub trim_left : String → String
trim_left String.[] = String.[]
trim_left (String.◌∷◌ c s) =
    let rest = trim_left s in if is_space (code c) then rest else String.◌∷◌ c s

unfoldable pub trim_right : String → String
trim_right String.[] = String.[]
trim_right (String.◌∷◌ c s) =
    let rest = trim_right s in
    if is_space (code c) && str_eq rest String.[] then String.[] else String.◌∷◌ c rest

-- `s.trim() || null`
abbrev pub title_of : String → Option String
title_of s = let t = trim_right (trim_left s) in if str_eq t String.[] then none else some t

-- `value && title_of(value)` for a member that is a text.
abbrev pub title_or_null : Option String → Option String
title_or_null none = none
title_or_null (some s) = title_of s

-- `text.replace(pattern, '')` for a pattern of one character.
unfoldable pub without : (ℕ → Bool) → String → String
without p String.[] = String.[]
without p (String.◌∷◌ c s) =
    let rest = without p s in if p (code c) then rest else String.◌∷◌ c rest
