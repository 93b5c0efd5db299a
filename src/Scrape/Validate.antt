-- ===== src/Scrape/Validate.antt =====
-- workers/validate.ts: the five rules that a parsed price meets before it is written. A number is
-- exact: a price is a whole number of units of which `unit` make one unit of its currency. Also
-- domains/generic.ts, lines 9-26: a currency's normal form, with texts as lists of code points and
-- white space and letter case as ASCII has them.
use new_specter.Common.{
  is_infix_of, lower_code, ℕ, zero, suc, ◌+◌, ◌-◌, ◌*◌, ◌<◌, String, ◌≡◌, ◌↔◌, ◌⊎◌, Bool, true,
  false, not, ◌&&◌, ◌||◌, Option, none, some, List, [], ◌∷◌, ◌++◌, map, arith, ltb, leb, ◌==◌,
  if◌then◌else◌, is_some, length, any_of, all_of, codes,
}

-- What JavaScript's `number` holds here.
pub data Number : Type 0 where
  nan : Number
  infinity : Bool → Number
  below_zero : ℕ → Number
  amount : ℕ → Number

-- `in_stock` is `none` where the value is not a boolean.
pub record ParseResult : Type 0 where
  pub price : Option Number
  pub in_stock : Option Bool
  pub currency : String
  pub title : Option String

pub data ValidationError : Type 0 where
  price_invalid price_exceeds currency_not_iso in_stock_not_boolean : ValidationError

pub record ValidationResult : Type 0 where
  pub valid : Bool
  pub needs_review : Bool
  pub errors : List ValidationError

-- `result.price === null || !isFinite(result.price) || result.price <= 0`.
unfoldable pub breaks_positive : Option Number → Bool
breaks_positive (some (amount zero)) = true
breaks_positive (some (amount (suc n))) = false
breaks_positive _ = true

-- `result.price !== null && result.price >= 1_000_000`.
unfoldable pub breaks_ceiling : ℕ → Option Number → Bool
breaks_ceiling unit (some (amount n)) = leb (1_000_000 * unit) n
breaks_ceiling unit (some (infinity true)) = true
breaks_ceiling unit _ = false

abbrev pub is_space : ℕ → Bool
is_space c = c == 32 || (leb 9 c && leb c 13)

abbrev pub trim_start : List ℕ → List ℕ
trim_start [] = []
trim_start (c ∷ cs) = if is_space c then trim_start cs else c ∷ cs

abbrev pub trim_end : List ℕ → List ℕ
trim_end [] = []
trim_end (c ∷ cs) =
    let rest = trim_end cs in if is_space c && length rest == 0 then [] else c ∷ rest

abbrev pub upper_code : ℕ → ℕ
upper_code c = if leb b'a' c && leb c b'z' then c - 32 else c

-- `/Rs\.|₹/i`, `/£/`, `/€/` and `/\$/`.
abbrev pub currency_symbol : List ℕ → Option String
currency_symbol t =
    if is_infix_of (codes "rs.") (map lower_code t) || any_of (λ c. c == 8377) t
    then some "INR"
    else if any_of (λ c. c == 163) t
    then some "GBP"
    else if any_of (λ c. c == 8364) t
    then some "EUR"
    else if any_of (λ c. c == 36) t
    then some "USD"
    else none

-- The last pattern passes a code of its list through in upper case, as an unknown text is.
unfoldable pub normalise_currency : String → List ℕ
normalise_currency raw =
    let trimmed = trim_end (trim_start (codes raw)) in
    elim (currency_symbol trimmed) [
      | some code ↦ codes code
      | none ↦ if length trimmed == 0 then codes "USD" else map upper_code trimmed
    ]

-- `/^[A-Z]{3}$/`.
unfoldable pub is_iso_code : List ℕ → Bool
is_iso_code s = length s == 3 && all_of (λ c. leb b'A' c && leb c b'Z') s

-- `Math.abs(price - previous) / previous > 0.9`.
unfoldable pub is_spike : ℕ → ℕ → Bool
is_spike price previous = ltb (9 * previous) (10 * ((price - previous) + (previous - price)))

unfoldable pub needs_review : Option Number → Option Number → Bool
unfolding is_spike
needs_review (some (amount (suc n))) (some (amount (suc m))) = is_spike (suc n) (suc m)
needs_review (some (infinity true)) (some (amount (suc m))) = true
needs_review price previous = false

abbrev pub when : Bool → ValidationError → List ValidationError
when b e = if b then e ∷ [] else []

unfoldable pub validate_parse_result : ℕ → ParseResult → Option Number → ValidationResult
unfolding breaks_positive breaks_ceiling normalise_currency is_iso_code needs_review
validate_parse_result unit result previous_price =
    let errors =
      when (breaks_positive result.price) price_invalid
      ++ when (breaks_ceiling unit result.price) price_exceeds
      ++ when (not (is_iso_code (normalise_currency result.currency))) currency_not_iso
      ++ when (not (is_some result.in_stock)) in_stock_not_boolean in
    record {
      valid = length errors == 0;
      needs_review = needs_review result.price previous_price;
      errors = errors;
    }

-- A result is valid exactly if its price is a positive amount under a million, its currency has
-- three capital letters, and its stock is a boolean.
pub valid_iff :
    (unit : ℕ) (r : ParseResult) (previous : Option Number)
    → ((validate_parse_result unit r previous).valid ≡ true) ↔ (
        ((n : ℕ) × (r.price ≡ some (amount n)) × (0 < n) × (n < 1_000_000 * unit))
        × (is_iso_code (normalise_currency r.currency) ≡ true)
        × (is_some r.in_stock ≡ true))
unfolding validate_parse_result breaks_positive breaks_ceiling
valid_iff unit r previous = ground arith

-- A valid price is flagged exactly if it is more than 1.9 times the previous price or less than a
-- tenth of it.
pub flagged_iff :
    (unit : ℕ) (r : ParseResult) (n m : ℕ)
    → r.price ≡ some (amount n)
    → 0 < n
    → 0 < m
    → ((validate_parse_result unit r (some (amount m))).needs_review ≡ true)
      ↔ ((19 * m < 10 * n) ⊎ (10 * n < m))
unfolding validate_parse_result needs_review is_spike
flagged_iff unit r (suc n) (suc m) e p q = rw e (ground arith)
flagged_iff unit r zero m e p q = ground arith
flagged_iff unit r n zero e p q = ground arith
