-- ===== src/Scrape/Domains/Generic.antt =====
-- domains/generic.ts: JSON-LD, Open Graph and the selectors. What the regular expressions, `JSON`
-- and cheerio find in a page is a `PageReading`.
use new_specter.Scrape.Validate.{Number, amount, infinity, normalise_currency}
use new_specter.Scrape.Domains.Numbers.{parse_price, title_of, trim_left, trim_right}
use new_specter.Common.{
  ℕ, String, Bool, true, false, not, ◌||◌, Option, none, some, List, [], ◌∷◌, ltb, if◌then◌else◌,
  or_else, ◌>>=◌, str_eq, codes, matches_ci,
}

-- The codes of a currency, which no theorem takes apart.
pub record PageResult : Type 0 where
  pub price : Option Number
  pub in_stock : Bool
  pub currency : List ℕ
  pub title : Option String

-- A member that is a number, or what `String` makes of another value.
pub data Scalar : Type 0 where
  number : Number → Scalar
  text : String → Scalar

-- `none` is null or a member that is missing.
pub record Offer : Type 0 where
  pub price : Option Scalar
  pub low_price : Option Scalar
  pub price_currency : Option String
  pub availability : Option String

pub data Offers : Type 0 where
  no_offers : Offers
  one_offer : Offer → Offers
  offer_list : List Offer → Offers

pub record LdEntry : Type 0 where
  pub is_product : Bool
  pub offers : Offers
  pub name : Option String

-- The first element of a selector.
pub record Element : Type 0 where
  pub data_price : Option String
  pub aria_label : Option String
  pub content : Option String
  pub inner_text : String

-- A block of JSON-LD that is malformed is `none`.
pub record PageReading : Type 0 where
  pub ld_blocks : List (Option (List LdEntry))
  pub og_price : Option String
  pub product_price : Option String
  pub og_currency : Option String
  pub product_currency : Option String
  pub og_title : Option String
  pub selected : List (Option Element)
  pub heading : String

abbrev pub no_offer : Offer
no_offer = record { price = none; low_price = none; price_currency = none; availability = none }

abbrev pub first_offer : List Offer → Offer
first_offer [] = no_offer
first_offer (o ∷ os) = o

abbrev pub offer_of : Offers → Option Offer
offer_of no_offers = none
offer_of (one_offer o) = some o
offer_of (offer_list os) = some (first_offer os)

abbrev pub nullish {ℓ} : {A : Type ℓ} → Option A → Option A → Option A
nullish none y = y
nullish (some x) y = some x

abbrev pub trimmed : Option String → Option String
trimmed none = none
trimmed (some s) = some (trim_right (trim_left s))

module _ (unit : ℕ) where
  abbrev pub scalar_price : Option Scalar → Option Number
  scalar_price none = parse_price unit (some "")
  scalar_price (some (number n)) = some n
  scalar_price (some (text s)) = parse_price unit (some s)

  abbrev pub offers_stock : Option String → Bool
  offers_stock availability =
      let raw = or_else availability "" in str_eq raw "" || matches_ci raw "instock"

  unfoldable pub entry_result : LdEntry → Option PageResult
  entry_result e = if not e.is_product then none else elim (offer_of e.offers) [
    | none ↦ none
    | some o ↦ elim (scalar_price (nullish o.price o.low_price)) [
      | none ↦ none
      | some price ↦ some record {
        price = some price;
        in_stock = offers_stock o.availability;
        currency = normalise_currency (or_else o.price_currency "$");
        title = title_of (or_else e.name "");
      }
    ]
  ]

  unfoldable pub entries_result : List LdEntry → Option PageResult
  entries_result [] = none
  entries_result (e ∷ es) = nullish (entry_result e) (entries_result es)

  unfoldable pub parse_json_ld : List (Option (List LdEntry)) → Option PageResult
  parse_json_ld [] = none
  parse_json_ld (none ∷ bs) = parse_json_ld bs
  parse_json_ld (some es ∷ bs) = nullish (entries_result es) (parse_json_ld bs)

  unfoldable pub parse_open_graph : PageReading → Option PageResult
  parse_open_graph page = do
    price ← parse_price unit (nullish page.og_price page.product_price)
    some record {
      price = some price;
      in_stock = true;
      currency = normalise_currency (or_else (nullish page.og_currency page.product_currency) "$");
      title = trimmed page.og_title;
    }

  abbrev pub raw_of : Element → String
  raw_of e = or_else (nullish e.data_price (nullish e.aria_label e.content)) e.inner_text

  unfoldable pub parse_css : List (Option Element) → String → Option PageResult
  parse_css [] heading = none
  parse_css (none ∷ es) heading = parse_css es heading
  parse_css (some e ∷ es) heading = elim (parse_price unit (some (raw_of e))) [
    | none ↦ parse_css es heading
    | some price ↦ some record {
      price = some price;
      in_stock = true;
      currency = codes "USD";
      title = title_of heading;
    }
  ]

  abbrev pub no_price : PageResult
  no_price = record { price = none; in_stock = false; currency = codes "USD"; title = none }

  unfoldable pub parse_html : PageReading → PageResult
  parse_html page =
      or_else
        (nullish (parse_json_ld page.ld_blocks)
          (nullish (parse_open_graph page) (parse_css page.selected page.heading)))
        no_price

  -- `a || b` on texts that may be missing.
  abbrev pub or_text : Option String → String → String
  or_text none d = d
  or_text (some String.[]) d = d
  or_text (some (String.◌∷◌ c s)) d = String.◌∷◌ c s

  abbrev pub is_above_zero : Option Number → Bool
  is_above_zero (some (amount n)) = ltb 0 n
  is_above_zero (some (infinity positive)) = positive
  is_above_zero _ = false

  -- The evaluation in the live page.
  unfoldable pub live_dom : List (Option Element) → String → Option PageResult
  live_dom [] heading = none
  live_dom (none ∷ es) heading = live_dom es heading
  live_dom (some e ∷ es) heading =
      let raw = or_text e.data_price (or_text e.aria_label (or_text e.content e.inner_text)) in
      let price = parse_price unit (some raw) in
      let later = live_dom es heading in
      if is_above_zero price
      then some record {
        price = price;
        in_stock = true;
        currency = codes "USD";
        title = title_of heading;
      }
      else later

  -- `parse`, for a page whose rendered HTML is read as `page`, and the elements of the live page.
  unfoldable pub parse_live : PageReading → List (Option Element) → String → PageResult
  parse_live page live heading =
      or_else
        (nullish
          (nullish (parse_json_ld page.ld_blocks)
            (nullish (parse_open_graph page) (parse_css page.selected page.heading)))
          (live_dom live heading))
        no_price
