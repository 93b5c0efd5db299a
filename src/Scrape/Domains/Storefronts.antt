-- ===== src/Scrape/Domains/Storefronts.antt =====
-- domains/shopify.ts and woocommerce.ts: the structured endpoints of a storefront, and the page of
-- a WooCommerce one. What `JSON.parse` and cheerio read is the argument; `none` is an exception.
-- A body or a first product that is `null`, on which the parsers of `.js` and of the API throw, is
-- left out.
use new_specter.Scrape.Validate.{
  Number, nan, infinity, below_zero, amount, is_space, normalise_currency,
}
use new_specter.Scrape.Domains.Numbers.{
  is_decimal, parse_float, is_nan, cleaned, trim_left, trim_right, title_of, title_or_null, without,
}
use new_specter.Scrape.Domains.Generic.{PageResult}
use new_specter.Common.{
  ℕ, ◌/◌, ◌^◌, String, Bool, true, false, not, ◌||◌, Option, none, some, List, [], ◌∷◌, ◌==◌,
  if◌then◌else◌, or_else, any_of, str_eq, codes,
}

-- A price as `Number` reads it, and whether `available` is `true`.
pub record JsVariant : Type 0 where
  pub price : Number
  pub available : Bool

-- A title that is no text is `none`, variants that are no list are empty.
pub record ShopifyJs : Type 0 where
  pub title : Option String
  pub available : Bool
  pub variants : List JsVariant

abbrev pub is_finite : Number → Bool
is_finite nan = false
is_finite (infinity b) = false
is_finite _ = true

abbrev pub divided : Number → ℕ → Number
divided (amount n) d = amount (n / d)
divided (below_zero n) d = below_zero (n / d)
divided x d = x

-- `fallbackCurrency || 'USD'`
abbrev pub or_usd : String → List ℕ
or_usd c = if str_eq c "" then codes "USD" else codes c

unfoldable pub parse_shopify_js : Option ShopifyJs → String → Option PageResult
parse_shopify_js none fallback = none
parse_shopify_js (some product) fallback = elim product.variants [
  | [] ↦ none
  | v ∷ vs ↦
      if is_finite v.price
      then some record {
        price = some (divided v.price 100);
        in_stock = product.available || any_of (λ x. x.available) (v ∷ vs);
        currency = or_usd fallback;
        title = title_or_null product.title;
      }
      else none
]

-- A price as `String` writes it, with the empty text for null.
pub record JsonVariant : Type 0 where
  pub price : String
  pub available : Bool

pub record ShopifyJson : Type 0 where
  pub title : Option String
  pub variants : List JsonVariant

-- The products of the WooCommerce API: the price as `String` writes it, and the minor unit, `none`
-- where it is missing or no number.
pub record WooProduct : Type 0 where
  pub name : Option String
  pub is_in_stock : Bool
  pub price : String
  pub currency_minor_unit : Option ℕ
  pub currency_code : Option String

-- `none` for a stock element that is missing.
pub record WooPage : Type 0 where
  pub bdi_text : String
  pub amount_text : String
  pub out_of_stock : Option Bool
  pub product_title : String
  pub heading : String

abbrev pub text_or : String → String → String
text_or a b = if str_eq a "" then b else a

module _ (unit : ℕ) where
  unfoldable pub parse_shopify_json : Option ShopifyJson → String → Option PageResult
  parse_shopify_json none fallback = none
  parse_shopify_json (some product) fallback = elim product.variants [
    | [] ↦ none
    | v ∷ vs ↦
        let price = parse_float unit (codes v.price) in
        if is_nan price
        then none
        else some record {
          price = some price;
          in_stock = any_of (λ x. x.available) (v ∷ vs);
          currency = or_usd fallback;
          title = title_or_null product.title;
        }
  ]

  -- What is parsed but is no list counts as an empty one.
  unfoldable pub parse_woo_store_api : Option (List WooProduct) → Option PageResult
  parse_woo_store_api none = none
  parse_woo_store_api (some []) = none
  parse_woo_store_api (some (p ∷ ps)) =
      let raw = parse_float unit (codes p.price) in
      if is_nan raw
      then none
      else some record {
        price = some (divided raw (10 ^ or_else p.currency_minor_unit 2));
        in_stock = p.is_in_stock;
        currency = normalise_currency (or_else p.currency_code "USD");
        title = title_or_null p.name;
      }

  abbrev pub is_figure : ℕ → Bool
  is_figure c = is_decimal c || c == b'.' || c == b',' || is_space c

  unfoldable pub parse_woo_html : WooPage → Option PageResult
  parse_woo_html page =
      let t = text_or page.bdi_text page.amount_text in
      let price = parse_float unit (cleaned (codes t)) in
      if str_eq (trim_right (trim_left t)) ""
      then none
      else if is_nan price
      then none
      else some record {
        price = some price;
        in_stock = not (or_else page.out_of_stock false);
        currency = normalise_currency (text_or (without is_figure t) "USD");
        title = title_of (text_or (trim_right (trim_left page.product_title)) page.heading);
      }
