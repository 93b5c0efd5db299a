-- ===== src/Scrape/Domains/Tests.antt =====
-- The parsers at concrete inputs.
use new_specter.Scrape.Platform.{detect_platform}
use new_specter.Scrape.Validate.{amount}
use new_specter.Scrape.Domains.Numbers.{
  parse_price, parse_float, plain_float, digits_of, value_from, fraction_of,
}
use new_specter.Scrape.Domains.Urls.{shopify_product_js_url, product_base, trim_slashes}
use new_specter.Scrape.Domains.Generic.{PageReading, nullish}
use new_specter.Scrape.Domains.Storefronts.{ShopifyJs, JsVariant}
use new_specter.Scrape.Domains.{Site, FetchedPage, generic_result, resolve_platform_parse}
use new_specter.Scrape.Domains.Order.{is_priced, parse_is_priced}
use new_specter.Scrape.Domains.Fallbacks.{page_alone, broken_endpoints}
use new_specter.Common.{split_at}
use new_specter.Common.{
  ◌≤◌, String, ◌≡◌, refl, true, false, none, some, List, [], ◌∷◌, length, joined,
}

-- A dollar price in units of a cent.
dollar_price : parse_price 100 (some "$1,299.00") ≡ some (amount 129_900)
unfolding parse_price parse_float plain_float digits_of value_from fraction_of
dollar_price = refl

-- The point of `Rs.` is taken for the decimal point.
rupee_price : parse_price 100 (some "Rs. 1,299.00") ≡ some (amount 12)
unfolding parse_price parse_float plain_float digits_of value_from fraction_of
rupee_price = refl

js_url :
    shopify_product_js_url "https://a.com/products/lamp/?variant=1#top"
    ≡ "https://a.com/products/lamp.js"
unfolding shopify_product_js_url product_base trim_slashes joined split_at
js_url = refl

abbrev empty_page : PageReading
empty_page = record {
  ld_blocks = none ∷ [];
  og_price = none;
  product_price = none;
  og_currency = none;
  product_currency = none;
  og_title = none;
  selected = none ∷ [];
  heading = "Lamp";
}

abbrev fetched : FetchedPage
fetched = record {
  html = "<script>var Shopify = {}</script>";
  meta_currency = some "EUR";
  shopify_currency = none;
  meta_availability = some "instock";
  ld_availability = none;
  page = empty_page;
  woo_page = record {
    bdi_text = "";
    amount_text = "";
    out_of_stock = none;
    product_title = "";
    heading = "";
  };
}

abbrev headers : List String
headers = "x-shopid" ∷ []

-- Sold out, while the page says otherwise.
abbrev variant : JsVariant
variant = record { price = amount 129_900; available = false }

abbrev product : ShopifyJs
product = record { title = some "Lamp "; available = false; variants = variant ∷ [] }

abbrev shop : Site
shop = record { js = λ u. some (some product); json = λ u. none; woo = λ u. none }

abbrev dead_shop : Site
dead_shop = record { js = λ u. some none; json = λ u. none; woo = λ u. some none }

abbrev same_origin : String → String
same_origin u = "https://a.com"

parse_is_priced_example :
    let (asked, found) =
      resolve_platform_parse 100 same_origin shop "https://a.com/p" fetched headers in
    (is_priced found ≡ true) × (length asked ≤ 2)
parse_is_priced_example = parse_is_priced 100 same_origin shop "https://a.com/p" fetched headers

broken_endpoints_example :
    (resolve_platform_parse 100 same_origin dead_shop "https://a.com/p" fetched headers).1
    ≡ nullish
        (page_alone 100 (detect_platform headers fetched.html) fetched)
        (generic_result 100 same_origin dead_shop fetched)
broken_endpoints_example =
    broken_endpoints 100 same_origin dead_shop (λ u. refl) (λ u. refl) (λ u. refl) "https://a.com/p"
      fetched headers
