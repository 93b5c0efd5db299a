-- ===== src/Scrape/Platform.antt =====
-- domains/platform.ts: the storefront that a page's headers and body point to.
use new_specter.Common.{
  String, Bool, Option, none, some, List, [], ◌∷◌, if◌then◌else◌, any_of, includes, contains,
}

pub data Platform : Type 0 where
  shopify woocommerce : Platform

abbrev pub shopify_headers : List String
shopify_headers = "x-shopify-stage" ∷ "x-shopid" ∷ "x-shardid" ∷ "x-sorting-hat-shopid" ∷ []

abbrev pub shopify_html : List String
shopify_html =
    "cdn.shopify.com" ∷ "/cdn/shop/" ∷ "Shopify.theme" ∷ "var Shopify =" ∷ "window.Shopify" ∷ []

abbrev pub woo_html : List String
woo_html =
    "woocommerce-page" ∷ "class=\"woocommerce" ∷ "wp-content/plugins/woocommerce"
    ∷ "content=\"WooCommerce" ∷ "woocommerce-Price-amount" ∷ []

-- The headers are the names, in lower case, of those that have a value.
unfoldable pub header_present : List String → List String → Bool
header_present headers names = any_of (λ n. includes n headers) names

unfoldable pub detect_platform : List String → String → Option Platform
unfolding header_present contains
detect_platform headers body =
    if header_present headers shopify_headers
    then some shopify
    else if any_of (contains body) shopify_html
    then some shopify
    else if any_of (contains body) woo_html
    then some woocommerce
    else none
