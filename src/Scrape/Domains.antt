-- ===== src/Scrape/Domains.antt =====
-- domains/index.ts: the parse of a page that the HTTP worker has fetched. The answers of
-- `fetchText` are those of a `Site`: `none` for a failure or an empty body, and otherwise what
-- `JSON.parse` makes of the body, of which `none` is an exception.
pub mod Urls
pub mod Numbers
pub mod Generic
pub mod Storefronts
pub mod Order
pub mod Fallbacks
pub mod Stock
mod Tests
use new_specter.Scrape.Platform.{Platform, shopify, woocommerce, detect_platform}
use new_specter.Scrape.Domains.Urls.{
  shopify_product_js_url, shopify_product_json_url, woo_store_api_url,
}
use new_specter.Scrape.Domains.Generic.{PageResult, PageReading, parse_html, nullish}
use new_specter.Scrape.Domains.Storefronts.{
  ShopifyJs, ShopifyJson, WooProduct, WooPage, parse_shopify_js, parse_shopify_json,
  parse_woo_store_api, parse_woo_html,
}
use new_specter.Common.{
  ℕ, zero, suc, ◌+◌, ◌-◌, ◌*◌, ◌/◌, ◌%◌, ◌^◌, ◌≤◌, ◌<◌, min, max, String, ◌≡◌, refl, sym, ap, subst,
  ◌∙◌, fun_ext, ◌≢◌, ◌↔◌, ◌⊎◌, inl, inr, Bool, true, false, not, ◌&&◌, ◌||◌, Option, none, some,
  List, [], ◌∷◌, ◌++◌, map, arith, ℕ_discrete, ltb, leb, ◌==◌, if◌then◌else◌, ltb→lt, lt→ltb,
  leb→le, le→leb, ==_iff, Bool-cases, Option-cases, is_some, or_else, ◌>>=◌, length, get_or, any_of,
  all_of, filter_by, length-append, any_of-append, get_or-any_of, any_of-false, all_of-get_or,
  all_of-filter_by, length-filter_by-le, sort_by, is_sorted_by, sort_by-Perm, sort_by-all_of,
  sort_by-stable, sort_by-is_sorted_by, sort_by-eq-filter_by, ℤ, pos, negsuc, credit, debit,
  difference, ◌+ℤ◌, leb_ℤ, +ℤ_lem, ℤ_ext, integers, joined, after, after-joined, joined-injective,
  joined-after, str_eq, str_eq_iff, str_eq_refl, str_eq_ne, includes, includes-any_of, codes,
  contains, matches_ci,
}

pub record Site : Type 0 where
  pub js : String → Option (Option ShopifyJs)
  pub json : String → Option (Option ShopifyJson)
  pub woo : String → Option (Option (List WooProduct))

-- What the patterns of index.ts find in the HTML, and what the other parsers read in it.
pub record FetchedPage : Type 0 where
  pub html : String
  pub meta_currency : Option String
  pub shopify_currency : Option String
  pub meta_availability : Option String
  pub ld_availability : Option String
  pub page : PageReading
  pub woo_page : WooPage

unfoldable pub currency_from_html : FetchedPage → String
currency_from_html p = or_else (nullish p.meta_currency p.shopify_currency) "USD"

unfoldable pub availability_from_html : FetchedPage → Option Bool
availability_from_html p = elim p.meta_availability [
  | some m ↦ some (
      (matches_ci m "instock" || matches_ci m "in stock" || matches_ci m "available")
      && not (matches_ci m "out" || matches_ci m "oos"))
  | none ↦ elim p.ld_availability [
    | some l ↦ some (matches_ci l "instock" && not (matches_ci l "outofstock"))
    | none ↦ none
  ]
]

-- The addresses that were asked for, the latest first, and the result of a stage.
abbrev pub Stage : Type 0
Stage = List String × Option PageResult

module _ (unit : ℕ) (origin : String → String) (site : Site) where
  abbrev pub asked_js : String → FetchedPage → Option PageResult
  asked_js url p = do
    body ← site.js (shopify_product_js_url url)
    parse_shopify_js body (currency_from_html p)

  abbrev pub with_stock : FetchedPage → PageResult → PageResult
  with_stock p r = record r { in_stock = or_else (availability_from_html p) true }

  abbrev pub asked_json : String → FetchedPage → Option PageResult
  asked_json url p = do
    body ← site.json (shopify_product_json_url url)
    r ← parse_shopify_json unit body (currency_from_html p)
    some (with_stock p r)

  abbrev pub asked_woo : String → Option PageResult
  asked_woo api = do body ← site.woo api; parse_woo_store_api unit body

  unfoldable pub shopify_stage : String → FetchedPage → Stage
  shopify_stage url p = elim (asked_js url p) [
    | some r ↦ (shopify_product_js_url url ∷ [], some r)
    | none ↦ (shopify_product_json_url url ∷ shopify_product_js_url url ∷ [], asked_json url p)
  ]

  unfoldable pub woo_stage : String → FetchedPage → Stage
  woo_stage url p = elim (woo_store_api_url origin url) [
    | some api ↦ (api ∷ [], nullish (asked_woo api) (parse_woo_html unit p.woo_page))
    | none ↦ ([], parse_woo_html unit p.woo_page)
  ]

  abbrev pub platform_stage : Option Platform → String → FetchedPage → Stage
  platform_stage none url p = ([], none)
  platform_stage (some shopify) url p = shopify_stage url p
  platform_stage (some woocommerce) url p = woo_stage url p

  -- The generic parse, null where it reads no price.
  unfoldable pub generic_result : FetchedPage → Option PageResult
  generic_result p = let r = parse_html unit p.page in if is_some r.price then some r else none

  unfoldable pub resolve_platform_parse : String → FetchedPage → List String → Stage
  resolve_platform_parse url p headers =
      let (asked, found) = platform_stage (detect_platform headers p.html) url p in
      (asked, nullish found (generic_result p))
