-- ===== src/Scrape/Domains/Order.antt =====
-- domains/index.ts: which stage answers, and what it takes.
use new_specter.Scrape.Platform.{Platform, shopify, woocommerce, detect_platform}
use new_specter.Scrape.Domains.Urls.{
  shopify_product_js_url, shopify_product_json_url, woo_store_api_url,
}
use new_specter.Scrape.Domains.Generic.{PageResult, nullish}
use new_specter.Scrape.Domains.Storefronts.{
  ShopifyJs, ShopifyJson, WooProduct, WooPage, parse_shopify_js, parse_shopify_json,
  parse_woo_store_api, parse_woo_html,
}
use new_specter.Scrape.Domains.{
  Site, FetchedPage, currency_from_html, asked_js, with_stock, asked_json, asked_woo, shopify_stage,
  woo_stage, platform_stage, generic_result, resolve_platform_parse,
}
use new_specter.Common.{
  ℕ, ◌≤◌, String, ◌≡◌, refl, inl, inr, Bool, true, Option, none, some, List, [], ◌∷◌, arith,
  Option-cases, is_some, ◌>>=◌, length,
}

abbrev pub is_priced : Option PageResult → Bool
is_priced none = true
is_priced (some r) = is_some r.price

nullish-is_priced :
    (x y : Option PageResult)
    → is_priced x ≡ true
    → is_priced y ≡ true
    → is_priced (nullish x y) ≡ true
nullish-is_priced none y h h' = h'
nullish-is_priced (some x) y h h' = h

js-is_priced :
    (b : Option ShopifyJs) (fallback : String) → is_priced (parse_shopify_js b fallback) ≡ true
unfolding parse_shopify_js
js-is_priced none fallback = refl
js-is_priced (some b) fallback = ground arith

json-is_priced :
    (unit : ℕ) (b : Option ShopifyJson) (fallback : String)
    → is_priced (parse_shopify_json unit b fallback) ≡ true
unfolding parse_shopify_json
json-is_priced unit none fallback = refl
json-is_priced unit (some b) fallback = ground arith

woo-is_priced :
    (unit : ℕ) (b : Option (List WooProduct)) → is_priced (parse_woo_store_api unit b) ≡ true
unfolding parse_woo_store_api
woo-is_priced unit none = refl
woo-is_priced unit (some []) = refl
woo-is_priced unit (some (p ∷ ps)) = ground arith

woo_html-is_priced : (unit : ℕ) (p : WooPage) → is_priced (parse_woo_html unit p) ≡ true
unfolding parse_woo_html
woo_html-is_priced unit p = ground arith

module _ (unit : ℕ) (origin : String → String) (site : Site) where
  generic-is_priced : (p : FetchedPage) → is_priced (generic_result unit origin site p) ≡ true
  unfolding generic_result
  generic-is_priced p = ground arith

  asked_js-is_priced :
      (url : String) (p : FetchedPage) → is_priced (asked_js unit origin site url p) ≡ true
  asked_js-is_priced url p = elim (Option-cases (site.js (shopify_product_js_url url))) [
    | inl e ↦ rw e refl
    | inr (b, e) ↦ rw e (js-is_priced b (currency_from_html p))
  ]

  with_stock-is_priced :
      (p : FetchedPage) (r : Option PageResult)
      → is_priced r ≡ true
      → is_priced (r >>= λ x. some (with_stock unit origin site p x)) ≡ true
  with_stock-is_priced p none h = refl
  with_stock-is_priced p (some r) h = h

  asked_json-is_priced :
      (url : String) (p : FetchedPage) → is_priced (asked_json unit origin site url p) ≡ true
  asked_json-is_priced url p = elim (Option-cases (site.json (shopify_product_json_url url))) [
    | inl e ↦ rw e refl
    | inr (b, e) ↦ rw e (
        with_stock-is_priced p (parse_shopify_json unit b (currency_from_html p))
          (json-is_priced unit b (currency_from_html p)))
  ]

  asked_woo-is_priced : (api : String) → is_priced (asked_woo unit origin site api) ≡ true
  asked_woo-is_priced api = elim (Option-cases (site.woo api)) [
    | inl e ↦ rw e refl
    | inr (b, e) ↦ rw e (woo-is_priced unit b)
  ]

  shopify_stage-is_priced :
      (url : String) (p : FetchedPage) → is_priced (shopify_stage unit origin site url p).1 ≡ true
  unfolding shopify_stage
  shopify_stage-is_priced url p = elim (Option-cases (asked_js unit origin site url p)) [
    | inl e ↦ rw (e, shopify_stage) (asked_json-is_priced url p)
    | inr (r, e) ↦ rw (e, shopify_stage) (rw e at (asked_js-is_priced url p))
  ]

  woo_stage-is_priced :
      (url : String) (p : FetchedPage) → is_priced (woo_stage unit origin site url p).1 ≡ true
  unfolding woo_stage
  woo_stage-is_priced url p = elim (Option-cases (woo_store_api_url origin url)) [
    | inl e ↦ rw (e, woo_stage) (woo_html-is_priced unit p.woo_page)
    | inr (api, e) ↦
        rw (e, woo_stage)
          (nullish-is_priced (asked_woo unit origin site api) (parse_woo_html unit p.woo_page)
            (asked_woo-is_priced api) (woo_html-is_priced unit p.woo_page))
  ]

  platform_stage-is_priced :
      (o : Option Platform) (url : String) (p : FetchedPage)
      → is_priced (platform_stage unit origin site o url p).1 ≡ true
  platform_stage-is_priced none url p = refl
  platform_stage-is_priced (some shopify) url p = shopify_stage-is_priced url p
  platform_stage-is_priced (some woocommerce) url p = woo_stage-is_priced url p

  platform_stage-asked :
      (o : Option Platform) (url : String) (p : FetchedPage)
      → length (platform_stage unit origin site o url p).0 ≤ 2
  unfolding shopify_stage woo_stage
  platform_stage-asked none url p = omega arith
  platform_stage-asked (some shopify) url p =
      elim (Option-cases (asked_js unit origin site url p)) [
        | inl e ↦ rw (e, shopify_stage) (omega arith)
        | inr (r, e) ↦ rw (e, shopify_stage) (omega arith)
      ]
  platform_stage-asked (some woocommerce) url p =
      elim (Option-cases (woo_store_api_url origin url)) [
        | inl e ↦ rw (e, woo_stage) (omega arith)
        | inr (api, e) ↦ rw (e, woo_stage) (omega arith)
      ]

  -- A parse that answers has a price, also where the generic parser reads none, and it has asked
  -- for two addresses at most.
  pub parse_is_priced :
      (url : String) (p : FetchedPage) (headers : List String)
      → let (asked, found) = resolve_platform_parse unit origin site url p headers in
        (is_priced found ≡ true) × (length asked ≤ 2)
  unfolding resolve_platform_parse
  parse_is_priced url p headers =
      let o : Option Platform = detect_platform headers p.html in
      (
        nullish-is_priced (platform_stage unit origin site o url p).1
            (generic_result unit origin site p) (platform_stage-is_priced o url p)
            (generic-is_priced p),
        platform_stage-asked o url p,
      )
