-- ===== src/Scrape/Domains/Fallbacks.antt =====
-- domains/index.ts: the parse when the endpoints of a storefront do not answer.
use new_specter.Scrape.Platform.{Platform, shopify, woocommerce, detect_platform}
use new_specter.Scrape.Domains.Urls.{
  shopify_product_js_url, shopify_product_json_url, woo_store_api_url,
}
use new_specter.Scrape.Domains.Generic.{PageResult, nullish}
use new_specter.Scrape.Domains.Storefronts.{
  ShopifyJs, ShopifyJson, WooProduct, parse_shopify_js, parse_shopify_json, parse_woo_store_api,
  parse_woo_html,
}
use new_specter.Scrape.Domains.{
  Site, FetchedPage, currency_from_html, asked_js, with_stock, asked_json, asked_woo, shopify_stage,
  woo_stage, platform_stage, generic_result, resolve_platform_parse,
}
use new_specter.Common.{
  ℕ, String, ◌≡◌, refl, ap, inl, inr, Bool, true, false, Option, none, some, List, Option-cases,
  ◌>>=◌,
}

-- A body that `JSON.parse` reads.
abbrev pub answers {ℓ} : {A : Type ℓ} → Option (Option A) → Bool
answers (some (some a)) = true
answers _ = false

-- What is left without the endpoints: the page of a WooCommerce storefront.
abbrev pub page_alone : ℕ → Option Platform → FetchedPage → Option PageResult
page_alone unit (some woocommerce) p = parse_woo_html unit p.woo_page
page_alone unit _ p = none

module _ (unit : ℕ) (origin : String → String) (site : Site) where
  pub asked_js-none :
      (url : String) (p : FetchedPage)
      → answers (site.js (shopify_product_js_url url)) ≡ false
      → asked_js unit origin site url p ≡ none
  unfolding parse_shopify_js
  asked_js-none url p h = silent (site.js (shopify_product_js_url url)) h
    where
      silent :
          (x : Option (Option ShopifyJs))
          → answers x ≡ false
          → (x >>= λ b. parse_shopify_js b (currency_from_html p)) ≡ none
      silent none h = refl
      silent (some none) h = refl
      silent (some (some b)) h = cc

  asked_json-none :
      (url : String) (p : FetchedPage)
      → answers (site.json (shopify_product_json_url url)) ≡ false
      → asked_json unit origin site url p ≡ none
  unfolding parse_shopify_json
  asked_json-none url p h = silent (site.json (shopify_product_json_url url)) h
    where
      silent :
          (x : Option (Option ShopifyJson))
          → answers x ≡ false
          → (x >>= λ b. parse_shopify_json unit b (currency_from_html p) >>= λ r.
              some (with_stock unit origin site p r))
            ≡ none
      silent none h = refl
      silent (some none) h = refl
      silent (some (some b)) h = cc

  asked_woo-none :
      (api : String) → answers (site.woo api) ≡ false → asked_woo unit origin site api ≡ none
  unfolding parse_woo_store_api
  asked_woo-none api h = silent (site.woo api) h
    where
      silent :
          (x : Option (Option (List WooProduct)))
          → answers x ≡ false
          → (x >>= λ b. parse_woo_store_api unit b) ≡ none
      silent none h = refl
      silent (some none) h = refl
      silent (some (some b)) h = cc

  module _ (no_js : (u : String) → answers (site.js u) ≡ false)
      (no_json : (u : String) → answers (site.json u) ≡ false)
      (no_woo : (u : String) → answers (site.woo u) ≡ false) where
    platform_stage-broken :
        (o : Option Platform) (url : String) (p : FetchedPage)
        → (platform_stage unit origin site o url p).1 ≡ page_alone unit o p
    unfolding shopify_stage woo_stage
    platform_stage-broken none url p = refl
    platform_stage-broken (some shopify) url p =
        rw (asked_js-none url p (no_js _), shopify_stage) (asked_json-none url p (no_json _))
    platform_stage-broken (some woocommerce) url p =
        elim (Option-cases (woo_store_api_url origin url)) [
          | inl e ↦ rw (e, woo_stage) refl
          | inr (api, e) ↦ rw (e, woo_stage, asked_woo-none api (no_woo api)) refl
        ]

    -- If every request for an endpoint fails, or brings an empty body or one that is no JSON, then
    -- the parse answers as the page alone does: with what a WooCommerce page shows, or else with
    -- the generic parse.
    pub broken_endpoints :
        (url : String) (p : FetchedPage) (headers : List String)
        → (resolve_platform_parse unit origin site url p headers).1
          ≡ nullish
              (page_alone unit (detect_platform headers p.html) p)
              (generic_result unit origin site p)
    unfolding resolve_platform_parse
    broken_endpoints url p headers =
        ap (λ x. nullish x (generic_result unit origin site p))
          (platform_stage-broken (detect_platform headers p.html) url p)
