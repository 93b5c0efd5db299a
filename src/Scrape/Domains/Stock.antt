-- ===== src/Scrape/Domains/Stock.antt =====
-- domains/index.ts: where the stock of a Shopify product is taken from.
use new_specter.Scrape.Domains.Fallbacks.{answers, asked_js-none}
use new_specter.Scrape.Platform.{shopify, detect_platform}
use new_specter.Scrape.Domains.Urls.{shopify_product_js_url, shopify_product_json_url}
use new_specter.Scrape.Domains.Generic.{PageResult}
use new_specter.Scrape.Domains.Storefronts.{ShopifyJson, parse_shopify_json}
use new_specter.Scrape.Domains.{
  Site, FetchedPage, currency_from_html, availability_from_html, shopify_stage,
  resolve_platform_parse,
}
use new_specter.Common.{ℕ, String, ◌≡◌, refl, true, false, Option, some, List, [], ◌∷◌, or_else}

module _ (unit : ℕ) (origin : String → String) (site : Site) where
  -- Where the `.js` endpoint gives nothing and the `.json` endpoint a product, the stock is what the
  -- page's HTML says, and in stock where it says nothing.
  pub shopify_json_stock :
      (url : String) (p : FetchedPage) (headers : List String) (body : Option ShopifyJson)
      (r : PageResult)
      → detect_platform headers p.html ≡ some shopify
      → answers (site.js (shopify_product_js_url url)) ≡ false
      → site.json (shopify_product_json_url url) ≡ some body
      → parse_shopify_json unit body (currency_from_html p) ≡ some r
      → resolve_platform_parse unit origin site url p headers ≡ (
        shopify_product_json_url url ∷ shopify_product_js_url url ∷ [],
        some record r { in_stock = or_else (availability_from_html p) true },
      )
  unfolding resolve_platform_parse shopify_stage
  shopify_json_stock url p headers body r d none_there j e =
      rw
        (
          d,
          resolve_platform_parse,
          asked_js-none unit origin site url p none_there,
          shopify_stage,
          j,
          e,
        )
        refl
