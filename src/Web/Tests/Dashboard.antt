-- ===== src/Web/Tests/Dashboard.antt =====
-- The models of the dashboard and the shipping calculator at concrete inputs.
use new_specter.Web.Reprice.{
  RepriceSku, lower, amount, unset, reprice_preview, is_actionable, preview_of, clamped,
  validate_bounds,
}
use new_specter.Web.Reprice.Bounds.{Respects, suggested, preview_within_bounds}
use new_specter.Web.Attribution.{
  PriceChange, sku_breakdown, attribution_accounted_changes, change_log_summary, total_change_count,
}
use new_specter.Web.Attribution.Totals.{
  AllBalanced, one_row_each, net_for, net_of, delta_sum, changes_of, breakdown_exact,
}
use new_specter.Web.Attribution.Log.{net_or_null, log_agrees}
use new_specter.Web.Domains.{Competitor, Product, mean_gap, group_by_domain, group_of_pairings}
use new_specter.Web.Domains.Columns.{shown_gap}
use new_specter.Web.Api.{Response, api_fetch}
use new_specter.Web.Api.Errors.{IsReported, api_fetch-IsReported}
use new_specter.Web.Shipping.Rates.{zone_5, zone_8, lookup_rate, rate_in, extrapolated}
use new_specter.Web.Shipping.Rates.Monotone.{advantage, table_of, lookup_rate-monotone}
use new_specter.Web.Shipping.{ShippingInput}
use new_specter.Web.Shipping.Bulk.{
  BulkInput, calc_bulk_shipment, billable_per_unit, parcel_costs, calc_ltl_cost, is_crossover,
}
use new_specter.Web.Shipping.Bulk.Crossover.{freight_crossover}
use new_specter.Common.{
  ℕ, ◌≤◌, String, ◌≡◌, refl, true, false, none, some, List, [], ◌∷◌, arith, is_some, length, ℤ, pos,
  negsuc,
}

abbrev sku : RepriceSku
sku = record {
  id = "k1";
  title = "Lamp";
  current_price = some 2000;
  floor_price = some 1500;
  ceiling_price = none;
  auto_reprice_enabled = true;
  latest_suggestion = some record { type = lower; price_suggestion = some 1400 };
}

previewed : (reprice_preview sku).effective_price ≡ some 1500
unfolding reprice_preview preview_of clamped
previewed = refl

preview_within_bounds_example :
    let e = (reprice_preview sku).effective_price in
    Respects (some 1500) none (suggested sku) e × (is_some e ≡ is_actionable sku)
unfolding validate_bounds
preview_within_bounds_example = preview_within_bounds sku (amount 1500) unset refl refl refl

abbrev skus : List RepriceSku
skus = record sku { current_price = none } ∷ record sku { current_price = some 1600 } ∷ sku ∷ []

abbrev change : String → ℤ → PriceChange
change sku_id d = record {
  sku_id = sku_id;
  sku_title = sku_id;
  source = "auto";
  revenue_delta = some d;
  created_at = some 5000;
}

abbrev changes : List PriceChange
changes = change "a" (pos 420) ∷ change "b" (negsuc 99) ∷ change "a" (negsuc 19) ∷ []

breakdown_exact_example :
    let rows = sku_breakdown changes in
    AllBalanced rows
    × (one_row_each rows ≡ true)
    × (net_for "a" rows ≡ delta_sum (changes_of "a" changes))
    × (net_of rows ≡ delta_sum changes)
    × (total_change_count rows ≡ length changes)
breakdown_exact_example = breakdown_exact changes "a"

log_agrees_example :
    let accounted = attribution_accounted_changes changes 7 6000 in
    let log = change_log_summary accounted in
    (log.count ≡ total_change_count (sku_breakdown accounted))
    × (log.net_revenue_delta ≡ net_or_null accounted)
log_agrees_example = log_agrees changes 7 6000

abbrev rival : String → Competitor
rival domain = record {
  tracking_id = "t";
  domain = domain;
  url = "/p";
  latest_price = some 5;
  in_stock = some true;
  last_checked_at = some "2026-01-02";
  robots_blocked = false;
  silenced_oos = false;
}

abbrev products : List Product
products =
    record {
      id = "p";
      title = "Lamp";
      current_price = some 4;
      competitors = rival "a.com" ∷ rival "" ∷ rival "b.com" ∷ [];
    }
    ∷ record { id = "q"; title = "Desk"; current_price = none; competitors = rival "a.com" ∷ [] }
    ∷ []

abbrev shop : String
shop = "a.com"

abbrev no_domain : String
no_domain = ""

-- One product has a price of its own, and its competitor asks for a quarter more.
mean_of_gaps :
    shown_gap "a.com" (group_by_domain products) ≡ some record { above = 5; below = 4; over = 4 }
unfolding group_by_domain group_of_pairings mean_gap
mean_of_gaps = refl

abbrev failure : Response
failure = record { status = 500; body_text = "<html>"; parsed = none }

api_fetch-IsReported_example : IsReported failure (api_fetch (λ n. "500") failure)
api_fetch-IsReported_example = api_fetch-IsReported (λ n. "500") failure

lookup_rate-monotone_example :
    lookup_rate (table_of advantage) zone_8 69 ≤ lookup_rate (table_of advantage) zone_8 95
lookup_rate-monotone_example = lookup_rate-monotone advantage zone_8 69 95 (omega arith)

abbrev box : ShippingInput
box = record { weight = 350; length_in = 14; width_in = 12; height_in = 12; zone = zone_5 }

abbrev pallets : BulkInput
pallets = record {
  weight_per_unit = 1000;
  length_in = 10;
  width_in = 10;
  height_in = 10;
  unit_count = 40;
  zone = zone_5;
}

freight_crossover_example :
    (m : ℕ) × ((calc_bulk_shipment pallets).ltl_crossover_units ≡ some m)
    × (m ≤ 40)
    × (is_crossover pallets m ≡ true)
unfolding calc_bulk_shipment billable_per_unit parcel_costs lookup_rate rate_in extrapolated
    calc_ltl_cost
freight_crossover_example = freight_crossover pallets (omega arith) (omega arith) refl
