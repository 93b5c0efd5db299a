-- ===== src/Web/Shipping.antt =====
-- tools/shipping.ts: the comparison of the carriers' domestic rates. Of the estimate of the days
-- only the upper end is kept, which `parseInt` reads; the notes are left out.
pub mod Rates
pub mod Offers
pub mod Bulk
use new_specter.Web.Shipping.Rates.{
  Zone, zone_2, zone_3, zone_4, zone_5, zone_6, zone_7, zone_8, ups_ground, fedex_ground,
  usps_priority, usps_ground_advantage, dhl_ecommerce, rounded_up, lookup_rate, dim_pounds,
  dim_weight,
}
use new_specter.Common.{
  ℕ, zero, suc, ◌+◌, ◌-◌, ◌*◌, ◌/◌, ◌%◌, ◌^◌, ◌≤◌, ◌<◌, min, max, String, ◌≡◌, refl, sym, ap, subst,
  ◌∙◌, fun_ext, ◌≢◌, ◌↔◌, ◌⊎◌, inl, inr, Bool, true, false, not, ◌&&◌, ◌||◌, Option, none, some,
  List, [], ◌∷◌, ◌++◌, map, arith, ℕ_discrete, ltb, leb, ◌==◌, if◌then◌else◌, ltb→lt, lt→ltb,
  leb→le, le→leb, ==_iff, Bool-cases, Option-cases, is_some, or_else, ◌>>=◌, length, get_or, any_of,
  all_of, filter_by, length-append, any_of-append, get_or-any_of, any_of-false, all_of-get_or,
  all_of-filter_by, length-filter_by-le, sort_by, is_sorted_by, sort_by-Perm, sort_by-all_of,
  sort_by-stable, sort_by-is_sorted_by, sort_by-eq-filter_by, ℤ, pos, negsuc, credit, debit,
  difference, ◌+ℤ◌, leb_ℤ, +ℤ_lem, ℤ_ext, integers, joined, after, after-joined, joined-injective,
  joined-after, str_eq, str_eq_iff, str_eq_refl, str_eq_ne, includes, includes-any_of, codes,
  contains, matches_ci,
}

-- A weight in hundredths of a pound, and measures in inches.
pub record ShippingInput : Type 0 where
  pub weight : ℕ
  pub length_in : ℕ
  pub width_in : ℕ
  pub height_in : ℕ
  pub zone : Zone

pub record CarrierRate : Type 0 where
  pub carrier : String
  pub service : String
  pub rate : ℕ
  pub est_days : ℕ

-- The weights are rounded to hundredths of a pound, and rounded up only to look a rate up.
pub record ShippingResult : Type 0 where
  pub actual_weight : ℕ
  pub ups_dim_weight : ℕ
  pub usps_dim_weight : ℕ
  pub billable_weight_ups : ℕ
  pub billable_weight_usps : ℕ
  pub rates : List CarrierRate
  pub cheapest : CarrierRate
  pub recommended : CarrierRate

pub record TransitDays : Type 0 where
  pub ground : ℕ
  pub priority : ℕ
  pub ground_adv : ℕ

abbrev pub transit_days : Zone → TransitDays
transit_days zone_2 = record { ground = 2; priority = 2; ground_adv = 5 }
transit_days zone_3 = record { ground = 3; priority = 3; ground_adv = 5 }
transit_days zone_4 = record { ground = 4; priority = 3; ground_adv = 5 }
transit_days zone_5 = record { ground = 5; priority = 3; ground_adv = 5 }
transit_days zone_6 = record { ground = 6; priority = 3; ground_adv = 5 }
transit_days zone_7 = record { ground = 7; priority = 3; ground_adv = 5 }
transit_days zone_8 = record { ground = 8; priority = 3; ground_adv = 5 }

-- `zone <= 5 ? 5 : 7`
abbrev pub day_limit : Zone → ℕ
day_limit zone_6 = 7
day_limit zone_7 = 7
day_limit zone_8 = 7
day_limit _ = 5

abbrev pub large_box : ℕ
large_box = 2190

abbrev pub medium_box : ℕ
medium_box = 1610

-- The pounds that UPS, FedEx and DHL bill, and those that USPS bills, by volume only above a cubic
-- foot.
unfoldable pub pounds_ups : ShippingInput → ℕ
pounds_ups i = max (rounded_up i.weight 100) (dim_pounds i.length_in i.width_in i.height_in 139)

unfoldable pub pounds_usps : ShippingInput → ℕ
pounds_usps i =
    let volume = i.length_in * i.width_in * i.height_in in
    max (rounded_up i.weight 100)
      (if ltb 1728 volume then dim_pounds i.length_in i.width_in i.height_in 166 else 0)

abbrev pub offer : String → String → ℕ → ℕ → CarrierRate
offer carrier service rate days = record {
  carrier = carrier;
  service = service;
  rate = rate;
  est_days = days;
}

unfoldable pub zone_rates : Zone → ℕ → ℕ → List CarrierRate
zone_rates z ups usps =
    let td = transit_days z in
    offer "UPS" "UPS Ground" (lookup_rate ups_ground z ups) td.ground
    ∷ offer "FedEx" "FedEx Ground" (lookup_rate fedex_ground z ups) td.ground
    ∷ offer "USPS" "Priority Mail" (lookup_rate usps_priority z usps) td.priority
    ∷ offer "USPS" "Ground Advantage" (lookup_rate usps_ground_advantage z usps) td.ground_adv
    ∷ offer "DHL" "DHL eCommerce" (lookup_rate dhl_ecommerce z ups) 5
    ∷ []

abbrev pub box_offer : Bool → CarrierRate → List CarrierRate
box_offer cheaper o = if cheaper then o ∷ [] else []

-- The boxes are offered up to 70 lb, where they cost less than Priority Mail by weight.
unfoldable pub flat_rates : Zone → ℕ → ℕ → List CarrierRate
flat_rates z weight usps =
    let by_weight = lookup_rate usps_priority z usps in
    let days = (transit_days z).priority in
    if leb weight 7000
    then box_offer (ltb large_box by_weight)
        (offer "USPS" "Priority Mail Large Flat Rate Box" large_box days)
      ++ box_offer (ltb medium_box by_weight)
          (offer "USPS" "Priority Mail Medium Flat Rate Box" medium_box days)
    else []

abbrev pub cheaper : CarrierRate → CarrierRate → Bool
cheaper a b = leb a.rate b.rate

abbrev pub first_or : List CarrierRate → CarrierRate → CarrierRate
first_or [] d = d
first_or (r ∷ rs) d = r

-- What stands for `rates[0]` of an empty list, which no input gives.
abbrev pub no_rate : CarrierRate
no_rate = offer "" "" 0 0

abbrev pub is_fast : Zone → CarrierRate → Bool
is_fast z r = leb r.est_days (day_limit z)

unfoldable pub carrier_offers : ShippingInput → List CarrierRate
carrier_offers i =
    zone_rates i.zone (pounds_ups i) (pounds_usps i) ++ flat_rates i.zone i.weight (pounds_usps i)

unfoldable pub calc_shipping : ShippingInput → ShippingResult
calc_shipping i =
    let rates = sort_by cheaper (carrier_offers i) in
    let cheapest = first_or rates no_rate in
    let ups_dim = dim_weight i.length_in i.width_in i.height_in 139 in
    let usps_dim =
      if ltb 1728 (i.length_in * i.width_in * i.height_in)
      then dim_weight i.length_in i.width_in i.height_in 166
      else 0 in
    record {
      actual_weight = i.weight;
      ups_dim_weight = ups_dim;
      usps_dim_weight = usps_dim;
      billable_weight_ups = max i.weight ups_dim;
      billable_weight_usps = max i.weight usps_dim;
      rates = rates;
      cheapest = cheapest;
      recommended = first_or (filter_by (is_fast i.zone) rates) cheapest;
    }
