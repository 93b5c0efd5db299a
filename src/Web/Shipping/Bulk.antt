-- ===== src/Web/Shipping/Bulk.antt =====
-- tools/shipping.ts: the bulk shipment, by parcels or as one freight load. Weights are hundredths of
-- a pound, to which the source rounds, and amounts are cents; the names of the
-- carriers and the costs per unit are left out.
pub mod Crossover
use new_specter.Web.Shipping.Rates.{
  Zone, Table, ups_ground, fedex_ground, usps_ground_advantage, dhl_ecommerce, rounded_up,
  lookup_rate,
}
use new_specter.Common.{
  ℕ, zero, suc, ◌+◌, ◌-◌, ◌*◌, ◌/◌, ◌%◌, ◌^◌, ◌≤◌, ◌<◌, min, max, String, ◌≡◌, refl, sym, ap, subst,
  ◌∙◌, fun_ext, ◌≢◌, ◌↔◌, ◌⊎◌, inl, inr, Bool, true, false, not, ◌&&◌, ◌||◌, Option, none, some,
  List, [], ◌∷◌, ◌++◌, map, arith, ℕ_discrete, ltb, leb, ◌==◌, if◌then◌else◌, ltb→lt, lt→ltb,
  leb→le, le→leb, ==_iff, Bool-cases, Option-cases, is_some, or_else, ◌>>=◌, length, get_or, any_of,
  all_of, filter_by, length-append, any_of-append, get_or-any_of, any_of-false, all_of-get_or,
  all_of-filter_by, length-filter_by-le, sort_by, is_sorted_by, sort_by-Perm, sort_by-all_of,
  sort_by-stable, sort_by-is_sorted_by, sort_by-eq-filter_by, ℤ, pos, negsuc, credit, debit,
  difference, ◌+ℤ◌, leb_ℤ, +ℤ_lem, ℤ_ext, integers, joined, after, after-joined, joined-injective,
  joined-after, str_eq, str_eq_iff, str_eq_refl, str_eq_ne, includes, includes-any_of, codes,
  contains, matches_ci,
}

pub record BulkInput : Type 0 where
  pub weight_per_unit : ℕ
  pub length_in : ℕ
  pub width_in : ℕ
  pub height_in : ℕ
  pub unit_count : ℕ
  pub zone : Zone

pub data Mode : Type 0 where
  parcel ltl : Mode

-- `none` is `Infinity` as the crossover, and null as the freight rate.
pub record BulkResult : Type 0 where
  pub total_weight : ℕ
  pub billable_weight : ℕ
  pub parcel_rates : List ℕ
  pub ltl_rate : Option ℕ
  pub ltl_crossover_units : Option ℕ
  pub recommended_mode : Mode

-- `round2(volume / 139)`, in hundredths.
abbrev pub dim_per_unit : BulkInput → ℕ
dim_per_unit i = (200 * (i.length_in * i.width_in * i.height_in) + 139) / 278

unfoldable pub billable_per_unit : BulkInput → ℕ
billable_per_unit i = max i.weight_per_unit (dim_per_unit i)

abbrev pub bulk_tables : List Table
bulk_tables = ups_ground ∷ fedex_ground ∷ usps_ground_advantage ∷ dhl_ecommerce ∷ []

unfoldable pub parcel_costs : Zone → ℕ → List ℕ
parcel_costs zone weight =
    map (λ (t : Table). lookup_rate t zone (rounded_up weight 100)) bulk_tables

-- 8, 6 or 4 cents per pound on 50 dollars, rounded to a cent.
unfoldable pub calc_ltl_cost : ℕ → ℕ
calc_ltl_cost weight =
    let per_pound = if ltb weight 50000 then 8 else if ltb weight 100000 then 6 else 4 in
    5000 + (2 * (weight * per_pound) + 100) / 200

abbrev pub least : ℕ → List ℕ → ℕ
least m [] = m
least m (x ∷ xs) = least (min m x) xs

abbrev pub least_of : List ℕ → ℕ
least_of [] = 0
least_of (x ∷ xs) = least x xs

abbrev pub is_freight : ℕ → Bool
is_freight weight = leb 15000 weight

-- The test of the loop for a number of units.
unfoldable pub is_crossover : BulkInput → ℕ → Bool
is_crossover i n =
    let tb = billable_per_unit i * n in
    is_freight tb && ltb (calc_ltl_cost tb) (least_of (parcel_costs i.zone tb))

-- The first of `count` numbers from `n` on that passes.
abbrev pub first_from : (ℕ → Bool) → ℕ → ℕ → Option ℕ
first_from p n zero = none
first_from p n (suc count) = let later = first_from p (suc n) count in if p n then some n else later

unfoldable pub crossover : BulkInput → Option ℕ
crossover i = first_from (is_crossover i) 1 10000

abbrev pub beats_parcels : Option ℕ → List ℕ → Bool
beats_parcels none rates = false
beats_parcels (some l) [] = false
beats_parcels (some l) (r ∷ rates) = ltb l r

unfoldable pub calc_bulk_shipment : BulkInput → BulkResult
calc_bulk_shipment i =
    let tb = billable_per_unit i * i.unit_count in
    let rates = sort_by leb (parcel_costs i.zone tb) in
    let freight = if is_freight tb then some (calc_ltl_cost tb) else none in
    if i.unit_count == 0
    then record {
      total_weight = 0;
      billable_weight = 0;
      parcel_rates = [];
      ltl_rate = none;
      ltl_crossover_units = none;
      recommended_mode = parcel;
    }
    else record {
      total_weight = i.weight_per_unit * i.unit_count;
      billable_weight = tb;
      parcel_rates = rates;
      ltl_rate = freight;
      ltl_crossover_units = crossover i;
      recommended_mode = if beats_parcels freight rates then ltl else parcel;
    }

abbrev pub is_ltl : Mode → Bool
is_ltl ltl = true
is_ltl parcel = false
