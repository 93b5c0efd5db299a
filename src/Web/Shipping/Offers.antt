-- ===== src/Web/Shipping/Offers.antt =====
-- tools/shipping.ts: the cheapest rate and the recommended one.
use new_specter.Web.Shipping.Rates.{Zone, zone_2, zone_3, zone_4, zone_5, zone_6, zone_7, zone_8}
use new_specter.Web.Shipping.{
  ShippingInput, CarrierRate, transit_days, day_limit, zone_rates, flat_rates, cheaper, first_or,
  no_rate, is_fast, carrier_offers, pounds_ups, pounds_usps, calc_shipping,
}
use new_specter.Common.{
  ℕ, ◌≡◌, refl, ◌∙◌, Bool, true, false, not, ◌||◌, List, [], ◌∷◌, ◌++◌, arith, leb, all_of,
  filter_by, sort_by, sort_by-all_of,
}

-- What costs no less than `x`, among the rates that pass a test.
abbrev pub no_cheaper : (CarrierRate → Bool) → CarrierRate → CarrierRate → Bool
no_cheaper p x o = not (p o) || cheaper x o

filter_by-all :
    (p : CarrierRate → Bool) (rs : List CarrierRate) → all_of p rs ≡ true → filter_by p rs ≡ rs
filter_by-all p [] h = refl
filter_by-all p (r ∷ rs) h = ground (arith, filter_by-all p rs)

all_of-boxes :
    (z : Zone) (weight usps : ℕ)
    → leb (transit_days z).priority (day_limit z) ≡ true
    → all_of (is_fast z) (flat_rates z weight usps) ≡ true
unfolding flat_rates
all_of-boxes z weight usps h = ground arith

abbrev pub is_zone_8 : Zone → Bool
is_zone_8 zone_8 = true
is_zone_8 _ = false

offers_fast :
    (i : ShippingInput)
    → is_zone_8 i.zone ≡ false
    → all_of (is_fast i.zone) (carrier_offers i) ≡ true
unfolding carrier_offers zone_rates
offers_fast i h = zones i.zone h
  where
    zones :
        (z : Zone)
        → is_zone_8 z ≡ false
        → all_of
            (is_fast z)
            (zone_rates z (pounds_ups i) (pounds_usps i) ++ flat_rates z i.weight (pounds_usps i))
          ≡ true
    zones zone_2 e = all_of-boxes zone_2 i.weight (pounds_usps i) refl
    zones zone_3 e = all_of-boxes zone_3 i.weight (pounds_usps i) refl
    zones zone_4 e = all_of-boxes zone_4 i.weight (pounds_usps i) refl
    zones zone_5 e = all_of-boxes zone_5 i.weight (pounds_usps i) refl
    zones zone_6 e = all_of-boxes zone_6 i.weight (pounds_usps i) refl
    zones zone_7 e = all_of-boxes zone_7 i.weight (pounds_usps i) refl
    zones zone_8 e = cc

-- The filter by days changes the recommendation in zone 8 at most: in every other zone all rates
-- arrive within the limit, and the recommended rate is the cheapest.
pub recommended-cheapest :
    (i : ShippingInput)
    → is_zone_8 i.zone ≡ false
    → (calc_shipping i).recommended ≡ (calc_shipping i).cheapest
unfolding calc_shipping
recommended-cheapest i h =
    let rs : List CarrierRate = sort_by cheaper (carrier_offers i) in
    rw
      (filter_by-all (is_fast i.zone) rs
        (sort_by-all_of cheaper (is_fast i.zone) (carrier_offers i) ∙ offers_fast i h))
      (same rs no_rate)
  where
    same : (rs : List CarrierRate) (d : CarrierRate) → first_or rs (first_or rs d) ≡ first_or rs d
    same [] d = refl
    same (r ∷ rs) d = refl
