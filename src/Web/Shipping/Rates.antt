-- ===== src/Web/Shipping/Rates.antt =====
-- tools/shipping-rates.ts: the tables of the carriers, in cents, and `lookupRate`. A weight is a
-- whole number of hundredths of a pound and a measure one of inches; what `lookupRate` rounds up is
-- the larger of two weights, and it is rounded up here before they are compared.
pub mod Monotone
use new_specter.Common.{
  ℕ, zero, suc, ◌+◌, ◌-◌, ◌*◌, ◌/◌, ◌%◌, ◌^◌, ◌≤◌, ◌<◌, min, max, String, ◌≡◌, refl, sym, ap, subst,
  ◌∙◌, fun_ext, ◌≢◌, ◌↔◌, ◌⊎◌, inl, inr, Bool, true, false, not, ◌&&◌, ◌||◌, Option, none, some,
  List, [], ◌∷◌, ◌++◌, map, arith, ℕ_discrete, ltb, leb, ◌==◌, if◌then◌else◌, ltb→lt, lt→ltb,
  leb→le, le→leb, ==_iff, Bool-cases, Option-cases, is_some, or_else, ◌>>=◌, length, get_or, any_of,
  all_of, filter_by, length-append, any_of-append, get_or-any_of, any_of-false, all_of-get_or,
  all_of-filter_by, length-filter_by-le, sort_by, is_sorted_by, sort_by-Perm, sort_by-all_of,
  sort_by-stable, sort_by-is_sorted_by, sort_by-eq-filter_by, ℤ, pos, negsuc, credit, debit,
  difference, ◌+ℤ◌, leb_ℤ, +ℤ_lem, ℤ_ext, integers, joined, after, after-joined, joined-injective,
  joined-after, str_eq, str_eq_iff, str_eq_refl, str_eq_ne, includes, includes-any_of, codes,
  contains, matches_ci,
}

pub data Zone : Type 0 where
  zone_2 zone_3 zone_4 zone_5 zone_6 zone_7 zone_8 : Zone

abbrev pub Table : Type 0
Table = Zone → List ℕ

abbrev pub weight_breaks : List ℕ
weight_breaks = 1 ∷ 2 ∷ 3 ∷ 4 ∷ 5 ∷ 6 ∷ 7 ∷ 8 ∷ 9 ∷ 10 ∷ 15 ∷ 20 ∷ 30 ∷ 40 ∷ 50 ∷ 70 ∷ []

abbrev pub ups_ground : Table
ups_ground zone_2 =
    1072 ∷ 1112 ∷ 1172 ∷ 1212 ∷ 1282 ∷ 1342 ∷ 1412 ∷ 1482 ∷ 1542 ∷ 1712 ∷ 2152 ∷ 2592 ∷ 3562 ∷ 4632
    ∷ 5622 ∷ 7832 ∷ []
ups_ground zone_3 =
    1132 ∷ 1192 ∷ 1252 ∷ 1322 ∷ 1382 ∷ 1452 ∷ 1562 ∷ 1632 ∷ 1732 ∷ 1952 ∷ 2442 ∷ 2982 ∷ 4042 ∷ 5182
    ∷ 6302 ∷ 8922 ∷ []
ups_ground zone_4 =
    1244 ∷ 1314 ∷ 1414 ∷ 1494 ∷ 1574 ∷ 1654 ∷ 1754 ∷ 1844 ∷ 1944 ∷ 2064 ∷ 2664 ∷ 3124 ∷ 4224 ∷ 5544
    ∷ 6544 ∷ 9064 ∷ []
ups_ground zone_5 =
    1352 ∷ 1462 ∷ 1602 ∷ 1722 ∷ 1822 ∷ 1922 ∷ 2062 ∷ 2182 ∷ 2302 ∷ 2502 ∷ 3222 ∷ 3962 ∷ 5242 ∷ 6602
    ∷ 8042 ∷ 11362 ∷ []
ups_ground zone_6 =
    1512 ∷ 1662 ∷ 1832 ∷ 1992 ∷ 2102 ∷ 2242 ∷ 2392 ∷ 2532 ∷ 2672 ∷ 2842 ∷ 3802 ∷ 4382 ∷ 5972 ∷ 7672
    ∷ 9152 ∷ 12432 ∷ []
ups_ground zone_7 =
    1682 ∷ 1872 ∷ 2102 ∷ 2292 ∷ 2452 ∷ 2612 ∷ 2792 ∷ 2972 ∷ 3142 ∷ 3352 ∷ 4492 ∷ 5522 ∷ 7522 ∷ 9522
    ∷ 11032 ∷ 14642 ∷ []
ups_ground zone_8 =
    1832 ∷ 2082 ∷ 2352 ∷ 2602 ∷ 2812 ∷ 3022 ∷ 3272 ∷ 3512 ∷ 3742 ∷ 3752 ∷ 5042 ∷ 5782 ∷ 8232 ∷ 10642
    ∷ 12252 ∷ 16432 ∷ []

abbrev pub fedex_ground : Table
fedex_ground zone_2 =
    1045 ∷ 1085 ∷ 1145 ∷ 1185 ∷ 1255 ∷ 1315 ∷ 1385 ∷ 1455 ∷ 1515 ∷ 1685 ∷ 2125 ∷ 2565 ∷ 3535 ∷ 4605
    ∷ 5595 ∷ 7795 ∷ []
fedex_ground zone_3 =
    1101 ∷ 1161 ∷ 1221 ∷ 1291 ∷ 1351 ∷ 1421 ∷ 1531 ∷ 1601 ∷ 1701 ∷ 1921 ∷ 2411 ∷ 2951 ∷ 4011 ∷ 5151
    ∷ 6271 ∷ 8891 ∷ []
fedex_ground zone_4 =
    1211 ∷ 1281 ∷ 1381 ∷ 1461 ∷ 1541 ∷ 1621 ∷ 1721 ∷ 1811 ∷ 1911 ∷ 2031 ∷ 2631 ∷ 3091 ∷ 4191 ∷ 5471
    ∷ 6491 ∷ 8931 ∷ []
fedex_ground zone_5 =
    1322 ∷ 1432 ∷ 1572 ∷ 1692 ∷ 1792 ∷ 1892 ∷ 2032 ∷ 2152 ∷ 2272 ∷ 2472 ∷ 3192 ∷ 3932 ∷ 5212 ∷ 6572
    ∷ 7982 ∷ 11282 ∷ []
fedex_ground zone_6 =
    1489 ∷ 1639 ∷ 1809 ∷ 1969 ∷ 2079 ∷ 2219 ∷ 2369 ∷ 2509 ∷ 2649 ∷ 2819 ∷ 3779 ∷ 4359 ∷ 5949 ∷ 7649
    ∷ 9129 ∷ 12409 ∷ []
fedex_ground zone_7 =
    1665 ∷ 1845 ∷ 2075 ∷ 2265 ∷ 2425 ∷ 2585 ∷ 2765 ∷ 2945 ∷ 3115 ∷ 3325 ∷ 4465 ∷ 5495 ∷ 7495 ∷ 9495
    ∷ 11005 ∷ 14615 ∷ []
fedex_ground zone_8 =
    1795 ∷ 2049 ∷ 2319 ∷ 2579 ∷ 2779 ∷ 2989 ∷ 3239 ∷ 3479 ∷ 3709 ∷ 3719 ∷ 4999 ∷ 5749 ∷ 8199 ∷ 10599
    ∷ 12219 ∷ 16399 ∷ []

abbrev pub usps_priority : Table
usps_priority zone_2 =
    925 ∷ 1035 ∷ 1225 ∷ 1345 ∷ 1425 ∷ 1615 ∷ 1785 ∷ 1945 ∷ 2125 ∷ 2575 ∷ 3655 ∷ 5085 ∷ 7585 ∷ 10185
    ∷ 12485 ∷ 16585 ∷ []
usps_priority zone_3 =
    935 ∷ 1095 ∷ 1335 ∷ 1485 ∷ 1625 ∷ 1845 ∷ 2055 ∷ 2255 ∷ 2485 ∷ 2885 ∷ 4055 ∷ 5735 ∷ 8735 ∷ 12035
    ∷ 15235 ∷ 20535 ∷ []
usps_priority zone_4 =
    965 ∷ 1145 ∷ 1405 ∷ 1595 ∷ 1725 ∷ 1945 ∷ 2135 ∷ 2335 ∷ 2535 ∷ 3235 ∷ 4635 ∷ 6335 ∷ 9835 ∷ 13635
    ∷ 17135 ∷ 23335 ∷ []
usps_priority zone_5 =
    1005 ∷ 1215 ∷ 1485 ∷ 1685 ∷ 1915 ∷ 2205 ∷ 2455 ∷ 2705 ∷ 2945 ∷ 3585 ∷ 5285 ∷ 7185 ∷ 11285
    ∷ 15485 ∷ 19585 ∷ 26585 ∷ []
usps_priority zone_6 =
    1085 ∷ 1325 ∷ 1565 ∷ 1805 ∷ 2065 ∷ 2385 ∷ 2675 ∷ 2945 ∷ 3225 ∷ 4035 ∷ 5935 ∷ 8035 ∷ 12735
    ∷ 17435 ∷ 22035 ∷ 30035 ∷ []
usps_priority zone_7 =
    1115 ∷ 1455 ∷ 1795 ∷ 2145 ∷ 2535 ∷ 2965 ∷ 3345 ∷ 3725 ∷ 4085 ∷ 4885 ∷ 7185 ∷ 9785 ∷ 15585
    ∷ 21385 ∷ 27085 ∷ 36985 ∷ []
usps_priority zone_8 =
    1165 ∷ 1485 ∷ 1965 ∷ 2405 ∷ 2685 ∷ 3185 ∷ 3635 ∷ 4085 ∷ 4525 ∷ 5235 ∷ 7735 ∷ 9985 ∷ 16085
    ∷ 22085 ∷ 27885 ∷ 38185 ∷ []

abbrev pub usps_ground_advantage : Table
usps_ground_advantage zone_2 =
    575 ∷ 645 ∷ 705 ∷ 765 ∷ 835 ∷ 895 ∷ 985 ∷ 1045 ∷ 1105 ∷ 1225 ∷ 1725 ∷ 2165 ∷ 3085 ∷ 4025 ∷ 5025
    ∷ 7025 ∷ []
usps_ground_advantage zone_3 =
    605 ∷ 685 ∷ 755 ∷ 825 ∷ 905 ∷ 985 ∷ 1105 ∷ 1185 ∷ 1285 ∷ 1345 ∷ 1945 ∷ 2445 ∷ 3625 ∷ 4845 ∷ 6125
    ∷ 8525 ∷ []
usps_ground_advantage zone_4 =
    625 ∷ 725 ∷ 805 ∷ 885 ∷ 1045 ∷ 1145 ∷ 1285 ∷ 1365 ∷ 1445 ∷ 1565 ∷ 2265 ∷ 2785 ∷ 4185 ∷ 5685
    ∷ 7285 ∷ 9885 ∷ []
usps_ground_advantage zone_5 =
    675 ∷ 805 ∷ 925 ∷ 1045 ∷ 1165 ∷ 1285 ∷ 1465 ∷ 1585 ∷ 1705 ∷ 1925 ∷ 2825 ∷ 3725 ∷ 5545 ∷ 7365
    ∷ 9045 ∷ 12245 ∷ []
usps_ground_advantage zone_6 =
    745 ∷ 905 ∷ 1065 ∷ 1205 ∷ 1385 ∷ 1525 ∷ 1715 ∷ 1875 ∷ 2025 ∷ 2135 ∷ 3245 ∷ 3985 ∷ 6185 ∷ 8285
    ∷ 10185 ∷ 13885 ∷ []
usps_ground_advantage zone_7 =
    825 ∷ 1025 ∷ 1215 ∷ 1405 ∷ 1645 ∷ 1865 ∷ 2075 ∷ 2285 ∷ 2475 ∷ 2655 ∷ 3955 ∷ 4955 ∷ 7255 ∷ 9555
    ∷ 11755 ∷ 16055 ∷ []
usps_ground_advantage zone_8 =
    925 ∷ 1185 ∷ 1425 ∷ 1665 ∷ 1865 ∷ 2085 ∷ 2355 ∷ 2595 ∷ 2825 ∷ 2985 ∷ 4485 ∷ 5265 ∷ 7865 ∷ 10365
    ∷ 12765 ∷ 17465 ∷ []

abbrev pub dhl_ecommerce : Table
dhl_ecommerce zone_2 =
    649 ∷ 729 ∷ 799 ∷ 859 ∷ 929 ∷ 999 ∷ 1069 ∷ 1139 ∷ 1209 ∷ 1299 ∷ 1849 ∷ 2399 ∷ 3549 ∷ 4699 ∷ 5949
    ∷ 8249 ∷ []
dhl_ecommerce zone_3 =
    689 ∷ 779 ∷ 859 ∷ 929 ∷ 1009 ∷ 1089 ∷ 1179 ∷ 1259 ∷ 1339 ∷ 1429 ∷ 2049 ∷ 2649 ∷ 3949 ∷ 5249
    ∷ 6649 ∷ 9249 ∷ []
dhl_ecommerce zone_4 =
    729 ∷ 829 ∷ 919 ∷ 999 ∷ 1089 ∷ 1179 ∷ 1279 ∷ 1369 ∷ 1459 ∷ 1559 ∷ 2249 ∷ 2949 ∷ 4449 ∷ 5949
    ∷ 7449 ∷ 10449 ∷ []
dhl_ecommerce zone_5 =
    779 ∷ 899 ∷ 1009 ∷ 1099 ∷ 1199 ∷ 1299 ∷ 1409 ∷ 1509 ∷ 1609 ∷ 1729 ∷ 2549 ∷ 3349 ∷ 5049 ∷ 6749
    ∷ 8449 ∷ 11849 ∷ []
dhl_ecommerce zone_6 =
    839 ∷ 979 ∷ 1109 ∷ 1229 ∷ 1349 ∷ 1459 ∷ 1579 ∷ 1699 ∷ 1809 ∷ 1939 ∷ 2949 ∷ 3749 ∷ 5649 ∷ 7549
    ∷ 9449 ∷ 13249 ∷ []
dhl_ecommerce zone_7 =
    909 ∷ 1079 ∷ 1249 ∷ 1409 ∷ 1559 ∷ 1699 ∷ 1849 ∷ 1989 ∷ 2129 ∷ 2289 ∷ 3449 ∷ 4349 ∷ 6549 ∷ 8749
    ∷ 10949 ∷ 15249 ∷ []
dhl_ecommerce zone_8 =
    989 ∷ 1189 ∷ 1389 ∷ 1589 ∷ 1769 ∷ 1939 ∷ 2129 ∷ 2309 ∷ 2479 ∷ 2639 ∷ 3949 ∷ 4949 ∷ 7449 ∷ 9949
    ∷ 12449 ∷ 17249 ∷ []

-- `Math.ceil(n / d)` for a positive `d`.
abbrev pub rounded_up : ℕ → ℕ → ℕ
rounded_up n d = (n + (d - 1)) / d

-- The rate at the first break that is not below the weight.
unfoldable pub rate_in : List ℕ → List ℕ → ℕ → Option ℕ
rate_in [] rates billed = none
rate_in (w ∷ ws) [] billed = none
rate_in (w ∷ ws) (r ∷ rates) billed = if leb billed w then some r else rate_in ws rates billed

-- The line through the last two rates, rounded to a cent.
unfoldable pub extrapolated : List ℕ → ℕ → ℕ
extrapolated rates billed =
    let top = get_or rates 15 0 in
    let slope = top - get_or rates 14 0 in top + (2 * (slope * (billed - 70)) + 20) / 40

-- For a weight that is rounded up to a pound at least.
unfoldable pub lookup_rate : Table → Zone → ℕ → ℕ
lookup_rate table zone pounds =
    let billed = max 1 pounds in
    or_else (rate_in weight_breaks (table zone) billed) (extrapolated (table zone) billed)

-- `round2(calcDimWeightLb(..))`, in hundredths of a pound.
abbrev pub dim_weight : ℕ → ℕ → ℕ → ℕ → ℕ
dim_weight length width height divisor = (200 * (length * width * height) + divisor) / (2 * divisor)

-- The pounds that are billed for a volume.
abbrev pub dim_pounds : ℕ → ℕ → ℕ → ℕ → ℕ
dim_pounds length width height divisor = rounded_up (length * width * height) divisor
