-- ===== src/Web/Shipping/Rates/Monotone.antt =====
-- tools/shipping-rates.ts: a heavier parcel is never cheaper.
use native.Mathlib.Nat.{mul-le-mul_left}
use new_specter.Web.Shipping.Rates.{
  Zone, zone_2, zone_3, zone_4, zone_5, zone_6, zone_7, zone_8, Table, weight_breaks, ups_ground,
  fedex_ground, usps_priority, usps_ground_advantage, dhl_ecommerce, rate_in, extrapolated,
  lookup_rate,
}
use new_specter.Common.{
  ℕ, ◌-◌, ◌≤◌, max, ◌≡◌, refl, subst, inl, inr, Bool, true, false, ◌&&◌, none, some, List, [], ◌∷◌,
  arith, leb, ◌==◌, Bool-cases, Option-cases, or_else, length, get_or, all_of,
}

-- Sixteen rates that do not fall.
abbrev pub is_ascending : List ℕ → Bool
is_ascending [] = true
is_ascending (r ∷ rs) = all_of (leb r) rs && is_ascending rs

abbrev pub is_row : List ℕ → Bool
is_row rates = is_ascending rates && length rates == 16

rate_in-all_of :
    (p : ℕ → Bool) (ws rs : List ℕ) (b y : ℕ)
    → all_of p rs ≡ true
    → rate_in ws rs b ≡ some y
    → p y ≡ true
unfolding rate_in
rate_in-all_of p [] rs b y a h = cc
rate_in-all_of p (w ∷ ws) [] b y a h = cc
rate_in-all_of p (w ∷ ws) (r ∷ rs) b y a h = elim (Bool-cases (leb b w)) [
  | inl e ↦ ground (arith, rw e at h)
  | inr e ↦ rate_in-all_of p ws rs b y (ground arith) (rw e at h)
]

rate_in-monotone :
    (ws rs : List ℕ) (a b x y : ℕ)
    → a ≤ b
    → is_ascending rs ≡ true
    → rate_in ws rs a ≡ some x
    → rate_in ws rs b ≡ some y
    → x ≤ y
unfolding rate_in
rate_in-monotone [] rs a b x y l s h h' = cc
rate_in-monotone (w ∷ ws) [] a b x y l s h h' = cc
rate_in-monotone (w ∷ ws) (r ∷ rs) a b x y l s h h' = elim (Bool-cases (leb a w)) [
  | inl e ↦ elim (Bool-cases (leb b w)) [
    | inl e' ↦ ground (arith, rw e at h, rw e' at h')
    | inr e' ↦
        ground (arith, rw e at h, rate_in-all_of (leb r) ws rs b y (ground arith) (rw e' at h'))
  ]
  | inr e ↦ elim (Bool-cases (leb b w)) [
    | inl e' ↦ absurd (ground arith)
    | inr e' ↦ rate_in-monotone ws rs a b x y l (ground arith) (rw e at h) (rw e' at h')
  ]
]

rate_in-none : (ws rs : List ℕ) (a b : ℕ) → a ≤ b → rate_in ws rs a ≡ none → rate_in ws rs b ≡ none
unfolding rate_in
rate_in-none [] rs a b l h = refl
rate_in-none (w ∷ ws) [] a b l h = refl
rate_in-none (w ∷ ws) (r ∷ rs) a b l h = elim (Bool-cases (leb a w)) [
  | inl e ↦ cc (rw e at h)
  | inr e ↦
      let above : leb b w ≡ false = ground arith in rw above (rate_in-none ws rs a b l (rw e at h))
]

ascending-last :
    (r : ℕ) (rs : List ℕ)
    → is_ascending (r ∷ rs) ≡ true
    → all_of (λ q. leb q (get_or (r ∷ rs) (length rs) 0)) (r ∷ rs) ≡ true
ascending-last r [] h = ground arith
ascending-last r (q ∷ rs) h = ground (arith, ascending-last q rs)

row-top : (rs : List ℕ) → is_row rs ≡ true → all_of (λ q. leb q (get_or rs 15 0)) rs ≡ true
row-top [] h = refl
row-top (r ∷ rs) h =
    let long : length rs ≡ 15 = ground arith in
    subst (λ n. all_of (λ q. leb q (get_or (r ∷ rs) n 0)) (r ∷ rs) ≡ true) long
      (ascending-last r rs (ground arith))

extrapolated-monotone : (rs : List ℕ) (a b : ℕ) → a ≤ b → extrapolated rs a ≤ extrapolated rs b
unfolding extrapolated
extrapolated-monotone rs a b l =
    let top : ℕ = get_or rs 15 0 in
    let slope : ℕ = top - get_or rs 14 0 in
    let more : a - 70 ≤ b - 70 = omega arith in omega (arith, mul-le-mul_left slope more)

top-extrapolated : (rs : List ℕ) (b : ℕ) → get_or rs 15 0 ≤ extrapolated rs b
unfolding extrapolated
top-extrapolated rs b = omega arith

row_rate : List ℕ → ℕ → ℕ
row_rate rs b = or_else (rate_in weight_breaks rs b) (extrapolated rs b)

row_rate-monotone :
    (rs : List ℕ) (a b : ℕ) → is_row rs ≡ true → a ≤ b → row_rate rs a ≤ row_rate rs b
unfolding row_rate
row_rate-monotone rs a b row l = elim (Option-cases (rate_in weight_breaks rs a)) [
  | inl e ↦ rw (e, rate_in-none weight_breaks rs a b l e) (extrapolated-monotone rs a b l)
  | inr (x, e) ↦ elim (Option-cases (rate_in weight_breaks rs b)) [
    | inl e' ↦
        let below : leb x (get_or rs 15 0) ≡ true =
          rate_in-all_of (λ q. leb q (get_or rs 15 0)) weight_breaks rs a x (row-top rs row) e in
        rw (e, e') (ground (arith, top-extrapolated rs b))
    | inr (y, e') ↦ rw (e, e') (rate_in-monotone weight_breaks rs a b x y l (ground arith) e e')
  ]
]

pub data Carrier : Type 0 where
  ups fedex priority advantage dhl : Carrier

abbrev pub table_of : Carrier → Table
table_of ups = ups_ground
table_of fedex = fedex_ground
table_of priority = usps_priority
table_of advantage = usps_ground_advantage
table_of dhl = dhl_ecommerce

table_of-is_row : (c : Carrier) (z : Zone) → is_row (table_of c z) ≡ true
table_of-is_row ups zone_2 = refl
table_of-is_row ups zone_3 = refl
table_of-is_row ups zone_4 = refl
table_of-is_row ups zone_5 = refl
table_of-is_row ups zone_6 = refl
table_of-is_row ups zone_7 = refl
table_of-is_row ups zone_8 = refl
table_of-is_row fedex zone_2 = refl
table_of-is_row fedex zone_3 = refl
table_of-is_row fedex zone_4 = refl
table_of-is_row fedex zone_5 = refl
table_of-is_row fedex zone_6 = refl
table_of-is_row fedex zone_7 = refl
table_of-is_row fedex zone_8 = refl
table_of-is_row priority zone_2 = refl
table_of-is_row priority zone_3 = refl
table_of-is_row priority zone_4 = refl
table_of-is_row priority zone_5 = refl
table_of-is_row priority zone_6 = refl
table_of-is_row priority zone_7 = refl
table_of-is_row priority zone_8 = refl
table_of-is_row advantage zone_2 = refl
table_of-is_row advantage zone_3 = refl
table_of-is_row advantage zone_4 = refl
table_of-is_row advantage zone_5 = refl
table_of-is_row advantage zone_6 = refl
table_of-is_row advantage zone_7 = refl
table_of-is_row advantage zone_8 = refl
table_of-is_row dhl zone_2 = refl
table_of-is_row dhl zone_3 = refl
table_of-is_row dhl zone_4 = refl
table_of-is_row dhl zone_5 = refl
table_of-is_row dhl zone_6 = refl
table_of-is_row dhl zone_7 = refl
table_of-is_row dhl zone_8 = refl

-- In each of the five tables and each zone, a parcel with more pounds to bill never costs less,
-- also above the last break, where the rate is extrapolated.
pub lookup_rate-monotone :
    (c : Carrier) (z : Zone) (a b : ℕ)
    → a ≤ b
    → lookup_rate (table_of c) z a ≤ lookup_rate (table_of c) z b
unfolding lookup_rate row_rate
lookup_rate-monotone c z a b l =
    row_rate-monotone (table_of c z) (max 1 a) (max 1 b) (table_of-is_row c z) (omega arith)
