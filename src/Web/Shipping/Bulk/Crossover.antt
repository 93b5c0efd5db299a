-- ===== src/Web/Shipping/Bulk/Crossover.antt =====
-- tools/shipping.ts: the number of units from which freight is cheaper, and the recommended mode.
use new_specter.Web.Shipping.Rates.{Zone}
use new_specter.Web.Shipping.Bulk.{
  BulkInput, ltl, parcel, billable_per_unit, parcel_costs, calc_ltl_cost, least, least_of,
  is_freight, is_crossover, first_from, crossover, beats_parcels, calc_bulk_shipment, is_ltl,
}
use new_specter.Common.{
  ℕ, zero, suc, ◌+◌, ◌*◌, ◌≤◌, ◌<◌, min, ◌≡◌, refl, sym, ◌∙◌, inl, inr, Bool, true, false, none,
  some, List, [], ◌∷◌, arith, ltb, leb, ◌==◌, if◌then◌else◌, ==_iff, Bool-cases, length, all_of,
  sort_by, is_sorted_by, sort_by-all_of, sort_by-is_sorted_by,
}

beyond : (p : ℕ → Bool) (n k : ℕ) → p n ≡ false → p k ≡ true → n ≤ k → suc n ≤ k
beyond p n k h h' l = elim (Bool-cases (n == k)) [
  | inl e ↦ let same = (==_iff n k).0 e in cc
  | inr e ↦ ground arith
]

-- The loop finds the first number that passes, where one does.
first_from-least :
    (p : ℕ → Bool) (n count k : ℕ)
    → n ≤ k
    → k < n + count
    → p k ≡ true
    → (m : ℕ) × (first_from p n count ≡ some m) × (m ≤ k) × (p m ≡ true)
first_from-least p n zero k l u h = absurd (omega arith)
first_from-least p n (suc count) k l u h = elim (Bool-cases (p n)) [
  | inl e ↦ (n, rw e refl, l, e)
  | inr e ↦
      let (m, f, b, pm) = first_from-least p (suc n) count k (beyond p n k e h l) (omega arith) h in
      (m, rw e f, b, pm)
]

least-above :
    (l x : ℕ) (xs : List ℕ) → ltb l x ≡ true → all_of (ltb l) xs ≡ true → ltb l (least x xs) ≡ true
least-above l x [] h a = h
least-above l x (y ∷ xs) h a = least-above l (min x y) xs (ground arith) (ground arith)

sorted-above :
    (l r : ℕ) (rs : List ℕ) → ltb l r ≡ true → all_of (leb r) rs ≡ true → all_of (ltb l) rs ≡ true
sorted-above l r [] h a = refl
sorted-above l r (q ∷ rs) h a = ground (arith, sorted-above l r rs h)

beats-above :
    (l : ℕ) (rs : List ℕ)
    → is_sorted_by leb rs ≡ true
    → beats_parcels (some l) rs ≡ true
    → all_of (ltb l) rs ≡ true
beats-above l [] s h = cc
beats-above l (r ∷ rs) s h = ground (arith, sorted-above l r rs)

sorted_costs : (xs : List ℕ) → is_sorted_by leb (sort_by leb xs) ≡ true
sorted_costs xs = sort_by-is_sorted_by leb (λ a b. ground arith) (λ a b c h h'. ground arith) xs

least_of-above :
    (l : ℕ) (xs : List ℕ)
    → ltb 0 (length xs) ≡ true
    → all_of (ltb l) xs ≡ true
    → ltb l (least_of xs) ≡ true
least_of-above l [] e a = cc
least_of-above l (x ∷ xs) e a = least-above l x xs (ground arith) (ground arith)

costs-above :
    (l w : ℕ) (zone : Zone)
    → all_of (ltb l) (parcel_costs zone w) ≡ true
    → ltb l (least_of (parcel_costs zone w)) ≡ true
unfolding parcel_costs
costs-above l w zone a = least_of-above l (parcel_costs zone w) refl a

beats-is_crossover :
    (i : BulkInput) (n : ℕ)
    → beats_parcels
        (if is_freight (billable_per_unit i * n)
          then some (calc_ltl_cost (billable_per_unit i * n))
          else none)
        (sort_by leb (parcel_costs i.zone (billable_per_unit i * n)))
      ≡ true
    → is_crossover i n ≡ true
unfolding is_crossover
beats-is_crossover i n h =
    let tb : ℕ = billable_per_unit i * n in
    let costs : List ℕ = parcel_costs i.zone tb in
    let l : ℕ = calc_ltl_cost tb in
    elim (Bool-cases (is_freight tb)) [
      | inl e ↦ rw e (
          costs-above l tb i.zone (
            sym (sort_by-all_of leb (ltb l) costs)
            ∙ beats-above l (sort_by leb costs) (sorted_costs costs) (rw e at h)))
      | inr e ↦ cc (rw e at h)
    ]

positive : (n : ℕ) → 1 ≤ n → (n == 0) ≡ false
positive n h = ground arith

ltl-chosen : (b : Bool) → is_ltl (if b then ltl else parcel) ≡ true → b ≡ true
ltl-chosen true h = refl
ltl-chosen false h = cc

-- For one to ten thousand units: where freight is recommended, the loop finds a number of units from
-- which freight is cheaper than every carrier, it is no greater than the units that are shipped,
-- and at that number freight is cheaper too.
pub freight_crossover :
    (i : BulkInput)
    → 1 ≤ i.unit_count
    → i.unit_count ≤ 10000
    → is_ltl (calc_bulk_shipment i).recommended_mode ≡ true
    → (m : ℕ) × ((calc_bulk_shipment i).ltl_crossover_units ≡ some m)
      × (m ≤ i.unit_count)
      × (is_crossover i m ≡ true)
unfolding calc_bulk_shipment crossover
freight_crossover i lo hi h =
    let shipped = positive i.unit_count lo in
    rw (shipped, calc_bulk_shipment)
      (first_from-least (is_crossover i) 1 10000 i.unit_count lo (omega arith)
        (beats-is_crossover i i.unit_count (ltl-chosen _ (rw (shipped, calc_bulk_shipment) at h))))
