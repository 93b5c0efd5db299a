-- ===== src/Web/Attribution/Totals.antt =====
-- dashboard/attribution-breakdown.ts and change-log-summary.ts: sums over the rows and over
-- the changes.
use new_specter.Web.Attribution.{
  PriceChange, SkuBreakdown, delta, new_row, credited, account, account_all, sku_breakdown,
  total_change_count,
}
use new_specter.Common.{
  suc, ◌+◌, String, ◌≡◌, refl, ◌∙◌, inl, inr, Bool, true, not, ◌&&◌, ◌||◌, List, [], ◌∷◌, arith,
  if◌then◌else◌, Bool-cases, length, any_of, filter_by, ℤ, pos, credit, debit, ◌+ℤ◌, integers,
  str_eq, str_eq_iff,
}

abbrev pub net_of : List SkuBreakdown → ℤ
net_of [] = pos 0
net_of (r ∷ rows) = r.net +ℤ net_of rows

abbrev pub delta_sum : List PriceChange → ℤ
delta_sum [] = pos 0
delta_sum (c ∷ cs) = delta c +ℤ delta_sum cs

-- The net is what was recovered and what was lost; the one is not negative, the other not positive.
abbrev pub IsBalanced : SkuBreakdown → Type 0
IsBalanced r = (r.net ≡ r.recovered +ℤ r.lost) × (debit r.recovered ≡ 0) × (credit r.lost ≡ 0)

abbrev pub AllBalanced : List SkuBreakdown → Type 0
AllBalanced [] = Unit {0}
AllBalanced (r ∷ rows) = IsBalanced r × AllBalanced rows

credited-IsBalanced : (r : SkuBreakdown) (d : ℤ) → IsBalanced r → IsBalanced (credited r d)
unfolding credited
credited-IsBalanced r d h = grind integers

account-AllBalanced :
    (rows : List SkuBreakdown) (c : PriceChange) → AllBalanced rows → AllBalanced (account rows c)
unfolding account
account-AllBalanced [] c h =
    (credited-IsBalanced (new_row c) (delta c) (omega integers, refl, refl), tt)
account-AllBalanced (r ∷ rows) c h =
    ground (arith, account-AllBalanced rows c h.1, credited-IsBalanced r (delta c) h.0)

account-net_of :
    (rows : List SkuBreakdown) (c : PriceChange) → net_of (account rows c) ≡ net_of rows +ℤ delta c
unfolding account credited
account-net_of [] c = omega integers
account-net_of (r ∷ rows) c = elim (Bool-cases (str_eq r.sku_id c.sku_id)) [
  | inl e ↦ rw e (omega integers)
  | inr e ↦ rw (e, account-net_of rows c) (omega integers)
]

account-total_change_count :
    (rows : List SkuBreakdown) (c : PriceChange)
    → total_change_count (account rows c) ≡ suc (total_change_count rows)
unfolding account credited
account-total_change_count [] c = omega arith
account-total_change_count (r ∷ rows) c = ground (arith, account-total_change_count rows c)

-- The rows of one SKU, and the changes of it.
abbrev pub share : Bool → ℤ → ℤ
share b x = if b then x else pos 0

abbrev pub net_for : String → List SkuBreakdown → ℤ
net_for k [] = pos 0
net_for k (r ∷ rows) = share (str_eq r.sku_id k) r.net +ℤ net_for k rows

abbrev pub changes_of : String → List PriceChange → List PriceChange
changes_of k = filter_by (λ c. str_eq c.sku_id k)

abbrev pub has_row : String → List SkuBreakdown → Bool
has_row k = any_of (λ r. str_eq r.sku_id k)

-- No two rows have one SKU.
abbrev pub one_row_each : List SkuBreakdown → Bool
one_row_each [] = true
one_row_each (r ∷ rows) = not (has_row r.sku_id rows) && one_row_each rows

account-has_row :
    (rows : List SkuBreakdown) (c : PriceChange) (k : String)
    → has_row k (account rows c) ≡ (has_row k rows || str_eq c.sku_id k)
unfolding account credited
account-has_row [] c k = ground arith
account-has_row (r ∷ rows) c k =
    ground (arith, account-has_row rows c k, str_eq_iff r.sku_id c.sku_id)

account-one_row_each :
    (rows : List SkuBreakdown) (c : PriceChange)
    → one_row_each rows ≡ true
    → one_row_each (account rows c) ≡ true
unfolding account credited
account-one_row_each [] c h = refl
account-one_row_each (r ∷ rows) c h = ground (
  arith,
  account-one_row_each rows c,
  account-has_row rows c r.sku_id,
  str_eq_iff r.sku_id c.sku_id,
  str_eq_iff c.sku_id r.sku_id,
)

account-net_for :
    (rows : List SkuBreakdown) (c : PriceChange) (k : String)
    → net_for k (account rows c) ≡ net_for k rows +ℤ share (str_eq c.sku_id k) (delta c)
unfolding account credited
account-net_for [] c k = elim (Bool-cases (str_eq c.sku_id k)) [
  | inl e ↦ rw e (omega integers)
  | inr e ↦ rw e (omega integers)
]
account-net_for (r ∷ rows) c k = elim (Bool-cases (str_eq r.sku_id c.sku_id)) [
  | inl e ↦
      let same = (str_eq_iff r.sku_id c.sku_id).0 e in
      elim (Bool-cases (str_eq c.sku_id k)) [
        | inl e' ↦ rw (e, same, e') (omega integers)
        | inr e' ↦ rw (e, same, e') (omega integers)
      ]
  | inr e ↦ rw (e, account-net_for rows c k) (omega integers)
]

changes_of-delta_sum :
    (c : PriceChange) (cs : List PriceChange) (k : String)
    → delta_sum (changes_of k (c ∷ cs))
      ≡ share (str_eq c.sku_id k) (delta c) +ℤ delta_sum (changes_of k cs)
changes_of-delta_sum c cs k = elim (Bool-cases (str_eq c.sku_id k)) [
  | inl e ↦ rw e refl
  | inr e ↦ rw e (omega integers)
]

-- The state of the loop after the changes that it has read.
module _ (k : String) where
  abbrev IsExact : List SkuBreakdown → Type 0
  IsExact rows = AllBalanced rows × (one_row_each rows ≡ true)

  account_all-IsExact :
      (cs : List PriceChange) (rows : List SkuBreakdown)
      → IsExact rows
      → let out = account_all rows cs in
        IsExact out
        × (net_for k out ≡ net_for k rows +ℤ delta_sum (changes_of k cs))
        × (net_of out ≡ net_of rows +ℤ delta_sum cs)
        × (total_change_count out ≡ total_change_count rows + length cs)
  account_all-IsExact [] rows h = (h, omega integers, omega integers, omega arith)
  account_all-IsExact (c ∷ cs) rows h =
      let (exact, nets, net, count) =
        account_all-IsExact cs (account rows c)
          (account-AllBalanced rows c h.0, account-one_row_each rows c h.1) in
      (
        exact,
        nets ∙ rw (account-net_for rows c k, changes_of-delta_sum c cs k) (omega integers),
        net ∙ rw (account-net_of rows c) (omega integers),
        count ∙ rw (account-total_change_count rows c) (omega arith),
      )

-- The breakdown has one row for each SKU. Its row's net is the sum of the SKU's changes and what
-- was recovered plus what was lost, of which neither has the other's sign; over all rows, the nets
-- are the sum of the changes and the counts are their number.
pub breakdown_exact :
    (accounted : List PriceChange) (k : String)
    → let rows = sku_breakdown accounted in
      AllBalanced rows
      × (one_row_each rows ≡ true)
      × (net_for k rows ≡ delta_sum (changes_of k accounted))
      × (net_of rows ≡ delta_sum accounted)
      × (total_change_count rows ≡ length accounted)
breakdown_exact accounted k =
    let ((balanced, each), nets, net, count) = account_all-IsExact k accounted [] (tt, refl) in
    (balanced, each, nets ∙ omega integers, net ∙ omega integers, count ∙ omega arith)
