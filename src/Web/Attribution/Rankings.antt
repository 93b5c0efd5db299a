-- ===== src/Web/Attribution/Rankings.antt =====
-- dashboard/attribution-breakdown.ts and attribution-insight.ts: the orders of the rows, the best
-- day and the top product.
use mathlib.Core.List.{Perm}
use new_specter.Web.Attribution.{
  SkuBreakdown, BreakdownSort, by_net, by_recovered, by_lost, by_count, descending, row_before,
  sort_sku_breakdown, SeriesPoint, is_positive, beats, best_of, count_positive, attribution_insight,
}
use new_specter.Common.{
  ℕ, suc, ◌+◌, String, ◌≡◌, refl, ◌∙◌, inl, inr, Bool, true, false, ◌&&◌, ◌||◌, Option, none, some,
  List, [], ◌∷◌, arith, if◌then◌else◌, Bool-cases, length, any_of, all_of, filter_by, is_sorted_by,
  sort_by-Perm, sort_by-is_sorted_by, ℤ, pos, leb_ℤ,
}

descending-total :
    (x y : ℤ) (r r' : Bool) → (r || r') ≡ true → (descending x y r || descending y x r') ≡ true
descending-total x y r r' h = ground arith

descending_trans :
    (x y z : ℤ) (r r' r'' : Bool)
    → (r ≡ true → r' ≡ true → r'' ≡ true)
    → descending x y r ≡ true
    → descending y z r' ≡ true
    → descending x z r'' ≡ true
descending_trans x y z r r' r'' t h h' = ground arith

module _ (title_before : String → String → Bool)
    (total : (s t : String) → (title_before s t || title_before t s) ≡ true)
    (trans : (s t u : String)
      → title_before s t ≡ true
      → title_before t u ≡ true
      → title_before s u ≡ true) where
  row_before-total :
      (m : BreakdownSort) (a b : SkuBreakdown)
      → (row_before title_before m a b || row_before title_before m b a) ≡ true
  unfolding row_before
  row_before-total by_net a b =
      descending-total a.net b.net _ _
        (descending-total a.recovered b.recovered _ _ (total a.sku_title b.sku_title))
  row_before-total by_recovered a b =
      descending-total a.recovered b.recovered _ _
        (descending-total a.net b.net _ _ (total a.sku_title b.sku_title))
  row_before-total by_lost a b =
      descending-total b.lost a.lost _ _
        (descending-total b.net a.net _ _ (total a.sku_title b.sku_title))
  row_before-total by_count a b =
      descending-total (pos a.count) (pos b.count) _ _
        (descending-total a.net b.net _ _ (total a.sku_title b.sku_title))

  row_before_trans :
      (m : BreakdownSort) (a b c : SkuBreakdown)
      → row_before title_before m a b ≡ true
      → row_before title_before m b c ≡ true
      → row_before title_before m a c ≡ true
  unfolding row_before
  row_before_trans by_net a b c h h' =
      descending_trans a.net b.net c.net _ _ _
        (descending_trans a.recovered b.recovered c.recovered _ _ _
          (trans a.sku_title b.sku_title c.sku_title))
        h h'
  row_before_trans by_recovered a b c h h' =
      descending_trans a.recovered b.recovered c.recovered _ _ _
        (descending_trans a.net b.net c.net _ _ _ (trans a.sku_title b.sku_title c.sku_title)) h h'
  row_before_trans by_lost a b c h h' =
      descending_trans c.lost b.lost a.lost _ _ _
        (descending_trans c.net b.net a.net _ _ _
          λ t t'. trans a.sku_title b.sku_title c.sku_title t' t)
        h' h
  row_before_trans by_count a b c h h' =
      descending_trans (pos a.count) (pos b.count) (pos c.count) _ _ _
        (descending_trans a.net b.net c.net _ _ _ (trans a.sku_title b.sku_title c.sku_title)) h h'

  -- Where `localeCompare` is a total preorder, each of the four orders of the breakdown rearranges
  -- its rows so that every row is before all that follow it.
  pub breakdown_sorted :
      (rows : List SkuBreakdown) (mode : BreakdownSort)
      → let out = sort_sku_breakdown title_before rows mode in
        Perm out rows × (is_sorted_by (row_before title_before mode) out ≡ true)
  breakdown_sorted rows mode = (
    sort_by-Perm (row_before title_before mode) rows,
    sort_by-is_sorted_by (row_before title_before mode) (row_before-total mode)
        (row_before_trans mode) rows,
  )

module _ {ℓ} {A : Type ℓ} (value : A → ℤ) where
  -- No element is above what was chosen, or above zero where nothing was.
  abbrev pub not_above : Option A → A → Bool
  not_above none a = leb_ℤ (value a) (pos 0)
  not_above (some b) a = leb_ℤ (value a) (value b)

  not_above-better :
      (a c : A) (best : Option A)
      → not_above best c ≡ true
      → not_above (if beats value a best then some a else best) c ≡ true
  not_above-better a c none h = ground arith
  not_above-better a c (some b) h = ground arith

  best_of-not_above_kept :
      (xs : List A) (c : A) (best : Option A)
      → not_above best c ≡ true
      → not_above (best_of value xs best) c ≡ true
  best_of-not_above_kept [] c best h = h
  best_of-not_above_kept (a ∷ xs) c best h =
      best_of-not_above_kept xs c _ (not_above-better a c best h)

  abbrev pub is_good : Option A → Bool
  is_good none = true
  is_good (some b) = is_positive (value b)

  better-not_above :
      (a : A) (best : Option A)
      → is_good best ≡ true
      → (not_above (if beats value a best then some a else best) a ≡ true)
        × (is_good (if beats value a best then some a else best) ≡ true)
  better-not_above a none g = ground arith
  better-not_above a (some b) g = ground arith

  best_of-not_above :
      (xs : List A) (best : Option A)
      → is_good best ≡ true
      → all_of (not_above (best_of value xs best)) xs ≡ true
  best_of-not_above [] best g = refl
  best_of-not_above (a ∷ xs) best g =
      let better : Option A = if beats value a best then some a else best in
      let (above, good) = better-not_above a best g in
      ground (arith, best_of-not_above xs better good, best_of-not_above_kept xs a better above)

  -- The value of the best one so far is that of one before the list or in it.
  abbrev pub same_value : A → A → Bool
  same_value b a = leb_ℤ (value a) (value b) && leb_ℤ (value b) (value a)

  abbrev pub found_in : Option A → List A → Bool
  found_in none xs = true
  found_in (some b) xs = any_of (same_value b) xs

  abbrev is_kept : Option A → Option A → Bool
  is_kept best none = false
  is_kept none (some r) = false
  is_kept (some b) (some r) = same_value r b

  found-step :
      (a : A) (xs : List A) (best r : Option A)
      → (found_in r xs || is_kept (if beats value a best then some a else best) r) ≡ true
      → (found_in r (a ∷ xs) || is_kept best r) ≡ true
  found-step a xs best none h = refl
  found-step a xs best (some b) h = elim (Bool-cases (beats value a best)) [
    | inl e ↦ let h' = rw e at h in ground arith
    | inr e ↦ let h' = rw e at h in ground arith
  ]

  best_of-found :
      (xs : List A) (best : Option A)
      → (found_in (best_of value xs best) xs || is_kept best (best_of value xs best)) ≡ true
  best_of-found [] none = refl
  best_of-found [] (some b) = ground arith
  best_of-found (a ∷ xs) best =
      let better : Option A = if beats value a best then some a else best in
      found-step a xs best (best_of value xs better) (best_of-found xs better)

  best_of-is_good :
      (xs : List A) (best : Option A) → is_good best ≡ true → is_good (best_of value xs best) ≡ true
  best_of-is_good [] best g = g
  best_of-is_good (a ∷ xs) best g =
      best_of-is_good xs (if beats value a best then some a else best) (better-not_above a best g).1

  -- The choice is the greatest value above zero, and nothing where no value is above zero.
  abbrev pub IsBest : Option A → List A → Type 0
  IsBest best xs =
      (all_of (not_above best) xs ≡ true) × (is_good best ≡ true) × (found_in best xs ≡ true)

  pub best_of-IsBest : (xs : List A) → IsBest (best_of value xs none) xs
  best_of-IsBest xs = (
    best_of-not_above xs none refl,
    best_of-is_good xs none refl,
    not_kept (best_of value xs none) (best_of-found xs none),
  )
    where
      not_kept : (r : Option A) → (found_in r xs || is_kept none r) ≡ true → found_in r xs ≡ true
      not_kept none h = refl
      not_kept (some b) h = ground arith

count_positive-length :
    (ps : List SeriesPoint) (n : ℕ)
    → count_positive ps n ≡ n + length (filter_by (λ p. is_positive p.revenue_delta) ps)
count_positive-length [] n = omega arith
count_positive-length (p ∷ ps) n =
    ground (arith, count_positive-length ps (if is_positive p.revenue_delta then suc n else n))

-- The best day of the headline is a day whose amount is above zero and not below any other day's,
-- and there is none exactly if no day is above zero; the top product is so among the rows of the
-- breakdown. The positive days are as many as the days above zero.
pub insight-IsBest :
    (series : List SeriesPoint) (net : ℤ) (breakdown : List SkuBreakdown) (days : ℕ)
    → let i = attribution_insight series net breakdown days in
      IsBest (λ p. p.revenue_delta) i.best_day series
      × IsBest (λ r. r.net) i.top_product breakdown
      × (i.positive_days ≡ length (filter_by (λ p. is_positive p.revenue_delta) series))
unfolding attribution_insight
insight-IsBest series net breakdown days = (
  best_of-IsBest (λ p. p.revenue_delta) series,
  best_of-IsBest (λ r. r.net) breakdown,
  count_positive-length series 0 ∙ omega arith,
)
