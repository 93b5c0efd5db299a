-- ===== src/Web/Attribution.antt =====
-- The attribution page of the dashboard: dashboard/attribution-breakdown.ts,
-- attribution-insight.ts and change-log-summary.ts.
--
-- Amounts are whole cents, so `round2` leaves them as they are. A time that does not parse is
-- `none`. `title_before` is `a.localeCompare(b) <= 0`. The best day and the top product keep their
-- whole rows.
pub mod Totals
pub mod Log
pub mod Rankings
use new_specter.Common.{
  ℕ, zero, suc, ◌+◌, ◌-◌, ◌*◌, ◌/◌, ◌%◌, ◌^◌, ◌≤◌, ◌<◌, min, max, String, ◌≡◌, refl, sym, ap, subst,
  ◌∙◌, fun_ext, ◌≢◌, ◌↔◌, ◌⊎◌, inl, inr, Bool, true, false, not, ◌&&◌, ◌||◌, Option, none, some,
  List, [], ◌∷◌, ◌++◌, map, arith, ℕ_discrete, ltb, leb, ◌==◌, if◌then◌else◌, ltb→lt, lt→ltb,
  leb→le, le→leb, ==_iff, Bool-cases, Option-cases, is_some, or_else, ◌>>=◌, length, get_or, any_of,
  all_of, filter_by, length-append, any_of-append, get_or-any_of, any_of-false, all_of-get_or,
  all_of-filter_by, length-filter_by-le, sort_by, is_sorted_by, sort_by-Perm, sort_by-all_of,
  sort_by-stable, sort_by-is_sorted_by, sort_by-eq-filter_by, ℤ, pos, negsuc, credit, debit,
  difference, ◌+ℤ◌, leb_ℤ, +ℤ_lem, ℤ_ext, integers, str_eq, str_eq_iff, str_eq_refl, str_eq_ne,
  includes, includes-any_of, codes, contains, matches_ci,
}

pub record PriceChange : Type 0 where
  pub sku_id : String
  pub sku_title : String
  pub source : String
  pub revenue_delta : Option ℤ
  pub created_at : Option ℕ

pub record SkuBreakdown : Type 0 where
  pub sku_id : String
  pub sku_title : String
  pub recovered : ℤ
  pub lost : ℤ
  pub net : ℤ
  pub count : ℕ

abbrev pub day_ms : ℕ
day_ms = 86400000

abbrev pub is_since : ℕ → ℕ → Option ℕ → Bool
is_since days now none = false
is_since days now (some t) = leb now (t + days * day_ms)

unfoldable pub attribution_accounted_changes : List PriceChange → ℕ → ℕ → List PriceChange
attribution_accounted_changes changes days now =
    filter_by
      (λ c. str_eq c.source "auto" && is_some c.revenue_delta && is_since days now c.created_at)
      changes

abbrev pub delta : PriceChange → ℤ
delta c = or_else c.revenue_delta (pos 0)

abbrev pub is_gain : ℤ → Bool
is_gain d = leb_ℤ (pos 0) d

abbrev pub new_row : PriceChange → SkuBreakdown
new_row c = record {
  sku_id = c.sku_id;
  sku_title = c.sku_title;
  recovered = pos 0;
  lost = pos 0;
  net = pos 0;
  count = 0;
}

-- The row after a change of `d`.
unfoldable pub credited : SkuBreakdown → ℤ → SkuBreakdown
credited r d = record {
  sku_id = r.sku_id;
  sku_title = r.sku_title;
  recovered = if is_gain d then r.recovered +ℤ d else r.recovered;
  lost = if is_gain d then r.lost else r.lost +ℤ d;
  net = r.net +ℤ d;
  count = suc r.count;
}

-- One round of the loop on the rows of the map, in the order of their insertion.
unfoldable pub account : List SkuBreakdown → PriceChange → List SkuBreakdown
account [] c = credited (new_row c) (delta c) ∷ []
account (r ∷ rows) c =
    if str_eq r.sku_id c.sku_id then credited r (delta c) ∷ rows else r ∷ account rows c

abbrev pub account_all : List SkuBreakdown → List PriceChange → List SkuBreakdown
account_all rows [] = rows
account_all rows (c ∷ cs) = account_all (account rows c) cs

abbrev pub sku_breakdown : List PriceChange → List SkuBreakdown
sku_breakdown accounted = account_all [] accounted

abbrev pub total_change_count : List SkuBreakdown → ℕ
total_change_count [] = 0
total_change_count (r ∷ rows) = r.count + total_change_count rows

pub record ChangeLogSummary : Type 0 where
  pub count : ℕ
  pub net_revenue_delta : Option ℤ

-- The loop from the sum and the flag that it has reached.
unfoldable pub summary_loop : List PriceChange → ℤ → Bool → Option ℤ
summary_loop [] sum any = if any then some sum else none
summary_loop (c ∷ cs) sum any = elim c.revenue_delta [
  | none ↦ summary_loop cs sum any
  | some d ↦ summary_loop cs (sum +ℤ d) true
]

unfoldable pub change_log_summary : List PriceChange → ChangeLogSummary
change_log_summary changes = record {
  count = length changes;
  net_revenue_delta = summary_loop changes (pos 0) false;
}

pub data BreakdownSort : Type 0 where
  by_net by_recovered by_lost by_count : BreakdownSort

-- `y - x || rest`, where it is not above zero.
abbrev pub descending : ℤ → ℤ → Bool → Bool
descending x y rest = if leb_ℤ x y then (if leb_ℤ y x then rest else false) else true

module _ (title_before : String → String → Bool) where
  abbrev pub by_title : SkuBreakdown → SkuBreakdown → Bool
  by_title a b = title_before a.sku_title b.sku_title

  unfoldable pub row_before : BreakdownSort → SkuBreakdown → SkuBreakdown → Bool
  row_before by_recovered a b =
      descending a.recovered b.recovered (descending a.net b.net (by_title a b))
  row_before by_lost a b = descending b.lost a.lost (descending b.net a.net (by_title a b))
  row_before by_count a b =
      descending (pos a.count) (pos b.count) (descending a.net b.net (by_title a b))
  row_before by_net a b = descending a.net b.net (descending a.recovered b.recovered (by_title a b))

  abbrev pub sort_sku_breakdown : List SkuBreakdown → BreakdownSort → List SkuBreakdown
  sort_sku_breakdown rows mode = sort_by (row_before mode) rows

pub record SeriesPoint : Type 0 where
  pub date : String
  pub revenue_delta : ℤ

abbrev pub is_positive : ℤ → Bool
is_positive d = not (leb_ℤ d (pos 0))

-- A candidate against the best one so far.
abbrev pub beats {ℓ} : {A : Type ℓ} → (A → ℤ) → A → Option A → Bool
beats value a none = is_positive (value a)
beats value a (some b) = is_positive (value a) && not (leb_ℤ (value a) (value b))

abbrev pub best_of {ℓ} : {A : Type ℓ} → (A → ℤ) → List A → Option A → Option A
best_of value [] best = best
best_of value (a ∷ rest) best = best_of value rest (if beats value a best then some a else best)

abbrev pub count_positive : List SeriesPoint → ℕ → ℕ
count_positive [] n = n
count_positive (p ∷ ps) n = count_positive ps (if is_positive p.revenue_delta then suc n else n)

pub record AttributionInsight : Type 0 where
  pub net : ℤ
  pub days : ℕ
  pub best_day : Option SeriesPoint
  pub positive_days : ℕ
  pub total_days : ℕ
  pub top_product : Option SkuBreakdown

unfoldable pub attribution_insight :
    List SeriesPoint → ℤ → List SkuBreakdown → ℕ → AttributionInsight
attribution_insight series net breakdown days = record {
  net = net;
  days = days;
  best_day = best_of (λ p. p.revenue_delta) series none;
  positive_days = count_positive series 0;
  total_days = length series;
  top_product = best_of (λ r. r.net) breakdown none;
}
