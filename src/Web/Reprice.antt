-- ===== src/Web/Reprice.antt =====
-- The repricing page of the dashboard: dashboard/reprice-preview.ts, guardrail-coverage.ts,
-- bounds-validation.ts, price-delta.ts and reprice-filter.ts.
--
-- A price is a natural number of some smallest unit. What `Number` reads in the text of an input is
-- an `InputReading`. The search by title is left out.
pub mod Bounds
pub mod Lists
use new_specter.Common.{
  ℕ, zero, suc, ◌+◌, ◌-◌, ◌*◌, ◌/◌, ◌%◌, ◌^◌, ◌≤◌, ◌<◌, min, max, String, ◌≡◌, refl, sym, ap, subst,
  ◌∙◌, fun_ext, ◌≢◌, ◌↔◌, ◌⊎◌, inl, inr, Bool, true, false, not, ◌&&◌, ◌||◌, Option, none, some,
  List, [], ◌∷◌, ◌++◌, map, arith, ℕ_discrete, ltb, leb, ◌==◌, if◌then◌else◌, ltb→lt, lt→ltb,
  leb→le, le→leb, ==_iff, Bool-cases, Option-cases, is_some, or_else, ◌>>=◌, length, get_or, any_of,
  all_of, filter_by, length-append, any_of-append, get_or-any_of, any_of-false, all_of-get_or,
  all_of-filter_by, length-filter_by-le, sort_by, is_sorted_by, sort_by-Perm, sort_by-all_of,
  sort_by-stable, sort_by-is_sorted_by, str_eq, str_eq_iff, str_eq_refl, str_eq_ne, includes,
  includes-any_of, codes, contains, matches_ci,
}

pub data SignalType : Type 0 where
  raise lower hold : SignalType

pub record LatestSuggestion : Type 0 where
  pub type : SignalType
  pub price_suggestion : Option ℕ

pub record RepriceSku : Type 0 where
  pub id : String
  pub title : String
  pub current_price : Option ℕ
  pub floor_price : Option ℕ
  pub ceiling_price : Option ℕ
  pub auto_reprice_enabled : Bool
  pub latest_suggestion : Option LatestSuggestion

pub data RepriceState : Type 0 where
  no_action no_guardrails within floor_clamped ceiling_clamped : RepriceState

pub record RepricePreview : Type 0 where
  pub state : RepriceState
  pub effective_price : Option ℕ

abbrev pub below : ℕ → Option ℕ → Bool
below p none = false
below p (some f) = ltb p f

abbrev pub above : ℕ → Option ℕ → Bool
above p none = false
above p (some c) = ltb c p

-- A suggestion of the price `p` against the guardrails.
unfoldable pub clamped : ℕ → Option ℕ → Option ℕ → RepricePreview
clamped p f c =
    if not (is_some f) && not (is_some c)
    then record { state = no_guardrails; effective_price = some p }
    else if below p f
    then record { state = floor_clamped; effective_price = f }
    else if above p c
    then record { state = ceiling_clamped; effective_price = c }
    else record { state = within; effective_price = some p }

abbrev pub nothing_to_do : RepricePreview
nothing_to_do = record { state = no_action; effective_price = none }

unfoldable pub preview_of : SignalType → Option ℕ → Option ℕ → Option ℕ → RepricePreview
preview_of hold p f c = nothing_to_do
preview_of raise none f c = nothing_to_do
preview_of lower none f c = nothing_to_do
preview_of raise (some p) f c = clamped p f c
preview_of lower (some p) f c = clamped p f c

unfoldable pub reprice_preview : RepriceSku → RepricePreview
reprice_preview sku = elim sku.latest_suggestion [
  | none ↦ nothing_to_do
  | some s ↦ preview_of s.type s.price_suggestion sku.floor_price sku.ceiling_price
]

pub data GuardrailStatus : Type 0 where
  complete partial missing : GuardrailStatus

unfoldable pub guardrail_status : RepriceSku → GuardrailStatus
guardrail_status sku =
    let has_floor = is_some sku.floor_price in
    let has_ceiling = is_some sku.ceiling_price in
    if has_floor && has_ceiling
    then complete
    else if has_floor || has_ceiling
    then partial
    else missing

abbrev pub is_complete : GuardrailStatus → Bool
is_complete complete = true
is_complete _ = false

abbrev pub is_move : SignalType → Bool
is_move hold = false
is_move _ = true

unfoldable pub is_actionable : RepriceSku → Bool
is_actionable sku = elim sku.latest_suggestion [
  | none ↦ false
  | some s ↦ is_move s.type && is_some s.price_suggestion
]

unfoldable pub needs_attention : RepriceSku → Bool
needs_attention sku =
    if not (is_actionable sku)
    then false
    else not (is_complete (guardrail_status sku)) || not sku.auto_reprice_enabled

pub record CoverageSummary : Type 0 where
  pub total : ℕ
  pub with_guardrails : ℕ
  pub auto_on : ℕ
  pub attention : ℕ

abbrev pub tick : Bool → ℕ → ℕ
tick b n = if b then suc n else n

-- The loop from the counters that it has reached.
unfoldable pub coverage_loop : List RepriceSku → CoverageSummary → CoverageSummary
coverage_loop [] c = c
coverage_loop (sku ∷ skus) c = coverage_loop skus record {
  total = c.total;
  with_guardrails = tick (is_complete (guardrail_status sku)) c.with_guardrails;
  auto_on = tick sku.auto_reprice_enabled c.auto_on;
  attention = tick (needs_attention sku) c.attention;
}

unfoldable pub coverage_summary : List RepriceSku → CoverageSummary
coverage_summary skus =
    coverage_loop skus
      record { total = length skus; with_guardrails = 0; auto_on = 0; attention = 0 }

-- What `Number` makes of the text of an input; a text of white space is unset.
pub data InputReading : Type 0 where
  unset not_a_number negative : InputReading
  amount : ℕ → InputReading

pub data BoundsProblem : Type 0 where
  not_a_price floor_over_ceiling : BoundsProblem

abbrev pub is_bad : InputReading → Bool
is_bad not_a_number = true
is_bad negative = true
is_bad _ = false

abbrev pub exceeds : InputReading → InputReading → Bool
exceeds (amount f) (amount c) = ltb c f
exceeds _ _ = false

unfoldable pub validate_bounds : InputReading → InputReading → Option BoundsProblem
validate_bounds floor ceiling =
    if is_bad floor
    then some not_a_price
    else if is_bad ceiling
    then some not_a_price
    else if exceeds floor ceiling
    then some floor_over_ceiling
    else none

pub data RepriceFilter : Type 0 where
  all needs_attention_only needs_guardrails auto_on_only would_clamp : RepriceFilter

abbrev pub is_clamped : RepriceState → Bool
is_clamped floor_clamped = true
is_clamped ceiling_clamped = true
is_clamped _ = false

abbrev pub would_be_clamped : RepriceSku → Bool
would_be_clamped sku = is_clamped (reprice_preview sku).state

unfoldable pub filter_reprice_skus : List RepriceSku → RepriceFilter → List RepriceSku
filter_reprice_skus skus needs_attention_only = filter_by needs_attention skus
filter_reprice_skus skus needs_guardrails =
    filter_by (λ s. not (is_complete (guardrail_status s)) || would_be_clamped s) skus
filter_reprice_skus skus auto_on_only = filter_by (λ s. s.auto_reprice_enabled) skus
filter_reprice_skus skus would_clamp = filter_by would_be_clamped skus
filter_reprice_skus skus all = skus

pub data RepriceSort : Type 0 where
  default attention_first by_impact : RepriceSort

-- A percentage as the fraction `magnitude / over`, with its sign.
pub record Delta : Type 0 where
  pub negative : Bool
  pub magnitude : ℕ
  pub over : ℕ

unfoldable pub delta_of : ℕ → ℕ → Option Delta
delta_of zero suggestion = none
delta_of (suc c) suggestion = some record {
  negative = ltb suggestion (suc c);
  magnitude = ((suggestion - suc c) + (suc c - suggestion)) * 100;
  over = suc c;
}

-- Null without a current price above zero or without a suggestion.
unfoldable pub price_delta_pct : Option ℕ → Option ℕ → Option Delta
price_delta_pct current suggestion = do c ← current; s ← suggestion; delta_of c s

unfoldable pub impact_magnitude : RepriceSku → Option Delta
impact_magnitude sku = price_delta_pct sku.current_price (reprice_preview sku).effective_price

-- `Number(needsAttention(b)) - Number(needsAttention(a)) <= 0`
abbrev pub attention_before : RepriceSku → RepriceSku → Bool
attention_before a b = needs_attention a || not (needs_attention b)

-- The comparison of two magnitudes, nulls last.
abbrev pub delta_before : Option Delta → Option Delta → Bool
delta_before none none = true
delta_before none (some b) = false
delta_before (some a) none = true
delta_before (some a) (some b) = leb (b.magnitude * a.over) (a.magnitude * b.over)

abbrev pub impact_before : RepriceSku → RepriceSku → Bool
impact_before a b = delta_before (impact_magnitude a) (impact_magnitude b)

unfoldable pub sort_reprice_skus : List RepriceSku → RepriceSort → List RepriceSku
sort_reprice_skus skus default = skus
sort_reprice_skus skus attention_first = sort_by attention_before skus
sort_reprice_skus skus by_impact = sort_by impact_before skus
