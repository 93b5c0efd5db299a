-- ===== src/Web/Reprice/Lists.antt =====
-- dashboard/reprice-filter.ts and guardrail-coverage.ts: the lists and the counters of the page.
use new_specter.Web.Reprice.{
  RepriceSku, is_complete, guardrail_status, needs_attention, CoverageSummary, tick, coverage_loop,
  coverage_summary, all, needs_attention_only, needs_guardrails, auto_on_only, would_clamp,
  filter_reprice_skus, attention_first, sort_reprice_skus,
}
use new_specter.Common.{
  ◌+◌, ◌≤◌, ◌≡◌, not, List, [], ◌∷◌, ◌++◌, arith, length, filter_by, sort_by-eq-filter_by,
}

coverage_loop-counts :
    (skus : List RepriceSku) (c : CoverageSummary)
    → let r = coverage_loop skus c in
      (r.total ≡ c.total)
      × (r.with_guardrails
          ≡ c.with_guardrails + length (filter_by (λ s. is_complete (guardrail_status s)) skus))
      × (r.auto_on ≡ c.auto_on + length (filter_by (λ s. s.auto_reprice_enabled) skus))
      × (r.attention ≡ c.attention + length (filter_by needs_attention skus))
unfolding coverage_loop
coverage_loop-counts [] c = omega arith
coverage_loop-counts (sku ∷ skus) c = ground (
  arith,
  coverage_loop-counts skus record {
    total = c.total;
    with_guardrails = tick (is_complete (guardrail_status sku)) c.with_guardrails;
    auto_on = tick sku.auto_reprice_enabled c.auto_on;
    attention = tick (needs_attention sku) c.attention;
  },
)

filters_overlap :
    (skus : List RepriceSku)
    → (length (filter_reprice_skus skus would_clamp)
        ≤ length (filter_reprice_skus skus needs_guardrails))
      × (length skus
          ≤ length (filter_by (λ s. is_complete (guardrail_status s)) skus)
            + length (filter_reprice_skus skus needs_guardrails))
unfolding filter_reprice_skus
filters_overlap [] = omega arith
filters_overlap (sku ∷ skus) = ground (arith, filters_overlap skus)

-- The page's counters are the lengths of its lists: all SKUs, those with both guardrails, those
-- that the filter `auto-on` shows and those that `needs-attention` shows. What `would-clamp` shows
-- is among what `needs-guardrails` shows, and of the SKUs that this hides both guardrails are set.
pub coverage-filters :
    (skus : List RepriceSku)
    → let c = coverage_summary skus in
      (c.total ≡ length (filter_reprice_skus skus all))
      × (c.with_guardrails ≡ length (filter_by (λ s. is_complete (guardrail_status s)) skus))
      × (c.auto_on ≡ length (filter_reprice_skus skus auto_on_only))
      × (c.attention ≡ length (filter_reprice_skus skus needs_attention_only))
      × (length (filter_reprice_skus skus would_clamp)
          ≤ length (filter_reprice_skus skus needs_guardrails))
      × (c.total ≤ c.with_guardrails + length (filter_reprice_skus skus needs_guardrails))
unfolding coverage_summary filter_reprice_skus
coverage-filters skus = ground (
  arith,
  coverage_loop-counts skus
      record { total = length skus; with_guardrails = 0; auto_on = 0; attention = 0 },
  filters_overlap skus,
)

-- Sorting by attention gives the SKUs that need it and then the others, both in the order they had;
-- the first group is what the filter `needs-attention` shows.
pub attention_sorted :
    (skus : List RepriceSku)
    → sort_reprice_skus skus attention_first
      ≡ filter_reprice_skus skus needs_attention_only
        ++ filter_by (λ s. not (needs_attention s)) skus
unfolding sort_reprice_skus filter_reprice_skus
attention_sorted skus = sort_by-eq-filter_by needs_attention skus
