-- ===== src/Web/Attribution/Log.antt =====
-- dashboard/change-log-summary.ts: the summary of the log and the breakdown.
use new_specter.Web.Attribution.Totals.{net_of, delta_sum, breakdown_exact}
use new_specter.Web.Attribution.{
  PriceChange, attribution_accounted_changes, sku_breakdown, total_change_count, summary_loop,
  change_log_summary,
}
use new_specter.Common.{
  ℕ, ◌≡◌, refl, sym, ap, ◌∙◌, inl, inr, Bool, true, false, Option, none, some, List, [], ◌∷◌, arith,
  Option-cases, is_some, all_of, ℤ, pos, ◌+ℤ◌, integers,
}

abbrev all_known : List PriceChange → Bool
all_known = all_of (λ c. is_some c.revenue_delta)

accounted-all_known :
    (changes : List PriceChange) (days now : ℕ)
    → all_known (attribution_accounted_changes changes days now) ≡ true
unfolding attribution_accounted_changes
accounted-all_known [] days now = refl
accounted-all_known (c ∷ cs) days now = ground (arith, accounted-all_known cs days now)

summary_loop-delta_sum :
    (cs : List PriceChange) (sum : ℤ)
    → all_known cs ≡ true
    → summary_loop cs sum true ≡ some (sum +ℤ delta_sum cs)
unfolding summary_loop
summary_loop-delta_sum [] sum h = ap some (omega integers)
summary_loop-delta_sum (c ∷ cs) sum h = elim (Option-cases c.revenue_delta) [
  | inl e ↦ cc (rw e at h)
  | inr (d, e) ↦
      rw (e, summary_loop)
        (summary_loop-delta_sum cs (sum +ℤ d) (rw e at h) ∙ ap some (omega integers))
]

summary_loop-first :
    (c : PriceChange) (cs : List PriceChange)
    → all_known (c ∷ cs) ≡ true
    → summary_loop (c ∷ cs) (pos 0) false ≡ some (delta_sum (c ∷ cs))
unfolding summary_loop
summary_loop-first c cs h = elim (Option-cases c.revenue_delta) [
  | inl e ↦ cc (rw e at h)
  | inr (d, e) ↦
      rw (e, summary_loop)
        (summary_loop-delta_sum cs (pos 0 +ℤ d) (rw e at h) ∙ ap some (omega integers))
]

-- Of no change there is no net.
abbrev pub net_or_null : List PriceChange → Option ℤ
net_or_null [] = none
net_or_null (c ∷ cs) = some (net_of (sku_breakdown (c ∷ cs)))

summary_loop-start :
    (cs : List PriceChange) → all_known cs ≡ true → summary_loop cs (pos 0) false ≡ net_or_null cs
unfolding summary_loop
summary_loop-start [] h = refl
summary_loop-start (c ∷ cs) h =
    let (balanced, each, nets, net, count) = breakdown_exact (c ∷ cs) c.sku_id in
    summary_loop-first c cs h ∙ ap some (sym net)

-- Of the changes that are accounted for, the summary of the log and the breakdown agree: the counts
-- of the rows add up to the summary's count, and the nets of the rows to its net, which is null
-- exactly if there are no such changes.
pub log_agrees :
    (changes : List PriceChange) (days now : ℕ)
    → let accounted = attribution_accounted_changes changes days now in
      let log = change_log_summary accounted in
      (log.count ≡ total_change_count (sku_breakdown accounted))
      × (log.net_revenue_delta ≡ net_or_null accounted)
unfolding change_log_summary
log_agrees changes days now =
    let accounted : List PriceChange = attribution_accounted_changes changes days now in
    let (balanced, each, nets, net, count) = breakdown_exact accounted "" in
    (sym count, summary_loop-start accounted (accounted-all_known changes days now))
