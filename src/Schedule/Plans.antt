-- ===== src/Schedule/Plans.antt =====
-- types.ts, lines 1-18, plans.ts and backoff.ts. A plan's name is read as `toUpperCase` and the
-- tables do: `none` is a name that no table has. Times are whole milliseconds.
use new_specter.Common.{
  ℕ, ◌-◌, ◌*◌, min, max, Option, none, some, List, [], ◌∷◌, leb, ◌==◌, if◌then◌else◌, or_else,
  length, get_or,
}

pub data Plan : Type 0 where
  recon cipher phantom predator eclipse : Plan

unfoldable pub plan_priority : Plan → ℕ
plan_priority eclipse = 20
plan_priority predator = 10
plan_priority phantom = 5
plan_priority cipher = 3
plan_priority recon = 1

-- `PLAN_PRIORITY[planKey] ?? PLAN_PRIORITY.RECON`.
unfoldable pub priority_of : Option Plan → ℕ
unfolding plan_priority
priority_of (some p) = plan_priority p
priority_of none = plan_priority recon

unfoldable pub plan_interval : Plan → ℕ
plan_interval recon = 21_600_000
plan_interval cipher = 10_800_000
plan_interval phantom = 7_200_000
plan_interval predator = 3_600_000
plan_interval eclipse = 300_000

unfoldable pub plan_max_interval : Plan → ℕ
plan_max_interval recon = 86_400_000
plan_max_interval cipher = 43_200_000
plan_max_interval phantom = 28_800_000
plan_max_interval predator = 14_400_000
plan_max_interval eclipse = 3_600_000

-- `none` is `+Infinity`.
unfoldable pub adaptive_interval_multiplier : ℕ → Option ℕ
adaptive_interval_multiplier streak =
    if leb 9 streak
    then none
    else if leb 6 streak
    then some 4
    else if leb 3 streak
    then some 2
    else some 1

unfoldable pub plan_floor : Option Plan → ℕ → ℕ
unfolding plan_interval
plan_floor (some eclipse) eclipse_ms = eclipse_ms
plan_floor (some p) eclipse_ms = plan_interval p
plan_floor none eclipse_ms = plan_interval recon

unfoldable pub plan_cap : Option Plan → ℕ → ℕ
plan_cap plan eclipse_ms = max (plan_max_interval (or_else plan recon)) (plan_floor plan eclipse_ms)

-- `none` is `NaN`, which `0 * Infinity` gives.
unfoldable pub compute_adaptive_interval : Option Plan → ℕ → ℕ → Option ℕ
unfolding adaptive_interval_multiplier
compute_adaptive_interval plan streak eclipse_ms =
    let floor = plan_floor plan eclipse_ms in
    let cap = plan_cap plan eclipse_ms in
    elim (adaptive_interval_multiplier streak) [
      | some k ↦ some (min (floor * k) cap)
      | none ↦ if floor == 0 then none else some cap
    ]

-- backoff.ts.
abbrev pub retry_backoff_ladder_ms : List ℕ
retry_backoff_ladder_ms = 60_000 ∷ 300_000 ∷ 1_800_000 ∷ []

unfoldable pub retry_backoff_delay : ℕ → ℕ
retry_backoff_delay attempts_made =
    get_or retry_backoff_ladder_ms
      (min (max attempts_made 1 - 1) (length retry_backoff_ladder_ms - 1)) 0
