-- ===== src/Schedule/Intervals.antt =====
-- plans.ts and backoff.ts: the scrape intervals and the retry delays.
use new_specter.Schedule.Plans.{
  Plan, recon, cipher, phantom, predator, eclipse, plan_priority, plan_max_interval, plan_floor,
  plan_cap, compute_adaptive_interval, retry_backoff_delay,
}
use new_specter.Common.{ℕ, ◌≤◌, ◌<◌, ◌≡◌, Option, none, some, arith, or_else}

plan_floor_pos : (plan : Option Plan) (ms : ℕ) → 0 < ms → 0 < plan_floor plan ms
unfolding plan_floor
plan_floor_pos (some eclipse) ms h = h
plan_floor_pos (some recon) ms h = omega arith
plan_floor_pos (some cipher) ms h = omega arith
plan_floor_pos (some phantom) ms h = omega arith
plan_floor_pos (some predator) ms h = omega arith
plan_floor_pos none ms h = omega arith

plan_floor-le-plan_cap : (plan : Option Plan) (ms : ℕ) → plan_floor plan ms ≤ plan_cap plan ms
unfolding plan_cap
plan_floor-le-plan_cap plan ms = omega arith

-- With a positive ECLIPSE interval there is an interval for every plan and streak, and it is never
-- below the cadence that the plan pays for nor above the plan's ceiling.
pub interval_within :
    (plan : Option Plan) (streak ms : ℕ)
    → 0 < ms
    → (i : ℕ) × (compute_adaptive_interval plan streak ms ≡ some i)
      × (plan_floor plan ms ≤ i)
      × (i ≤ plan_cap plan ms)
unfolding compute_adaptive_interval
interval_within plan streak ms h =
    let floor = plan_floor_pos plan ms h in
    let cap = plan_floor-le-plan_cap plan ms in
    (or_else (compute_adaptive_interval plan streak ms) 0, ground arith, ground arith, ground arith)

-- A longer unchanged streak never shortens the interval.
pub interval_mono :
    (plan : Option Plan) (s t ms i j : ℕ)
    → s ≤ t
    → compute_adaptive_interval plan s ms ≡ some i
    → compute_adaptive_interval plan t ms ≡ some j
    → i ≤ j
unfolding compute_adaptive_interval
interval_mono plan s t ms i j le p q = ground (arith, plan_floor-le-plan_cap plan ms)

tables_by_priority :
    (p q : Plan)
    → plan_priority p ≤ plan_priority q
    → (plan_floor (some q) 300_000 ≤ plan_floor (some p) 300_000)
      × (plan_cap (some q) 300_000 ≤ plan_cap (some p) 300_000)
unfolding plan_priority plan_floor plan_cap plan_max_interval
tables_by_priority recon recon h = omega arith
tables_by_priority recon q h = ground arith
tables_by_priority cipher q h = ground arith
tables_by_priority phantom q h = ground arith
tables_by_priority predator q h = ground arith
tables_by_priority eclipse q h = ground arith

-- At the default ECLIPSE interval a plan of higher priority is scraped at least as often, at every
-- streak.
pub interval_by_priority :
    (p q : Plan) (streak i j : ℕ)
    → plan_priority p ≤ plan_priority q
    → compute_adaptive_interval (some p) streak 300_000 ≡ some i
    → compute_adaptive_interval (some q) streak 300_000 ≡ some j
    → j ≤ i
unfolding compute_adaptive_interval
interval_by_priority p q streak i j h e f =
    ground (arith, tables_by_priority p q h, plan_floor-le-plan_cap (some p) 300_000)

-- The delays before a retry grow with the attempts, from one minute to thirty.
pub retry_backoff_delay_mono :
    (a b : ℕ)
    → a ≤ b
    → (60_000 ≤ retry_backoff_delay a)
      × (retry_backoff_delay a ≤ retry_backoff_delay b)
      × (retry_backoff_delay b ≤ 1_800_000)
unfolding retry_backoff_delay
retry_backoff_delay_mono a b h = ground arith
