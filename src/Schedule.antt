-- ===== src/Schedule.antt =====
-- specter-api/scraper: plans.ts, state-ttl.ts, dispatch-lock.ts, batch-set.ts, scheduler.ts.
pub mod Plans
pub mod Intervals
pub mod Streak
pub mod Observations
pub mod Dispatch
pub mod Repeats
mod Tests
