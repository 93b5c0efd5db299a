-- ===== src/Rate.antt =====
-- specter-api/scraper/workers/rate-limiter.ts: what keeps the scraper polite towards a domain.
pub mod Bucket
pub mod Admission
pub mod Spacing
pub mod Slots
mod Tests
