-- ===== src/Ops.antt =====
-- specter-api/scraper: the guard of the dashboard for operations.
pub mod BasicAuth
mod Tests
