-- ===== src/Scrape.antt =====
-- specter-api/scraper/workers and domains: what becomes of a page that was fetched.
pub mod Validate
pub mod Failures
pub mod Http
pub mod Platform
pub mod Probe
pub mod Captcha
pub mod Playwright
pub mod Robots
pub mod DeadLetter
pub mod Domains
mod Tests
