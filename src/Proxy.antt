-- ===== src/Proxy.antt =====
-- specter-api/scraper/proxy: rotation over two tiers of proxies with shared health.
pub mod Health
pub mod Rotation
pub mod SharedHealth
pub mod Manager
pub mod Config
mod Tests
