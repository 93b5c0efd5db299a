-- ===== src/Web.antt =====
-- The pure logic of specter-web/lib: the tools' shared links and saved scenarios, the dashboard,
-- the purchase that a visitor chose, the API client and the shipping calculator.
pub mod Attribution
pub mod Api
pub mod Billing
pub mod Domains
pub mod Migration
pub mod Reprice
pub mod Scenarios
pub mod Share
pub mod Shipping
pub mod Storage
mod Tests
