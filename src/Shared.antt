-- ===== src/Shared.antt =====
-- The package packages/shared, which the services and the web application use.
pub mod Letters
pub mod Tables
pub mod Ltree
pub mod Units
pub mod Dates
pub mod Periods
mod Tests
