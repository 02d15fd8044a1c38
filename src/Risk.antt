-- ===== src/Risk.antt =====
-- packages/risk: levels, leverage, sizing, and the manager that approves every order.
pub mod Levels
pub mod Leverage
pub mod Result
pub mod Sizing
pub mod Stops
pub mod Manager
mod Tests
