-- ===== src/Positions.antt =====
-- packages/position: the position manager.
pub mod Trailing
pub mod Protection
pub mod Managed
pub mod Runner
pub mod Scout
pub mod Scenario
pub mod Stagnation
pub mod Evaluate
