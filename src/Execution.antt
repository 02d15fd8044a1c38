-- ===== src/Execution.antt =====
-- packages/execution: the policy of order types, and the order manager over a session with the
-- exchange.
pub mod Policy
pub mod Resolving
pub mod Placing
pub mod Orders
mod Kept
mod Steps
pub mod Safety
mod Tests
