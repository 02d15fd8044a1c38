-- ===== src/Guards.antt =====
-- packages/guards: what must hold before an order is placed, and what halts new entries.
pub mod KillSwitch
pub mod ClockSync
pub mod DataQuality
pub mod Funding
pub mod PreOrder
pub mod Backoff
mod Tests
