-- ===== src/Messaging.antt =====
-- packages/messaging: the lock that lets one bot run.
pub mod Lock
mod Tests
