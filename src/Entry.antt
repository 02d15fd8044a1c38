-- ===== src/Entry.antt =====
-- packages/entry: the shape of candles and the filters of an entry.
pub mod Metrics
pub mod AntiChase
mod Tests
