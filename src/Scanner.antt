-- ===== src/Scanner.antt =====
-- packages/scanner: the candidates of the watchlist, and how deep an order book is.
pub mod Depth
pub mod Score
pub mod Scan
pub mod Eligible
mod Tests
