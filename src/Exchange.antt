-- ===== src/Exchange.antt =====
-- agent/exchange: the pair names, the typed market data and its arithmetic.
pub mod Pairs
pub mod Models
pub mod Rounding
pub mod Snaps
pub mod Normal
pub mod Parts
pub mod Spellings
mod Tests
