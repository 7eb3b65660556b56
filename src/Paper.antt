-- ===== src/Paper.antt =====
-- agent/backtest/paper_broker.py: execution against the order book without an exchange. A call runs
-- on the broker's state and keeps what was written before an exception.
pub mod Calls
pub mod Walk
pub mod Fills
pub mod Execute
pub mod Resting
pub mod Orders
pub mod Once
mod Tests
