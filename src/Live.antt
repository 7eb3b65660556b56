-- ===== src/Live.antt =====
-- agent/execution/executor.py: the live executor, and the part of agent/exchange/trade_client.py that
-- it calls. The exchange's answers are scripts in its state.
pub mod Remote
pub mod Calls
pub mod Fills
pub mod Orders
pub mod Execute
pub mod Kept
pub mod Sent
pub mod Once
pub mod Ledger
pub mod Again
pub mod Filled
pub mod Grows
mod Tests
