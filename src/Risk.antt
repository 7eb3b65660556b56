-- ===== src/Risk.antt =====
-- agent/risk/risk_manager.py: what a proposal is judged on, and the decision.
pub mod Types
pub mod Account
pub mod Sell
pub mod Buy
pub mod Evaluate
pub mod Chain
pub mod Verdicts
pub mod Subject
pub mod Gates
pub mod Sales
pub mod Purchases
pub mod Bought
pub mod Tests
