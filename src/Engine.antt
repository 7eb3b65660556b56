-- ===== src/Engine.antt =====
-- agent/engine.py: one decision cycle, from the markets to judged proposals. The features of a pair,
-- which are computed by pandas from its candles, are given with its market; the opinion of the analyst
-- and the portfolio manager's allocation are arguments.
pub mod Context
pub mod Cycle
pub mod Judged
pub mod Approved
pub mod Returns
pub mod Allowed
pub mod Counted
mod Tests
