-- ===== src/Runner.antt =====
-- agent/runner.py and the `EquityTracker` of agent/engine.py: the status of the agent, the equity that
-- its limits are measured against, and the change of its capital. A local date is the number of its
-- day; ISO dates stand in the order of the days.
pub mod Days
pub mod Status
pub mod Peaks
pub mod Capital
pub mod Locks
pub mod Opens
mod Tests
