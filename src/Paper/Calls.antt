-- ===== src/Paper/Calls.antt =====
-- The state of agent/backtest/paper_broker.py, and calls on it.
use tio_indodax.Prelude.{ℕ, String}
use tio_indodax.Calls.{Call, modify}
use tio_indodax.Costs.{FeeSettings}
use tio_indodax.Storage.{Database}
use tio_indodax.Portfolio.{Portfolio}

-- `ttl` is in microseconds.
pub record PaperBroker : Type 0 where
  pub db : Database
  pub pf : Portfolio
  pub costs : FeeSettings
  pub mode : String
  pub ttl : ℕ

abbrev pub Action : Type 0 → Type 0
Action A = Call PaperBroker A

-- A write to the database.
abbrev pub write : (Database → Database) → Action (Unit {0})
write f = modify (λ b. record b { db = f b.db })
