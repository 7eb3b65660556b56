-- ===== src/Settings.antt =====
-- agent/config.py: the validated settings that the modelled code reads. A float field stands as the
-- Decimal that the code makes of it by `Decimal(str(x))`.
use tio_indodax.Prelude.{ℕ, String, Bool, Option, List}
use tio_indodax.Decimal.{Decimal}

pub record RiskLimits : Type 0 where
  pub agent_capital_idr : Decimal
  pub max_position_pct : Decimal
  pub max_open_positions : ℕ
  pub max_asset_exposure_pct : Decimal
  pub daily_loss_limit_pct : Decimal
  pub max_drawdown_pct : Decimal
  pub max_orders_per_hour : ℕ
  pub max_orders_per_day : ℕ
  pub stoploss_cooldown_minutes : ℕ
  pub require_stop_loss : Bool
  pub emergency_exit_max_slippage_pct : Decimal

pub record MarketSettings : Type 0 where
  pub whitelist : List String
  pub min_volume_24h_idr : Decimal
  pub max_spread_pct : Decimal
  pub max_slippage_pct : Decimal

-- `style`
pub data Style : Type 0 where
  trend_follow st_breakout st_pullback : Style

-- The settings that the rules of entry and exit read.
pub record StrategySettings : Type 0 where
  pub timeframe : String
  pub style : Style
  pub stop_atr_mult : Decimal
  pub tp_atr_mult : Option Decimal
  pub max_hold_bars : Option ℕ
  pub trailing : Bool
  pub rsi_entry : Decimal
  pub chandelier_atr_mult : Decimal
  pub target_atr_mult : Decimal
  pub risk_per_trade_pct : Decimal
  pub min_confidence : Decimal
