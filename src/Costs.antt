-- ===== src/Costs.antt =====
-- agent/analysis/costs.py. A float setting stands as the Decimal that `Decimal(str(x))` gives.
use tio_indodax.Prelude.{Bool, Option, none, some, if◌then◌else◌, pos}
use tio_indodax.Decimal.{Decimal, ◌⊕◌, ◌⊗◌, ◌⊘◌, whole, max}
use tio_indodax.Exchange.Models.{PairInfo}

-- `FeeSettings` of agent/config.py.
pub record FeeSettings : Type 0 where
  pub maker_pct : Decimal
  pub taker_pct : Decimal
  pub tax_pct : Decimal
  pub clearing_pct : Decimal
  pub min_edge_multiple : Decimal

pub record CostBreakdown : Type 0 where
  pub entry_fee_pct : Decimal
  pub exit_fee_pct : Decimal
  pub tax_clearing_pct : Decimal
  pub spread_pct : Decimal
  pub slippage_pct : Decimal

unfoldable pub total_pct : CostBreakdown → Decimal
total_pct c = c.entry_fee_pct ⊕ c.exit_fee_pct ⊕ c.tax_clearing_pct ⊕ c.spread_pct ⊕ c.slippage_pct

abbrev or_default : Option Decimal → Decimal → Decimal
or_default none d = d
or_default (some fee) d = fee

-- `_maker` and `_taker`; `info` is given wherever the program calls them.
unfoldable pub maker_pct : FeeSettings → PairInfo → Decimal
maker_pct fees info = or_default info.maker_fee_pct fees.maker_pct

unfoldable pub taker_pct : FeeSettings → PairInfo → Decimal
taker_pct fees info = or_default info.taker_fee_pct fees.taker_pct

unfoldable pub leg_fee_pct : FeeSettings → PairInfo → Bool → Decimal
unfolding maker_pct taker_pct
leg_fee_pct fees info maker =
    (if maker then maker_pct fees info else taker_pct fees info) ⊕ fees.tax_pct ⊕ fees.clearing_pct

unfoldable pub round_trip : FeeSettings → PairInfo → Decimal → Decimal → Bool → Bool → CostBreakdown
unfolding maker_pct taker_pct
round_trip fees info spread slippage entry_maker exit_maker = record {
  entry_fee_pct = if entry_maker then maker_pct fees info else taker_pct fees info;
  exit_fee_pct = if exit_maker then maker_pct fees info else taker_pct fees info;
  tax_clearing_pct = whole 2 ⊗ (fees.tax_pct ⊕ fees.clearing_pct);
  spread_pct = max spread (pos 0);
  slippage_pct = max slippage (pos 0);
}

unfoldable pub fee_idr : FeeSettings → PairInfo → Decimal → Bool → Decimal
unfolding leg_fee_pct
fee_idr fees info notional maker = notional ⊗ leg_fee_pct fees info maker ⊘ whole 100
