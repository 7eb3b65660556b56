-- ===== src/Risk/Account.antt =====
-- `drawdown_pct`, `daily_loss_pct` and `check_account`.
use tio_indodax.Prelude.{Bool, List, [], ◌∷◌, ◌++◌, if◌then◌else◌, pos, leb_ℤ}
use tio_indodax.Decimal.{Decimal, ◌⊖◌, ◌⊗◌, ◌⊘◌, whole, max}
use tio_indodax.Settings.{RiskLimits}
use tio_indodax.Risk.Types.{RiskContext, Reason, kill_switch, daily_loss}

unfoldable pub drawdown_pct : RiskContext → Decimal
drawdown_pct ctx =
    if leb_ℤ ctx.peak_equity_idr (pos 0)
    then pos 0
    else max (pos 0) ((ctx.peak_equity_idr ⊖ ctx.equity_idr) ⊘ ctx.peak_equity_idr ⊗ whole 100)

-- The settings have a positive capital.
unfoldable pub daily_loss_pct : RiskLimits → RiskContext → Decimal
daily_loss_pct limits ctx =
    max (pos 0) ((ctx.day_start_equity_idr ⊖ ctx.equity_idr) ⊘ limits.agent_capital_idr ⊗ whole 100)

unfoldable pub check_account : RiskLimits → RiskContext → Bool × Bool × List Reason
check_account limits ctx =
    let halt = leb_ℤ limits.max_drawdown_pct (drawdown_pct ctx) in
    let daily = leb_ℤ limits.daily_loss_limit_pct (daily_loss_pct limits ctx) in
    (
      halt,
      daily,
      (if halt then kill_switch ∷ [] else []) ++ (if daily then daily_loss ∷ [] else []),
    )
