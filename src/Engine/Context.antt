-- ===== src/Engine/Context.antt =====
-- `build_context` of agent/engine.py, and what an approved decision does to the context.
use tio_indodax.Prelude.{ℕ, String, Bool, false, Option, none, some, [], ◌∷◌, if◌then◌else◌, pos}
use Prim.Native.Nat.{◌+◌, ◌-◌}
use tio_indodax.Decimal.{Decimal, ◌⊕◌, ◌⊖◌, ◌⊗◌, ◌⊘◌, whole, max}
use tio_indodax.Dict.{Dict, lookup, get_or, insert}
use tio_indodax.Costs.{FeeSettings, leg_fee_pct}
use tio_indodax.Exchange.Models.{is_buy, best_bid, truthy, ◌>>=◌}
use tio_indodax.Storage.{Database, count_orders_since, last_stoploss_times}
use tio_indodax.Portfolio.{Position, Portfolio, equity, value}
use tio_indodax.Risk.Types.{AgentStatus, RiskContext, MarketView, RiskDecision}
use tio_indodax.Strategy.{TimeframeFeatures}
use tio_indodax.Runner.Days.{Books, update}

pub record Market : Type 0 where
  pub view : MarketView
  pub features : Dict TimeframeFeatures

-- m.orderbook.best_bid or m.ticker.last
abbrev pub mark : MarketView → Decimal
mark view = elim (best_bid view.orderbook) [
  | none ↦ view.ticker.last
  | some bid ↦ elim (truthy (some bid)) [ none ↦ view.ticker.last | some b ↦ b ]
]

unfoldable pub marks : Dict Market → Dict Decimal
marks [] = []
marks ((pair, m) ∷ rest) = (pair, mark m.view) ∷ marks rest

unfoldable pub quantities : Dict Position → Dict Decimal
quantities [] = []
quantities ((k, p) ∷ rest) = (k, p.qty) ∷ quantities rest

-- `none` is the KeyError of a missing price.
unfoldable pub values : Dict Position → Dict Decimal → Option (Dict Decimal)
values [] prices = some []
values ((k, p) ∷ ps) prices = do
  price ← lookup k prices
  rest ← values ps prices
  some ((k, value p price) ∷ rest)

-- What the cycle is given besides the markets. `today` is the local day of `now`, which began at
-- `midnight`.
pub record CycleInputs : Type 0 where
  pub now : ℕ
  pub today : ℕ
  pub midnight : ℕ
  pub mode : String
  pub status : AgentStatus
  pub reconciliation_ok : Bool
  pub pending_buy_idr : Dict Decimal
  pub exchange_free_idr : Option Decimal

-- An hour in microseconds.
abbrev pub hour : ℕ
hour = 3600000000

-- The context, from the equity, the worth of the positions, the peak and the start of the day.
abbrev pub context_of :
    CycleInputs → Database → Portfolio → Decimal → Dict Decimal → Decimal × Decimal → RiskContext
context_of c db pf eq worth (peak, start) = record {
  now = c.now;
  status = c.status;
  reconciliation_ok = c.reconciliation_ok;
  equity_idr = eq;
  peak_equity_idr = peak;
  day_start_equity_idr = start;
  cash_idr = pf.cash_idr;
  position_qty = quantities pf.positions;
  position_value_idr = worth;
  pending_buy_idr = c.pending_buy_idr;
  orders_last_hour = count_orders_since db (c.now - hour) c.mode false;
  orders_today = count_orders_since db c.midnight c.mode false;
  last_stoploss_at = last_stoploss_times db c.mode;
  exchange_free_idr = c.exchange_free_idr;
}

-- The context, and the books with the equity.
unfoldable pub build_context :
    CycleInputs → Database → Books → Portfolio → Dict Decimal → Option (RiskContext × Books)
unfolding values
build_context c db books pf prices = do
  eq ← equity pf prices
  worth ← values pf.positions prices
  let seen = update eq c.today books
  some (context_of c db pf eq worth seen.0, seen.1)

-- The exchange balance after a buy of this worth; `none` is the KeyError of a market that is missing.
abbrev pub free_after :
    FeeSettings → Dict Market → String → Decimal → Option Decimal → Option (Option Decimal)
free_after fees markets pair notional none = some none
free_after fees markets pair notional (some free) = do
  m ← lookup pair markets
  let fee = leg_fee_pct fees m.view.info false ⊘ whole 100
  some (some (max (pos 0) (free ⊖ notional ⊗ (whole 1 ⊕ fee))))

-- The next proposals see the buy as pending.
abbrev pub with_buy : RiskDecision → Option Decimal → RiskContext → RiskContext
with_buy d free ctx =
    let pair = d.proposal.pair in
    record ctx {
      pending_buy_idr =
          insert pair (get_or ctx.pending_buy_idr pair (pos 0) ⊕ d.qty ⊗ d.price)
            ctx.pending_buy_idr;
      exchange_free_idr = free;
    }

abbrev pub after_buy : FeeSettings → Dict Market → RiskDecision → RiskContext → Option RiskContext
after_buy fees markets d ctx = do
  free ← free_after fees markets d.proposal.pair (d.qty ⊗ d.price) ctx.exchange_free_idr
  some (with_buy d free ctx)

abbrev pub counted : RiskDecision → ℕ
counted d = if d.proposal.is_emergency_exit then 0 else 1

abbrev pub count_order : RiskDecision → RiskContext → RiskContext
count_order d ctx = record ctx {
  orders_last_hour = ctx.orders_last_hour + counted d;
  orders_today = ctx.orders_today + counted d;
}

-- The context of the next proposals, after an approval.
unfoldable pub after_approval :
    FeeSettings → Dict Market → RiskDecision → RiskContext → Option RiskContext
after_approval fees markets d ctx = do
  next ← if is_buy d.proposal.side then after_buy fees markets d ctx else some ctx
  some (count_order d next)
