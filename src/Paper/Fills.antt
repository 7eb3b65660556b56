-- ===== src/Paper/Fills.antt =====
-- `_fill` of agent/backtest/paper_broker.py: a fill of the ledger, recorded in the database.
use tio_indodax.Prelude.{ℕ, String, Bool, true, Option, none, some, if◌then◌else◌, pos}
use tio_indodax.Decimal.{Decimal, ◌⊗◌, divide}
use tio_indodax.Costs.{FeeSettings, fee_idr}
use tio_indodax.Exchange.Models.{Side, round_qty}
use tio_indodax.Storage.{OrderId, FillRow, fill_of, record_fill, record_stoploss}
use tio_indodax.Portfolio.{Fill, FillResult, Outcome, ok, raised, apply_fill}
use tio_indodax.Persistence.{save_stops}
use tio_indodax.Calls.{return, ◌>>=◌, ◌>>◌, read}
use tio_indodax.Paper.Calls.{PaperBroker, Action, write}
use tio_indodax.Paper.Walk.{FillEvent, PairMarket}

-- notional / qty if qty else ZERO
abbrev pub vwap : Decimal → Decimal → Decimal
vwap notional qty = elim (divide notional qty) [ none ↦ pos 0 | some v ↦ v ]

abbrev pub settled : PaperBroker → Outcome → Option FillResult × PaperBroker
settled b (ok r, pf) = (some r, record b { pf = pf })
settled b (raised _, pf) = (none, record b { pf = pf })

-- `apply_fill` on the broker's ledger, which is written also where it raises.
unfoldable pub apply_to_ledger : Fill → Action FillResult
apply_to_ledger f b = settled b (apply_fill b.pf f true)

-- The arguments of `_fill`.
pub record FillOrder : Type 0 where
  pub coid : OrderId
  pub market : PairMarket
  pub side : Side
  pub qty : Decimal
  pub notional : Decimal
  pub maker : Bool
  pub now : ℕ
  pub reason : String
  pub stop_loss : Option Decimal
  pub is_stop : Bool

abbrev pub rounded_qty : FillOrder → Decimal
rounded_qty o = round_qty o.market.info o.qty

abbrev pub ledger_fill : FeeSettings → FillOrder → Fill
ledger_fill costs o =
    let qty = rounded_qty o in
    let price = vwap o.notional qty in
    record {
      pair = o.market.pair;
      side = o.side;
      qty = qty;
      price = price;
      fee_idr = fee_idr costs o.market.info (qty ⊗ price) o.maker;
      ts = o.now;
      stop_loss = o.stop_loss;
      take_profit = none;
      reason = o.reason;
    }

abbrev pub fill_row : FillOrder → String → Fill → FillResult → FillRow
fill_row o mode f r = record {
  trade_id = fill_of o.coid;
  client_order_id = o.coid;
  ts = f.ts;
  mode = mode;
  pair = f.pair;
  side = f.side;
  price = f.price;
  qty = f.qty;
  fee_idr = f.fee_idr;
  realized_pnl = some r.realized;
}

abbrev pub event : FillOrder → Fill → FillResult → FillEvent
event o f r = record {
  ts = f.ts;
  pair = f.pair;
  side = f.side;
  qty = f.qty;
  price = f.price;
  fee_idr = f.fee_idr;
  realized_pnl = r.realized;
  reason = f.reason;
  is_stop_loss = o.is_stop;
  client_order_id = o.coid;
}

-- `_fill`
unfoldable pub fill_order : FillOrder → Action FillEvent
fill_order o = do
  b ← read
  let f = ledger_fill b.costs o
  r ← apply_to_ledger f
  write (λ db. (record_fill db (fill_row o b.mode f r)).1)
  write (λ db. if o.is_stop then record_stoploss db f.pair b.mode o.now else db)
  after ← read
  write (λ db. save_stops db b.mode after.pf)
  return (event o f r)
