-- ===== src/Live/Fills.antt =====
-- `_fill` and `_apply_state` of agent/execution/executor.py.
use tio_indodax.Prelude.{
  ℕ, String, Bool, false, ◌||◌, Option, none, some, List, [], ◌∷◌, if◌then◌else◌, pos, ltb_ℤ, leb_ℤ,
  some_of,
}
use Prim.Native.String.{[] as nil, ◌∷◌ as cons}
use tio_indodax.Decimal.{Decimal, ◌⊕◌, ◌⊖◌, ◌⊗◌, ◌⊘◌, whole, min, max}
use tio_indodax.Dict.{lookup}
use tio_indodax.Costs.{FeeSettings, fee_idr}
use tio_indodax.Exchange.Models.{Side, is_buy, is_sell, PairInfo, truthy}
use tio_indodax.Storage.{
  Database, Order, OrderId, TradeId, upto, FillRow, OrderStatus, Update, DecisionRow, has_trade,
  find_decision, record_fill, record_stoploss, update_order,
}
use tio_indodax.Portfolio.{Fill, FillResult, Outcome, ok, raised, apply_fill}
use tio_indodax.Persistence.{save_stops}
use tio_indodax.Calls.{return, ◌>>=◌, ◌>>◌, read}
use tio_indodax.Paper.Walk.{FillEvent, prefix}
use tio_indodax.Paper.Execute.{held_qty, is_stop_setup}
use tio_indodax.Live.Remote.{OrderState, RemoteStatus, filled_for}
use tio_indodax.Live.Calls.{LiveExecutor, Action, write}

-- The arguments of `_fill`; `maker` is false in every call.
pub record FillReport : Type 0 where
  pub coid : OrderId
  pub pair : String
  pub side : Side
  pub qty : Decimal
  pub price : Decimal
  pub fee : Option Decimal
  pub cumulative : Decimal
  pub now : ℕ
  pub reason : String
  pub stop_loss : Option Decimal
  pub is_stop : Bool

-- `fee_idr` of a taker; with no pair rules known, the settings' own percentage.
unfoldable pub taker_fee : FeeSettings → Option PairInfo → Decimal → Decimal
taker_fee costs none notional =
    notional ⊗ (costs.taker_pct ⊕ costs.tax_pct ⊕ costs.clearing_pct) ⊘ whole 100
taker_fee costs (some info) notional = fee_idr costs info notional false

abbrev pub fill_qty : LiveExecutor → FillReport → Decimal
fill_qty b o = if is_sell o.side then min o.qty (held_qty b.pf o.pair) else o.qty

abbrev pub fill_fee : LiveExecutor → FillReport → Decimal → Decimal
fill_fee b o qty = elim o.fee [
  | none ↦ taker_fee b.costs (lookup o.pair b.infos) (qty ⊗ o.price)
  | some fee ↦ fee
]

abbrev pub reported_fill : LiveExecutor → FillReport → Fill
reported_fill b o =
    let qty = fill_qty b o in
    record {
      pair = o.pair;
      side = o.side;
      qty = qty;
      price = o.price;
      fee_idr = fill_fee b o qty;
      ts = o.now;
      stop_loss = o.stop_loss;
      take_profit = none;
      reason = o.reason;
    }

abbrev pub trade_of : FillReport → TradeId
trade_of o = upto o.coid o.cumulative

abbrev pub report_row : FillReport → String → Fill → FillResult → FillRow
report_row o mode f r = record {
  trade_id = trade_of o;
  client_order_id = o.coid;
  ts = f.ts;
  mode = mode;
  pair = f.pair;
  side = f.side;
  price = f.price;
  qty = f.qty;
  fee_idr = f.fee_idr;
  realized_pnl = some r.realized;
}

abbrev pub entered : LiveExecutor → FillReport → Fill → Outcome → Option FillResult × LiveExecutor
entered b o f (ok r, pf) =
    (some r, record b { pf = pf; db = (record_fill b.db (report_row o b.mode f r)).1 })
entered b o f (raised _, pf) = (none, record b { pf = pf })

-- `apply_fill`, not strict, and `record_fill`.
unfoldable pub book : FillReport → Fill → Action FillResult
book o f b = entered b o f (apply_fill b.pf f false)

abbrev pub report_event : FillReport → Fill → FillResult → FillEvent
report_event o f r = record {
  ts = f.ts;
  pair = f.pair;
  side = f.side;
  qty = f.qty;
  price = f.price;
  fee_idr = f.fee_idr;
  realized_pnl = r.realized;
  reason = f.reason;
  is_stop_loss = o.is_stop;
  client_order_id = o.coid;
}

-- What follows the checks of `_fill`.
unfoldable pub book_report : FillReport → Fill → Action (List FillEvent)
book_report o f = do
  r ← book o f
  b ← read
  write (λ db. if o.is_stop then record_stoploss db o.pair b.mode o.now else db)
  write (λ db. save_stops db b.mode b.pf)
  return (report_event o f r ∷ [])

-- There is nothing to sell or to buy, or the fill is recorded already.
abbrev pub is_void : LiveExecutor → FillReport → Bool
is_void b o = leb_ℤ (fill_qty b o) (pos 0) || some_of (has_trade (trade_of o)) b.db.fills

-- `_fill`; the list is of the one event, or empty.
unfoldable pub fill : FillReport → Action (List FillEvent)
fill o b = if is_void b o then return [] b else book_report o (reported_fill b o) b

-- p.setup or p.reason[:40]
abbrev pub setup_or_reason : String → String → String
setup_or_reason nil reason = prefix 40 reason
setup_or_reason (cons c s) reason = cons c s

pub record DecisionMeta : Type 0 where
  pub stop : Option Decimal
  pub reason : String
  pub is_stop : Bool

abbrev meta_of : Option DecisionRow → DecisionMeta
meta_of none = record { stop = none; reason = ""; is_stop = false }
meta_of (some r) = record {
  stop = r.stop_loss;
  reason = setup_or_reason r.setup r.proposal_reason;
  is_stop = is_stop_setup r.setup;
}

unfoldable pub decision_meta : Database → Option ℕ → DecisionMeta
decision_meta db none = meta_of none
decision_meta db (some n) = meta_of (find_decision n db.decisions)

abbrev step_of : Option PairInfo → Option Decimal
step_of none = none
step_of (some info) = info.qty_step

abbrev pub cumulative_of : LiveExecutor → Order → OrderState → Decimal
cumulative_of b o st = filled_for st o.qty (step_of (lookup o.pair b.infos))

abbrev status_of : RemoteStatus → Decimal → OrderStatus
status_of RemoteStatus.filled cumulative = OrderStatus.filled
status_of RemoteStatus.cancelled cumulative = OrderStatus.cancelled
status_of RemoteStatus.still_open cumulative =
    if ltb_ℤ (pos 0) cumulative then OrderStatus.partially_filled else OrderStatus.new

-- st.order_id or None
abbrev text_or_none : String → Option String
text_or_none nil = none
text_or_none (cons c s) = some (cons c s)

-- st.price or Decimal(o["price"])
abbrev price_or : Decimal → Decimal → Decimal
price_or price default = elim (truthy (some price)) [ none ↦ default | some p ↦ p ]

abbrev pub state_report : LiveExecutor → Order → OrderState → ℕ → FillReport
state_report b o st now =
    let meta = decision_meta b.db o.decision_id in
    let cumulative = cumulative_of b o st in
    record {
      coid = o.client_order_id;
      pair = o.pair;
      side = o.side;
      qty = cumulative ⊖ o.filled_qty;
      price = price_or st.price o.price;
      fee = none;
      cumulative = cumulative;
      now = now;
      reason = meta.reason;
      stop_loss = if is_buy o.side then meta.stop else none;
      is_stop = meta.is_stop;
    }

abbrev pub state_update : LiveExecutor → Order → OrderState → Update
state_update b o st =
    let cumulative = cumulative_of b o st in
    record {
      status = some (status_of st.status cumulative);
      exchange_order_id = text_or_none st.order_id;
      filled_qty = some (max cumulative o.filled_qty);
    }

abbrev pub has_more : LiveExecutor → Order → OrderState → Bool
has_more b o st = ltb_ℤ (pos 0) (cumulative_of b o st ⊖ o.filled_qty)

unfoldable pub apply_state : Order → OrderState → ℕ → Action (List FillEvent)
apply_state o st now = do
  b ← read
  events ← (if has_more b o st then fill (state_report b o st now) else return [])
  write (λ db. update_order db o.client_order_id (state_update b o st) now)
  return events
