-- ===== src/Paper/Execute.antt =====
-- `execute` of agent/backtest/paper_broker.py.
use tio_indodax.Prelude.{
  ℕ, String, Bool, true, false, ◌||◌, Option, none, some, List, [], ◌∷◌, if◌then◌else◌, pos, leb_ℤ,
  str_eq,
}
use tio_indodax.Decimal.{Decimal, min}
use tio_indodax.Dict.{lookup}
use tio_indodax.Exchange.Models.{Levels, is_buy, is_sell, OrderBook, best_bid, best_ask, round_qty}
use tio_indodax.Storage.{
  Order, paper, OrderStatus, filled, cancelled, Update, get_order, record_order, update_order,
}
use tio_indodax.Portfolio.{Portfolio}
use tio_indodax.Risk.Types.{RiskDecision, OrderType, approved}
use tio_indodax.Calls.{return, ◌>>=◌, ◌>>◌, read}
use tio_indodax.Paper.Calls.{Action, write}
use tio_indodax.Paper.Walk.{FillEvent, PairMarket, setup_or_reason, walk}
use tio_indodax.Paper.Fills.{FillOrder, fill_order}

abbrev pub close_as : OrderStatus → Option Decimal → Update
close_as status qty = record { status = some status; exchange_order_id = none; filled_qty = qty }

abbrev pub is_market : OrderType → Bool
is_market OrderType.market = true
is_market _ = false

abbrev pub is_stop_setup : String → Bool
is_stop_setup setup = str_eq setup "stop_loss"

abbrev pub at_least : Decimal → Option Decimal → Bool
at_least price none = false
at_least price (some best) = leb_ℤ best price

abbrev pub at_most : Decimal → Option Decimal → Bool
at_most price none = false
at_most price (some best) = leb_ℤ price best

abbrev pub is_marketable : RiskDecision → OrderBook → Bool
is_marketable d book =
    if is_buy d.proposal.side
    then at_least d.price (best_ask book)
    else is_market d.proposal.order_type || at_most d.price (best_bid book)

abbrev pub levels_of : RiskDecision → OrderBook → Levels
levels_of d book = if is_buy d.proposal.side then book.asks else book.bids

abbrev pub limit_of : RiskDecision → Option Decimal
limit_of d =
    if is_buy d.proposal.side
    then some d.price
    else if is_market d.proposal.order_type
    then none
    else some d.price

-- held.qty if held else ZERO
abbrev pub held_qty : Portfolio → String → Decimal
held_qty pf pair = elim (lookup pair pf.positions) [ none ↦ pos 0 | some p ↦ p.qty ]

abbrev pub new_order : ℕ → RiskDecision → String → ℕ → Order
new_order n d mode now = record {
  client_order_id = paper n;
  exchange_order_id = none;
  decision_id = some n;
  ts_created = now;
  ts_updated = now;
  mode = mode;
  pair = d.proposal.pair;
  side = d.proposal.side;
  order_type = d.proposal.order_type;
  price = d.price;
  qty = d.qty;
  status = OrderStatus.new;
  filled_qty = pos 0;
  is_emergency = d.proposal.is_emergency_exit;
}

-- `record_order`; the exception is the one of an id that is taken.
unfoldable pub insert_order : Order → Action (Unit {0})
insert_order o b = elim (record_order b.db o) [
  | none ↦ (none, b)
  | some db ↦ (some tt, record b { db = db })
]

-- The call of `_fill` by `execute`.
abbrev pub taker_order : ℕ → RiskDecision → PairMarket → ℕ → Decimal → Decimal → FillOrder
taker_order n d m now qty notional = record {
  coid = paper n;
  market = m;
  side = d.proposal.side;
  qty = qty;
  notional = notional;
  maker = false;
  now = now;
  reason = setup_or_reason d.proposal.setup d.proposal.reason;
  stop_loss = d.proposal.stop_loss;
  is_stop = is_stop_setup d.proposal.setup;
}

-- A marketable order walks the book; the part that the book does not fill is cancelled.
unfoldable pub take_now : ℕ → RiskDecision → PairMarket → ℕ → Action (List FillEvent)
take_now n d m now = do
  b ← read
  let p = d.proposal
  let qty = if is_sell p.side then min d.qty (held_qty b.pf p.pair) else d.qty
  let available = (walk (levels_of d m.orderbook) qty (limit_of d) p.side).0
  let done = round_qty m.info available
  let notional = (walk (levels_of d m.orderbook) done (limit_of d) p.side).1
  let status = if leb_ℤ qty done then filled else cancelled
  (if leb_ℤ done (pos 0)
      then (do write (λ db. update_order db (paper n) (close_as cancelled none) now); return [])
      else (do
        ev ← fill_order (taker_order n d m now done notional)
        write (λ db. update_order db (paper n) (close_as status (some done)) now)
        return (ev ∷ [])))

-- A new order: taken at once, or left resting.
unfoldable pub submit : ℕ → RiskDecision → PairMarket → ℕ → Action (List FillEvent)
submit n d m now = do
  b ← read
  insert_order (new_order n d b.mode now)
  (if is_marketable d m.orderbook then take_now n d m now else return [])

unfoldable pub execute : ℕ → RiskDecision → PairMarket → ℕ → Action (List FillEvent)
execute n d m now b =
    if approved d
    then (elim (get_order b.db (paper n)) [ none ↦ submit n d m now b | some _ ↦ return [] b ])
    else return [] b
