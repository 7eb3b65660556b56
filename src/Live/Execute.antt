-- ===== src/Live/Execute.antt =====
-- `execute` of agent/execution/executor.py.
use tio_indodax.Prelude.{
  ℕ, String, Bool, Option, none, some, List, [], ◌++◌, if◌then◌else◌, pos, ltb_ℤ, leb_ℤ, str_eq,
  some_of,
}
use tio_indodax.Decimal.{Decimal, ◌⊖◌, ◌⊗◌, ◌⊘◌, whole, min}
use tio_indodax.Exchange.Models.{buy, is_buy, is_sell, best_bid, round_qty, round_price}
use tio_indodax.Storage.{Order, live, OrderStatus, Update, get_order, record_order, update_order}
use tio_indodax.Risk.Types.{RiskDecision, OrderType, approved}
use tio_indodax.Calls.{return, ◌>>=◌, ◌>>◌, read}
use tio_indodax.Paper.Walk.{FillEvent, PairMarket}
use tio_indodax.Paper.Execute.{held_qty, is_market, is_stop_setup}
use tio_indodax.Live.Remote.{OrderAck}
use tio_indodax.Live.Calls.{
  LiveExecutor, Action, write, learn_info, Placing, acknowledged, already_exists, refused, unknown,
  place_limit,
}
use tio_indodax.Live.Fills.{FillReport, fill, setup_or_reason}
use tio_indodax.Live.Orders.{mark, resolve, cancel_pair, resting_orders}

abbrev pub pending_order : ℕ → RiskDecision → String → Decimal → Decimal → ℕ → Order
pending_order n d mode qty price now = record {
  client_order_id = live n;
  exchange_order_id = none;
  decision_id = some n;
  ts_created = now;
  ts_updated = now;
  mode = mode;
  pair = d.proposal.pair;
  side = d.proposal.side;
  order_type = OrderType.limit;
  price = price;
  qty = qty;
  status = OrderStatus.pending_submit;
  filled_qty = pos 0;
  is_emergency = d.proposal.is_emergency_exit;
}

-- `record_order`; the exception is the one of an id that is taken.
unfoldable pub insert_row : Order → Action (Unit {0})
insert_row o b = elim (record_order b.db o) [
  | none ↦ (none, b)
  | some db ↦ (some tt, record b { db = db })
]

-- The row is written before the request is sent.
unfoldable pub send : Order → Action Placing
send o = do insert_row o; place_limit o

abbrev pub ack_update : OrderAck → Update
ack_update ack = record {
  status = some OrderStatus.new;
  exchange_order_id = some ack.order_id;
  filled_qty = none;
}

abbrev pub qty_update : OrderAck → Update
qty_update ack = record {
  status = none;
  exchange_order_id = none;
  filled_qty = some ack.filled_qty;
}

-- (ack.filled_quote / ack.filled_qty) if ack.filled_quote > 0 else price
abbrev ack_price : OrderAck → Decimal → Decimal
ack_price ack price =
    if ltb_ℤ (pos 0) ack.filled_quote then ack.filled_quote ⊘ ack.filled_qty else price

abbrev pub ack_report : ℕ → RiskDecision → OrderAck → Decimal → ℕ → FillReport
ack_report n d ack price now =
    let p = d.proposal in
    record {
      coid = live n;
      pair = p.pair;
      side = p.side;
      qty = ack.filled_qty;
      price = ack_price ack price;
      fee = ack.fee_idr;
      cumulative = ack.filled_qty;
      now = now;
      reason = setup_or_reason p.setup p.reason;
      stop_loss = if is_buy p.side then p.stop_loss else none;
      is_stop = is_stop_setup p.setup;
    }

unfoldable pub book_ack : ℕ → RiskDecision → OrderAck → Decimal → ℕ → Action (List FillEvent)
book_ack n d ack price now = do
  events ← fill (ack_report n d ack price now)
  write (λ db. update_order db (live n) (qty_update ack) now)
  return events

-- What follows the request, by its answer.
unfoldable pub answered :
    ℕ → RiskDecision → Decimal → ℕ → List FillEvent → Placing → Action (List FillEvent)
answered n d price now events refused = do
  write (λ db. update_order db (live n) (mark OrderStatus.rejected) now)
  return events
answered n d price now events already_exists = do
  more ← resolve (live n) now
  return (events ++ more)
answered n d price now events unknown = do more ← resolve (live n) now; return (events ++ more)
answered n d price now events (acknowledged ack) = do
  write (λ db. update_order db (live n) (ack_update ack) now)
  booked ← (if ltb_ℤ (pos 0) ack.filled_qty then book_ack n d ack price now else return [])
  more ← resolve (live n) now
  return ((events ++ booked) ++ more)

unfoldable pub submit :
    ℕ → RiskDecision → Decimal → Decimal → ℕ → List FillEvent → Action (List FillEvent)
submit n d qty price now events = do
  b ← read
  (if leb_ℤ qty (pos 0) then return events else (do
    answer ← send (pending_order n d b.mode qty price now)
    answered n d price now events answer))

-- m.orderbook.best_bid * (1 - self.emergency_slippage / 100), rounded down to the tick
abbrev pub emergency_price : LiveExecutor → PairMarket → Decimal → Decimal
emergency_price b m bid =
    round_price m.info (bid ⊗ (whole 1 ⊖ b.emergency_slippage ⊘ whole 100)) buy

-- The limit of a sale; `none` where there is no bid.
abbrev pub sell_price : LiveExecutor → RiskDecision → PairMarket → Option Decimal
sell_price b d m =
    if is_market d.proposal.order_type
    then (elim (best_bid m.orderbook) [ none ↦ none | some bid ↦ some (emergency_price b m bid) ])
    else some d.price

abbrev pub sell_qty : LiveExecutor → RiskDecision → PairMarket → Decimal
sell_qty b d m = round_qty m.info (min d.qty (held_qty b.pf d.proposal.pair))

abbrev rests_in : String → Order → Bool
rests_in pair o = str_eq o.pair pair

-- Older orders of the pair are cancelled first, and have to be gone.
unfoldable pub execute_sell : ℕ → RiskDecision → PairMarket → ℕ → Action (List FillEvent)
execute_sell n d m now = do
  events ← cancel_pair d.proposal.pair now
  b ← read
  (if some_of (rests_in d.proposal.pair) (resting_orders b)
      then return events
      else (elim (sell_price b d m) [
        | none ↦ return events
        | some price ↦ submit n d (sell_qty b d m) price now events
      ]))

unfoldable pub execute_new : ℕ → RiskDecision → PairMarket → ℕ → Action (List FillEvent)
execute_new n d m now =
    if is_sell d.proposal.side then execute_sell n d m now else submit n d d.qty d.price now []

abbrev pub once : ℕ → RiskDecision → PairMarket → ℕ → Option Order → Action (List FillEvent)
once n d m now (some _) = return []
once n d m now none = execute_new n d m now

unfoldable pub execute : ℕ → RiskDecision → PairMarket → ℕ → Action (List FillEvent)
execute n d m now =
    if approved d
    then (do learn_info m.pair m.info; b ← read; once n d m now (get_order b.db (live n)))
    else return []
