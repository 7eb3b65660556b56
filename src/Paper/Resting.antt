-- ===== src/Paper/Resting.antt =====
-- Resting orders of agent/backtest/paper_broker.py: `check_resting`, `cancel_all` and
-- `pending_buy_idr`.
use tio_indodax.Prelude.{
  ℕ, Bool, true, false, ◌&&◌, ◌||◌, Option, none, some, List, [], ◌∷◌, leb, if◌then◌else◌, pos,
  leb_ℤ, length, ◌++◌,
}
use Prim.Native.Nat.{◌+◌}
use tio_indodax.Decimal.{Decimal, ◌⊕◌, ◌⊗◌, min}
use tio_indodax.Dict.{Dict, lookup, insert, get_or}
use tio_indodax.Exchange.Models.{is_buy, is_sell, best_bid, best_ask}
use tio_indodax.Storage.{
  Database, Order, OrderId, paper, filled, cancelled, update_order, open_orders, find_decision,
}
use tio_indodax.Calls.{return, ◌>>=◌, ◌>>◌, read}
use tio_indodax.Paper.Calls.{PaperBroker, Action, write}
use tio_indodax.Paper.Walk.{FillEvent, PairMarket}
use tio_indodax.Paper.Fills.{FillOrder, fill_order}
use tio_indodax.Paper.Execute.{at_least, at_most, close_as, held_qty}

abbrev pub is_paper : OrderId → Bool
is_paper (paper n) = true
is_paper _ = false

unfoldable pub paper_only : List Order → List Order
paper_only [] = []
paper_only (o ∷ os) = if is_paper o.client_order_id then o ∷ paper_only os else paper_only os

unfoldable pub resting_orders : PaperBroker → List Order
resting_orders b = paper_only (open_orders b.db b.mode)

-- The best price on the other side has reached the limit.
abbrev pub is_touched : Order → PairMarket → Bool
is_touched o m =
    (is_buy o.side && at_least o.price (best_ask m.orderbook))
    || (is_sell o.side && at_most o.price (best_bid m.orderbook))

-- The stop of a resting buy, from its decision.
abbrev pub resting_stop : Database → Order → Option Decimal
resting_stop db o =
    if is_buy o.side
    then (elim o.decision_id [
      | none ↦ none
      | some n ↦ elim (find_decision n db.decisions) [ none ↦ none | some r ↦ r.stop_loss ]
    ])
    else none

abbrev pub maker_order : Order → PairMarket → ℕ → Decimal → Option Decimal → FillOrder
maker_order o m now qty stop = record {
  coid = o.client_order_id;
  market = m;
  side = o.side;
  qty = qty;
  notional = qty ⊗ o.price;
  maker = true;
  now = now;
  reason = "resting limit";
  stop_loss = stop;
  is_stop = false;
}

unfoldable pub fill_resting : Order → PairMarket → ℕ → Action (List FillEvent)
fill_resting o m now = do
  b ← read
  let qty = if is_sell o.side then min o.qty (held_qty b.pf o.pair) else o.qty
  (if is_sell o.side && leb_ℤ qty (pos 0)
      then (do
        write (λ db. update_order db o.client_order_id (close_as cancelled none) now)
        return [])
      else (do
        ev ← fill_order (maker_order o m now qty (resting_stop b.db o))
        write (λ db. update_order db o.client_order_id (close_as filled (some qty)) now)
        return (ev ∷ [])))

-- now - created >= ttl
abbrev pub is_expired : PaperBroker → Order → ℕ → Bool
is_expired b o now = leb (o.ts_created + b.ttl) now

unfoldable pub expire : Order → ℕ → Action (List FillEvent)
expire o now = do
  b ← read
  write (λ db.
      if is_expired b o now
      then update_order db o.client_order_id (close_as cancelled none) now
      else db)
  return []

-- The body of the loop of `check_resting`.
unfoldable pub check_order : Dict PairMarket → ℕ → Order → Action (List FillEvent)
check_order markets now o = elim (lookup o.pair markets) [
  | none ↦ expire o now
  | some m ↦ if is_touched o m then fill_resting o m now else expire o now
]

unfoldable pub check_orders : Dict PairMarket → ℕ → List Order → Action (List FillEvent)
check_orders markets now [] = return []
check_orders markets now (o ∷ os) = do
  events ← check_order markets now o
  more ← check_orders markets now os
  return (events ++ more)

unfoldable pub check_resting : Dict PairMarket → ℕ → Action (List FillEvent)
check_resting markets now b = check_orders markets now (resting_orders b) b

unfoldable pub cancel_rows : ℕ → List Order → Database → Database
cancel_rows now [] db = db
cancel_rows now (o ∷ os) db =
    cancel_rows now os (update_order db o.client_order_id (close_as cancelled none) now)

unfoldable pub cancel_all : ℕ → Action ℕ
cancel_all now b =
    (some (length (resting_orders b)), record b { db = cancel_rows now (resting_orders b) b.db })

unfoldable pub pending_of : List Order → Dict Decimal → Dict Decimal
pending_of [] out = out
pending_of (o ∷ os) out =
    pending_of os (
      if is_buy o.side
      then insert o.pair (get_or out o.pair (pos 0) ⊕ o.price ⊗ o.qty) out
      else out)

unfoldable pub pending_buy_idr : PaperBroker → Dict Decimal
pending_buy_idr b = pending_of (resting_orders b) []
