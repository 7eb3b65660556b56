-- ===== src/Live/Orders.antt =====
-- The orders of agent/execution/executor.py: `_resolve`, `_cancel_row`, `cancel_pair`,
-- `check_resting`, `cancel_all`, `resting_orders` and `pending_buy_idr`.
use tio_indodax.Prelude.{
  ℕ, String, Bool, true, false, ◌&&◌, ◌||◌, Option, none, some, List, [], ◌∷◌, ◌++◌, leb,
  if◌then◌else◌, pos, str_eq,
}
use Prim.Native.Nat.{◌+◌}
use Prim.Native.String.{[] as nil, ◌∷◌ as cons}
use tio_indodax.Decimal.{Decimal, ◌⊕◌, ◌⊖◌, ◌⊗◌}
use tio_indodax.Dict.{Dict, insert, get_or}
use tio_indodax.Exchange.Models.{is_buy}
use tio_indodax.Storage.{
  Order, OrderId, live, OrderStatus, Update, get_order, update_order, open_orders,
}
use tio_indodax.Calls.{return, ◌>>=◌, ◌>>◌, read, fail}
use tio_indodax.Paper.Walk.{FillEvent, PairMarket}
use tio_indodax.Live.Calls.{
  LiveExecutor, Action, write, learn_info, Looking, found, not_found, lookup_failed, Cancelling,
  done, cancel_failed, get_order_by_coid, cancel,
}
use tio_indodax.Live.Fills.{apply_state, decision_meta}

abbrev pub mark : OrderStatus → Update
mark status = record { status = some status; exchange_order_id = none; filled_qty = none }

abbrev is_pending : OrderStatus → Bool
is_pending OrderStatus.pending_submit = true
is_pending _ = false

-- age >= seconds
abbrev pub is_aged : Order → ℕ → ℕ → Bool
is_aged o age now = leb (o.ts_created + age) now

-- The exchange knows of no such order.
unfoldable pub not_there : Order → OrderId → ℕ → Action (List FillEvent)
not_there o coid now = do
  b ← read
  write (λ db.
      if is_pending o.status && is_aged o b.pending_grace now
      then update_order db coid (mark OrderStatus.rejected) now
      else db)
  return []

abbrev pub looked_up : Order → OrderId → ℕ → Looking → Action (List FillEvent)
looked_up o coid now lookup_failed = return []
looked_up o coid now not_found = not_there o coid now
looked_up o coid now (found st) = apply_state o st now

-- `db.get_order` where the code reads a column of the row; the exception is the TypeError of `None`.
unfoldable pub get_row : OrderId → Action Order
get_row coid b = elim (get_order b.db coid) [ none ↦ fail b | some o ↦ return o b ]

-- `_resolve`
unfoldable pub resolve : OrderId → ℕ → Action (List FillEvent)
resolve coid now = do o ← get_row coid; answer ← get_order_by_coid coid; looked_up o coid now answer

abbrev pub cancelled_row : Order → ℕ → Cancelling → Action (List FillEvent)
cancelled_row o now cancel_failed = return []
cancelled_row o now done = resolve o.client_order_id now

-- `_cancel_row`
unfoldable pub cancel_row : Order → ℕ → Action (List FillEvent)
cancel_row o now = do answer ← cancel o; cancelled_row o now answer

abbrev pub is_ours : OrderId → Bool
is_ours (live n) = true
is_ours _ = false

unfoldable pub ours_only : List Order → List Order
ours_only [] = []
ours_only (o ∷ os) = if is_ours o.client_order_id then o ∷ ours_only os else ours_only os

unfoldable pub resting_orders : LiveExecutor → List Order
resting_orders b = ours_only (open_orders b.db b.mode)

-- The truth value of `o["exchange_order_id"]`.
abbrev pub has_id : Option String → Bool
has_id none = false
has_id (some nil) = false
has_id (some (cons c s)) = true

abbrev pub in_pair : String → Order → Bool
in_pair pair o = str_eq o.pair pair && has_id o.exchange_order_id

-- The cancellation of the rows with this property.
unfoldable pub cancel_those : (Order → Bool) → List Order → ℕ → Action (List FillEvent)
cancel_those p [] now = return []
cancel_those p (o ∷ os) now = do
  events ← (if p o then cancel_row o now else return [])
  more ← cancel_those p os now
  return (events ++ more)

unfoldable pub cancel_pair : String → ℕ → Action (List FillEvent)
cancel_pair pair now b = cancel_those (in_pair pair) (resting_orders b) now b

unfoldable pub count_those : (Order → Bool) → List Order → ℕ
count_those p [] = 0
count_those p (o ∷ os) = (if p o then 1 else 0) + count_those p os

abbrev pub cancellable : Order → Bool
cancellable o = has_id o.exchange_order_id

unfoldable pub cancel_all : ℕ → Action ℕ
cancel_all now = do
  b ← read
  cancel_those cancellable (resting_orders b) now
  return (count_those cancellable (resting_orders b))

abbrev is_resting : OrderStatus → Bool
is_resting OrderStatus.new = true
is_resting OrderStatus.partially_filled = true
is_resting _ = false

abbrev is_maker_setup : String → Bool
is_maker_setup setup = str_eq setup "pm_trim_maker" || str_eq setup "pm_exit_maker"

abbrev pub is_stale : LiveExecutor → Order → ℕ → Bool
is_stale b o now =
    is_resting o.status
    && (is_buy o.side || is_maker_setup (decision_meta b.db o.decision_id).reason)
    && is_aged o b.entry_ttl now

-- The body of the loop of `check_resting`.
unfoldable pub check_order : OrderId → ℕ → Action (List FillEvent)
check_order coid now = do
  events ← resolve coid now
  o ← get_row coid
  b ← read
  more ← (if is_stale b o now then cancel_row o now else return [])
  return (events ++ more)

unfoldable pub check_orders : List Order → ℕ → Action (List FillEvent)
check_orders [] now = return []
check_orders (o ∷ os) now = do
  events ← check_order o.client_order_id now
  more ← check_orders os now
  return (events ++ more)

unfoldable pub learn_infos : Dict PairMarket → Action (Unit {0})
learn_infos [] = return tt
learn_infos ((p, m) ∷ rest) = do learn_info p m.info; learn_infos rest

unfoldable pub check_resting : Dict PairMarket → ℕ → Action (List FillEvent)
check_resting markets now = do learn_infos markets; b ← read; check_orders (resting_orders b) now

unfoldable pub pending_of : List Order → Dict Decimal → Dict Decimal
pending_of [] out = out
pending_of (o ∷ os) out = pending_of os (
    if is_buy o.side
    then insert o.pair (get_or out o.pair (pos 0) ⊕ o.price ⊗ (o.qty ⊖ o.filled_qty)) out
    else out)

unfoldable pub pending_buy_idr : LiveExecutor → Dict Decimal
pending_buy_idr b = pending_of (resting_orders b) []
