-- ===== src/Storage.antt =====
-- agent/storage/db.py: the tables that the brokers and the risk manager use. A table is the list of
-- its rows in the order of their `id`, which AUTOINCREMENT never uses twice and no row ever loses.
-- Times are in microseconds: the ISO texts of UTC times stand in the order of the times.
pub mod Rows
use Prim.Native.Nat.{◌+◌}
use tio_indodax.Prelude.{
  ℕ, String, Bool, true, false, not, ◌&&◌, Option, none, some, List, [], ◌∷◌, ◌++◌, ltb, leb, ◌==◌,
  if◌then◌else◌, str_eq, some_of, length, eqb_ℤ,
}
use tio_indodax.Decimal.{Decimal}
use tio_indodax.Dict.{Dict, lookup, get_or, insert}
use tio_indodax.Exchange.Models.{Side}
use tio_indodax.Risk.Types.{OrderType, Verdict, RiskDecision}

-- A client order id: the text `paper-<decision id>`, the text `<prefix><salt>-<decision id>` with the
-- prefix and salt of this database's live executor, or a text that starts with neither.
pub data OrderId : Type 0 where
  paper : ℕ → OrderId
  live : ℕ → OrderId
  other_id : String → OrderId

abbrev pub same_id : OrderId → OrderId → Bool
same_id (paper m) (paper n) = m == n
same_id (live m) (live n) = m == n
same_id (other_id s) (other_id t) = str_eq s t
same_id _ _ = false

-- A trade id: the text `<client order id>-f`, the text `<client order id>:<cumulative quantity>`, or
-- another. Quantities that are equal count as one text.
pub data TradeId : Type 0 where
  fill_of : OrderId → TradeId
  upto : OrderId → Decimal → TradeId
  other_trade : String → TradeId

abbrev pub same_trade : TradeId → TradeId → Bool
same_trade (fill_of m) (fill_of n) = same_id m n
same_trade (upto m a) (upto n b) = same_id m n && eqb_ℤ a b
same_trade (other_trade s) (other_trade t) = str_eq s t
same_trade _ _ = false

pub data OrderStatus : Type 0 where
  pending_submit new partially_filled filled cancelled rejected : OrderStatus

pub record Order : Type 0 where
  pub client_order_id : OrderId
  pub exchange_order_id : Option String
  pub decision_id : Option ℕ
  pub ts_created : ℕ
  pub ts_updated : ℕ
  pub mode : String
  pub pair : String
  pub side : Side
  pub order_type : OrderType
  pub price : Decimal
  pub qty : Decimal
  pub status : OrderStatus
  pub filled_qty : Decimal
  pub is_emergency : Bool

pub record FillRow : Type 0 where
  pub trade_id : TradeId
  pub client_order_id : OrderId
  pub ts : ℕ
  pub mode : String
  pub pair : String
  pub side : Side
  pub price : Decimal
  pub qty : Decimal
  pub fee_idr : Decimal
  pub realized_pnl : Option Decimal

pub record StopRow : Type 0 where
  pub ts : ℕ
  pub mode : String
  pub pair : String

-- The columns of a decision that the program reads again.
pub record DecisionRow : Type 0 where
  pub id : ℕ
  pub ts : ℕ
  pub mode : String
  pub pair : String
  pub side : Side
  pub setup : String
  pub stop_loss : Option Decimal
  pub proposal_reason : String
  pub verdict : Verdict
  pub approved_qty : Decimal
  pub approved_price : Decimal

-- `state` holds the rows that are dicts of prices, by their key.
pub record Database : Type 0 where
  pub decisions : List DecisionRow
  pub orders : List Order
  pub fills : List FillRow
  pub stoploss_events : List StopRow
  pub state : Dict (Dict Decimal)

unfoldable pub empty : Database
empty = record { decisions = []; orders = []; fills = []; stoploss_events = []; state = [] }

-- The id of the new row, and the database then.
unfoldable pub record_decision : Database → RiskDecision → String → ℕ → ℕ × Database
record_decision db d mode ts =
    let row : DecisionRow = record {
      id = length db.decisions + 1;
      ts = ts;
      mode = mode;
      pair = d.proposal.pair;
      side = d.proposal.side;
      setup = d.proposal.setup;
      stop_loss = d.proposal.stop_loss;
      proposal_reason = d.proposal.reason;
      verdict = d.verdict;
      approved_qty = d.qty;
      approved_price = d.price;
    } in
    (row.id, record db { decisions = db.decisions ++ row ∷ [] })

-- SELECT ... FROM decisions WHERE id = ?
unfoldable pub find_decision : ℕ → List DecisionRow → Option DecisionRow
find_decision n [] = none
find_decision n (r ∷ rs) = if r.id == n then some r else find_decision n rs

-- fetchone() of the rows with this id
unfoldable pub find_order : OrderId → List Order → Option Order
find_order coid [] = none
find_order coid (o ∷ os) = if same_id o.client_order_id coid then some o else find_order coid os

unfoldable pub get_order : Database → OrderId → Option Order
unfolding find_order
get_order db coid = find_order coid db.orders

-- `none` is the IntegrityError of a client order id that is taken.
unfoldable pub record_order : Database → Order → Option Database
unfolding get_order
record_order db o = elim (get_order db o.client_order_id) [
  | none ↦ some (record db { orders = db.orders ++ o ∷ [] })
  | some _ ↦ none
]

-- The columns that `update_order` can set.
pub record Update : Type 0 where
  pub status : Option OrderStatus
  pub exchange_order_id : Option String
  pub filled_qty : Option Decimal

abbrev set {ℓ} : {A : Type ℓ} → Option A → A → A
set o old = elim o [ none ↦ old | some value ↦ value ]

abbrev set_text : Option String → Option String → Option String
set_text o old = elim o [ none ↦ old | some value ↦ some value ]

unfoldable pub updated : Update → ℕ → Order → Order
updated u ts o = record o {
  ts_updated = ts;
  status = set u.status o.status;
  exchange_order_id = set_text u.exchange_order_id o.exchange_order_id;
  filled_qty = set u.filled_qty o.filled_qty;
}

unfoldable pub update_rows : OrderId → Update → ℕ → List Order → List Order
update_rows coid u ts [] = []
update_rows coid u ts (o ∷ os) =
    (if same_id o.client_order_id coid then updated u ts o else o) ∷ update_rows coid u ts os

unfoldable pub update_order : Database → OrderId → Update → ℕ → Database
unfolding update_rows
update_order db coid u ts = record db { orders = update_rows coid u ts db.orders }

abbrev pub is_open : OrderStatus → Bool
is_open pending_submit = true
is_open new = true
is_open partially_filled = true
is_open _ = false

abbrev pub open_in : String → Order → Bool
open_in mode o = str_eq o.mode mode && is_open o.status

unfoldable pub open_rows : String → List Order → List Order
open_rows mode [] = []
open_rows mode (o ∷ os) = if open_in mode o then o ∷ open_rows mode os else open_rows mode os

unfoldable pub open_orders : Database → String → List Order
unfolding open_rows
open_orders db mode = open_rows mode db.orders

-- COUNTED_STATUSES
abbrev pub is_counted : OrderStatus → Bool
is_counted rejected = false
is_counted _ = true

abbrev pub counts : ℕ → String → Bool → Order → Bool
counts since mode include_emergency o =
    str_eq o.mode mode
    && leb since o.ts_created
    && is_counted o.status
    && (if include_emergency then true else not o.is_emergency)

unfoldable pub count_rows : (Order → Bool) → List Order → ℕ
count_rows p [] = 0
count_rows p (o ∷ os) = (if p o then 1 else 0) + count_rows p os

unfoldable pub count_orders_since : Database → ℕ → String → Bool → ℕ
unfolding count_rows
count_orders_since db since mode include_emergency =
    count_rows (counts since mode include_emergency) db.orders

abbrev pub has_trade : TradeId → FillRow → Bool
has_trade t r = same_trade r.trade_id t

-- INSERT OR IGNORE: whether the row is new, and the table then.
unfoldable pub record_fill : Database → FillRow → Bool × Database
record_fill db r =
    if some_of (has_trade r.trade_id) db.fills
    then (false, db)
    else (true, record db { fills = db.fills ++ r ∷ [] })

-- ORDER BY ts, with the rows of one time in the order of their ids.
unfoldable pub place : FillRow → List FillRow → List FillRow
place r [] = r ∷ []
place r (s ∷ rs) = if leb r.ts s.ts then r ∷ s ∷ rs else s ∷ place r rs

unfoldable pub by_time : List FillRow → List FillRow
unfolding place
by_time [] = []
by_time (r ∷ rs) = place r (by_time rs)

unfoldable pub rows_where : (FillRow → Bool) → List FillRow → List FillRow
rows_where p [] = []
rows_where p (r ∷ rs) = if p r then r ∷ rows_where p rs else rows_where p rs

unfoldable pub fills_between : Database → ℕ → ℕ → String → List FillRow
unfolding by_time rows_where
fills_between db start end mode =
    by_time (rows_where (λ r. str_eq r.mode mode && leb start r.ts && ltb r.ts end) db.fills)

unfoldable pub record_stoploss : Database → String → String → ℕ → Database
record_stoploss db pair mode ts = record db {
  stoploss_events = db.stoploss_events ++ record { ts = ts; mode = mode; pair = pair } ∷ [];
}

abbrev later : ℕ → Option ℕ → ℕ
later ts none = ts
later ts (some old) = if ltb ts old then old else ts

-- SELECT pair, MAX(ts) ... GROUP BY pair
unfoldable pub last_times : String → List StopRow → Dict ℕ
unfolding lookup insert
last_times mode [] = []
last_times mode (r ∷ rs) =
    let rest = last_times mode rs in
    if str_eq r.mode mode then insert r.pair (later r.ts (lookup r.pair rest)) rest else rest

unfoldable pub last_stoploss_times : Database → String → Dict ℕ
unfolding last_times
last_stoploss_times db mode = last_times mode db.stoploss_events

unfoldable pub set_state : Database → String → Dict Decimal → Database
unfolding insert
set_state db key v = record db { state = insert key v db.state }

unfoldable pub get_state : Database → String → Dict Decimal → Dict Decimal
unfolding get_or
get_state db key default = get_or db.state key default
