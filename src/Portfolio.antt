-- ===== src/Portfolio.antt =====
-- agent/portfolio/portfolio.py: the agent's ledger. A method returns its result or its `ValueError`
-- together with the object as it stands afterwards, since what was written before a raise stays.
pub mod Invariant
pub mod Stops
mod Tests
use tio_indodax.Prelude.{
  ℕ, String, Bool, true, false, not, ◌&&◌, ◌||◌, Option, none, some, List, [], ◌∷◌, if◌then◌else◌,
  pos, ltb_ℤ, leb_ℤ, eqb_ℤ,
}
use tio_indodax.Decimal.{Decimal, ◌⊕◌, ◌⊖◌, ◌⊗◌, ◌⊘◌, max, sum}
use tio_indodax.Dict.{Dict, lookup, insert, erase}
use tio_indodax.Exchange.Models.{Side, buy, sell, other, ◌>>=◌}

pub record Position : Type 0 where
  pub pair : String
  pub qty : Decimal
  pub avg_cost : Decimal
  pub stop_loss : Option Decimal
  pub take_profit : Option Decimal
  pub opened_at : ℕ
  pub reason : String

unfoldable pub value : Position → Decimal → Decimal
value p price = p.qty ⊗ price

unfoldable pub unrealized : Position → Decimal → Decimal
unrealized p price = (price ⊖ p.avg_cost) ⊗ p.qty

pub record Portfolio : Type 0 where
  pub cash_idr : Decimal
  pub positions : Dict Position
  pub realized_pnl : Decimal
  pub fees_paid : Decimal

pub record FillResult : Type 0 where
  pub realized : Decimal
  pub position : Option Position

-- The messages of the `ValueError`s.
pub data LedgerError : Type 0 where
  bad_fill exceeds_cash no_shorting unknown_side : LedgerError

pub data Result (A : Type 0) : Type 0 where
  ok : A → Result A
  raised : LedgerError → Result A

-- How a fill ends, and the ledger then.
abbrev pub Outcome : Type 0
Outcome = Result FillResult × Portfolio

-- `__init__`; `none` is "cash cannot be negative".
unfoldable pub open_portfolio : Decimal → Option Portfolio
open_portfolio cash =
    if ltb_ℤ cash (pos 0)
    then none
    else some (record { cash_idr = cash; positions = []; realized_pnl = pos 0; fees_paid = pos 0 })

-- The arguments of `apply_fill`.
pub record Fill : Type 0 where
  pub pair : String
  pub side : Side
  pub qty : Decimal
  pub price : Decimal
  pub fee_idr : Decimal
  pub ts : ℕ
  pub stop_loss : Option Decimal
  pub take_profit : Option Decimal
  pub reason : String

-- Adding to a position must never loosen its stop.
abbrev pub merge_stop : Option Decimal → Option Decimal → Option Decimal
merge_stop (some new) (some old) = some (max new old)
merge_stop (some new) none = some new
merge_stop none old = old

abbrev or_else : Option Decimal → Option Decimal → Option Decimal
or_else none old = old
or_else (some new) _ = some new

-- The position after a buy of total cost `cost`.
unfoldable pub bought : Fill → Decimal → Option Position → Position
bought f cost none = record {
  pair = f.pair;
  qty = f.qty;
  avg_cost = cost ⊘ f.qty;
  stop_loss = f.stop_loss;
  take_profit = f.take_profit;
  opened_at = f.ts;
  reason = f.reason;
}
bought f cost (some p) = record p {
  qty = p.qty ⊕ f.qty;
  avg_cost = (p.avg_cost ⊗ p.qty ⊕ cost) ⊘ (p.qty ⊕ f.qty);
  stop_loss = merge_stop f.stop_loss p.stop_loss;
  take_profit = or_else f.take_profit p.take_profit;
}

unfoldable pub apply_buy : Portfolio → Fill → Bool → Outcome
unfolding bought
apply_buy pf f strict =
    let cost = f.qty ⊗ f.price ⊕ f.fee_idr in
    if ltb_ℤ pf.cash_idr cost && strict
    then (raised exceeds_cash, pf)
    else let new = bought f cost (lookup f.pair pf.positions) in
      (
        ok (record { realized = pos 0; position = some new }),
        record pf { cash_idr = pf.cash_idr ⊖ cost; positions = insert f.pair new pf.positions },
      )

-- The sale of a position that covers it.
unfoldable pub sold : Portfolio → Fill → Position → Outcome
sold pf f p =
    let proceeds = f.qty ⊗ f.price ⊖ f.fee_idr in
    let gain = proceeds ⊖ p.avg_cost ⊗ f.qty in
    let remaining = p.qty ⊖ f.qty in
    let paid = record pf {
      cash_idr = pf.cash_idr ⊕ proceeds;
      realized_pnl = pf.realized_pnl ⊕ gain;
    } in
    let left = record p { qty = remaining } in
    if eqb_ℤ remaining (pos 0)
    then (
      ok (record { realized = gain; position = none }),
      record paid { positions = erase f.pair pf.positions },
    )
    else (
      ok (record { realized = gain; position = some left }),
      record paid { positions = insert f.pair left pf.positions },
    )

unfoldable pub apply_sell : Portfolio → Fill → Option Position → Outcome
unfolding sold
apply_sell pf f none = (raised no_shorting, pf)
apply_sell pf f (some p) = if ltb_ℤ p.qty f.qty then (raised no_shorting, pf) else sold pf f p

abbrev pub by_side : Side → Portfolio → Fill → Bool → Outcome
by_side buy pf f strict = apply_buy pf f strict
by_side sell pf f strict = apply_sell pf f (lookup f.pair pf.positions)
by_side other pf f strict = (raised unknown_side, pf)

abbrev pub is_bad : Fill → Bool
is_bad f = leb_ℤ f.qty (pos 0) || leb_ℤ f.price (pos 0) || ltb_ℤ f.fee_idr (pos 0)

-- The fee is added before the side's own checks.
abbrev pub charge : Portfolio → Fill → Portfolio
charge pf f = record pf { fees_paid = pf.fees_paid ⊕ f.fee_idr }

unfoldable pub apply_fill : Portfolio → Fill → Bool → Outcome
unfolding apply_buy apply_sell lookup insert erase
apply_fill pf f strict =
    if is_bad f then (raised bad_fill, pf) else by_side f.side (charge pf f) f strict

abbrev pub not_above : Decimal → Option Decimal → Bool
not_above new none = false
not_above new (some old) = leb_ℤ new old

-- The ledger with the stop of a held pair moved.
abbrev pub moved : Portfolio → String → Decimal → Position → Portfolio
moved pf pair new_stop p = record pf {
  positions = insert pair (record p { stop_loss = some new_stop }) pf.positions;
}

-- `none` is the `KeyError` of a pair that is not held.
unfoldable pub raise_stop : Portfolio → String → Decimal → Option (Bool × Portfolio)
unfolding lookup insert
raise_stop pf pair new_stop = do
  p ← lookup pair pf.positions
  (if not_above new_stop p.stop_loss
      then some (false, pf)
      else some (true, moved pf pair new_stop p))

-- The sums over `prices[k]`; `none` is the `KeyError` of a missing price.
unfoldable pub priced :
    (Position → Decimal → Decimal) → Dict Position → Dict Decimal → Option (List Decimal)
priced f [] prices = some []
priced f ((k, p) ∷ ps) prices = do
  price ← lookup k prices
  rest ← priced f ps prices
  some (f p price ∷ rest)

unfoldable pub positions_value : Portfolio → Dict Decimal → Option Decimal
unfolding priced value
positions_value pf prices = do xs ← priced value pf.positions prices; some (sum xs)

unfoldable pub equity : Portfolio → Dict Decimal → Option Decimal
unfolding positions_value
equity pf prices = do v ← positions_value pf prices; some (pf.cash_idr ⊕ v)

unfoldable pub unrealized_pnl : Portfolio → Dict Decimal → Option Decimal
unfolding priced unrealized
unrealized_pnl pf prices = do xs ← priced unrealized pf.positions prices; some (sum xs)
