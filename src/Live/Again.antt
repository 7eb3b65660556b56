-- ===== src/Live/Again.antt =====
-- agent/execution/executor.py: reading an order's state again books nothing.
use tio_indodax.Prelude.{
  ℕ, ◌≡◌, refl, false, Option, some, none, List, [], arith, ap, ◌∙◌, if◌then◌else◌, pos, ◌≤ℤ◌,
}
use tio_indodax.Decimal.{Decimal, ◌⊖◌, max}
use tio_indodax.Decimal.Rounding.{IsShort-small}
use tio_indodax.Decimal.Laws.{rounded_le}
use mathlib.Core.Path.{subst}
use tio_indodax.Storage.{Database, Order, get_order, update_order, updated}
use tio_indodax.Storage.Rows.{find_same}
use tio_indodax.Calls.{return, ◌>>◌, then_}
use tio_indodax.Calls.Keeps.{Keeps, if-Keeps, return-Keeps}
use tio_indodax.Paper.Walk.{FillEvent}
use tio_indodax.Live.Calls.{LiveExecutor, write}
use tio_indodax.Live.Fills.{fill, apply_state, has_more, state_report, state_update, cumulative_of}
use tio_indodax.Live.Sent.{AreRows, fill-AreRows}
use tio_indodax.Live.Remote.{OrderState}

⊖_nonpos : (a b : Decimal) → a ≤ℤ b → a ⊖ b ≤ℤ pos 0
unfolding ◌⊖◌
⊖_nonpos a b h = rounded_le _ _ 1 0 (omega arith) (IsShort-small 0 (omega arith)) (omega arith)

-- Where `_apply_state` does not raise, it ends with the write to the row.
written_last :
    (r : Option (List FillEvent) × LiveExecutor) (g : Database → Database) (events : List FillEvent)
    → (then_ r (λ e. write g >> return e)).0 ≡ some events
    → (then_ r (λ e. write g >> return e)).1 ≡ record r.1 { db = g r.1.db }
written_last (none, b) g events h = absurd (ground arith)
written_last (some e, b) g events h = refl

booked_rows :
    (o : Order) (st : OrderState) (now : ℕ) (b : LiveExecutor)
    → AreRows b.db.orders b.client b.infos
        ((if has_more b o st then fill (state_report b o st now) else return []) b).1
booked_rows o st now b =
    let booked : Keeps (AreRows b.db.orders b.client b.infos) (fill (state_report b o st now)) =
      record { holds = fill-AreRows b.db.orders b.client b.infos (state_report b o st now) } in
    (if-Keeps (has_more b o st) _ _ booked (return-Keeps [])).holds b (refl, refl, refl)

-- The row and the pair rules after the state has been applied.
applied_row :
    (o : Order) (st : OrderState) (now : ℕ) (b : LiveExecutor) (events : List FillEvent)
    → get_order b.db o.client_order_id ≡ some o
    → (apply_state o st now b).0 ≡ some events
    → (get_order (apply_state o st now b).1.db o.client_order_id
        ≡ some (updated (state_update b o st) now o))
      × ((apply_state o st now b).1.infos ≡ b.infos)
unfolding apply_state get_order update_order
applied_row o st now b events here done =
    let (rows, _, infos) = booked_rows o st now b in
    let u = state_update b o st in
    let last = written_last _ (λ db. update_order db o.client_order_id u now) events done in
    (
      rw (last, rows) (find_same o.client_order_id u now b.db.orders o here),
      ap (λ x. x.infos) last ∙ infos,
    )

nothing_more :
    (o : Order) (st : OrderState) (now : ℕ) (b : LiveExecutor)
    → has_more b o st ≡ false
    → ((apply_state o st now b).0 ≡ some [])
      × ((apply_state o st now b).1.pf ≡ b.pf)
      × ((apply_state o st now b).1.db.fills ≡ b.db.fills)
      × ((apply_state o st now b).1.db.stoploss_events ≡ b.db.stoploss_events)
unfolding apply_state update_order
nothing_more o st now b none_left = rw (none_left, apply_state) (refl, refl, refl, refl)

nothing_left :
    (o : Order) (st : OrderState) (now : ℕ) (b b' : LiveExecutor)
    → b'.infos ≡ b.infos
    → has_more b' (updated (state_update b o st) now o) st ≡ false
unfolding updated
nothing_left o st now b b' same = rw same (
    let recorded = o.filled_qty in
    let cumulative = cumulative_of b o st in
    let le : cumulative ⊖ max cumulative recorded ≤ℤ pos 0 =
      ⊖_nonpos cumulative (max cumulative recorded) (ground arith) in
    ground arith)

-- Once a state that the exchange reports of an order has been applied, applying the same state to the
-- row as it then stands books nothing: it returns no fill and leaves the ledger, the fills and the
-- stop-loss events as they are.
pub applied_once :
    (o o' : Order) (st : OrderState) (now now' : ℕ) (b : LiveExecutor) (events : List FillEvent)
    → get_order b.db o.client_order_id ≡ some o
    → (apply_state o st now b).0 ≡ some events
    → get_order (apply_state o st now b).1.db o.client_order_id ≡ some o'
    → let after = (apply_state o st now b).1 in
      ((apply_state o' st now' after).0 ≡ some [])
      × ((apply_state o' st now' after).1.pf ≡ after.pf)
      × ((apply_state o' st now' after).1.db.fills ≡ after.db.fills)
      × ((apply_state o' st now' after).1.db.stoploss_events ≡ after.db.stoploss_events)
applied_once o o' st now now' b events here done again =
    let (row, infos) = applied_row o st now b events here done in
    let same : updated (state_update b o st) now o ≡ o' = ground arith in
    nothing_more o' st now' (apply_state o st now b).1 (
      subst (λ x. has_more (apply_state o st now b).1 x st ≡ false) same
        (nothing_left o st now b (apply_state o st now b).1 infos))
