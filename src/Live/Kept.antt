-- ===== src/Live/Kept.antt =====
-- What every call of the live executor keeps, from what its requests and writes keep.
use tio_indodax.Prelude.{
  ℕ, String, Bool, true, false, Option, none, some, List, [], ◌∷◌, ◌++◌, if◌then◌else◌, inl, inr,
  Option-cases,
}
use tio_indodax.Decimal.{Decimal}
use tio_indodax.Dict.{Dict}
use tio_indodax.Exchange.Models.{PairInfo, is_sell}
use tio_indodax.Storage.{Order, OrderId, Update, get_order, update_order}
use tio_indodax.Risk.Types.{RiskDecision}
use tio_indodax.Calls.{return}
use tio_indodax.Calls.Keeps.{
  Keeps, keeps, return-Keeps, bind-Keeps, next-Keeps, if-Keeps, read-Keeps,
}
use tio_indodax.Paper.Walk.{FillEvent, PairMarket}
use tio_indodax.Live.Remote.{OrderAck, OrderState}
use tio_indodax.Live.Calls.{
  LiveExecutor, write, learn_info, Placing, acknowledged, already_exists, refused, unknown, Looking,
  found, not_found, lookup_failed, Cancelling, done, cancel_failed, get_order_by_coid, cancel,
}
use tio_indodax.Live.Fills.{FillReport, fill, apply_state}
use tio_indodax.Live.Orders.{
  resolve, get_row, not_there, looked_up, cancel_row, cancelled_row, cancel_those, cancel_pair,
  cancel_all, check_order, check_orders, check_resting, learn_infos, resting_orders, in_pair,
}
use tio_indodax.Live.Execute.{
  send, answered, book_ack, submit, execute_sell, execute_new, execute, once, sell_price, sell_qty,
}

-- The requests and writes that a call is made of.
pub record IsKept (P : LiveExecutor → Type 0) : Type 0 where
  pub fills : (o : FillReport) → Keeps P (fill o)
  pub updates :
      (c : OrderId) (u : Update) (now : ℕ) (b : LiveExecutor)
      → P b
      → P (record b { db = update_order b.db c u now })
  pub learns : (pair : String) (info : PairInfo) → Keeps P (learn_info pair info)
  pub looks : (c : OrderId) → Keeps P (get_order_by_coid c)
  pub cancels : (o : Order) → Keeps P (cancel o)
  pub sends : (o : Order) → Keeps P (send o)

module _ {P : LiveExecutor → Type 0} (k : IsKept P) where
  update-Keeps :
      (c : OrderId) (u : Update) (now : ℕ) → Keeps P (write (λ db. update_order db c u now))
  update-Keeps c u now = record { holds = λ b p. k.updates c u now b p }

  updated_if :
      (test : Bool) (c : OrderId) (u : Update) (now : ℕ) (b : LiveExecutor)
      → P b
      → P (record b { db = if test then update_order b.db c u now else b.db })
  updated_if true c u now b p = k.updates c u now b p
  updated_if false c u now b p = p

  update_if-Keeps :
      (test : Bool) (c : OrderId) (u : Update) (now : ℕ)
      → Keeps P (write (λ db. if test then update_order db c u now else db))
  update_if-Keeps test c u now = record { holds = λ b p. updated_if test c u now b p }

  fill-Keeps : (o : FillReport) → Keeps P (fill o)
  fill-Keeps o = k.fills o

  learn_info-Keeps : (pair : String) (info : PairInfo) → Keeps P (learn_info pair info)
  learn_info-Keeps pair info = k.learns pair info

  get_order_by_coid-Keeps : (c : OrderId) → Keeps P (get_order_by_coid c)
  get_order_by_coid-Keeps c = k.looks c

  cancel-Keeps : (o : Order) → Keeps P (cancel o)
  cancel-Keeps o = k.cancels o

  send-Keeps : (o : Order) → Keeps P (send o)
  send-Keeps o = k.sends o

  ruleset kept = (
    keeps, update-Keeps, update_if-Keeps, fill-Keeps, learn_info-Keeps, get_order_by_coid-Keeps,
    cancel-Keeps, send-Keeps,
  )

  apply_state-Keeps : (o : Order) (st : OrderState) (now : ℕ) → Keeps P (apply_state o st now)
  unfolding apply_state
  apply_state-Keeps o st now = search kept depth 16

  not_there-Keeps : (o : Order) (c : OrderId) (now : ℕ) → Keeps P (not_there o c now)
  unfolding not_there
  not_there-Keeps o c now = search kept depth 16

  looked_up-Keeps :
      (o : Order) (c : OrderId) (now : ℕ) (answer : Looking) → Keeps P (looked_up o c now answer)
  looked_up-Keeps o c now lookup_failed = return-Keeps []
  looked_up-Keeps o c now not_found = not_there-Keeps o c now
  looked_up-Keeps o c now (found st) = apply_state-Keeps o st now

  get_row-Keeps : (c : OrderId) → Keeps P (get_row c)
  unfolding get_row
  get_row-Keeps c = record {
    holds = λ b p. elim (Option-cases (get_order b.db c)) [
      | inl missing ↦ rw (missing, get_row) p
      | inr (o, there) ↦ rw (there, get_row) p
    ];
  }

  pub resolve-Keeps : (c : OrderId) (now : ℕ) → Keeps P (resolve c now)
  unfolding resolve
  resolve-Keeps c now = search (kept, get_row-Keeps, looked_up-Keeps) depth 16

  cancelled_row-Keeps :
      (o : Order) (now : ℕ) (answer : Cancelling) → Keeps P (cancelled_row o now answer)
  cancelled_row-Keeps o now cancel_failed = return-Keeps []
  cancelled_row-Keeps o now done = resolve-Keeps o.client_order_id now

  cancel_row-Keeps : (o : Order) (now : ℕ) → Keeps P (cancel_row o now)
  unfolding cancel_row
  cancel_row-Keeps o now = search (kept, cancelled_row-Keeps) depth 16

  cancel_those-Keeps :
      (p : Order → Bool) (os : List Order) (now : ℕ) → Keeps P (cancel_those p os now)
  unfolding cancel_those
  cancel_those-Keeps p [] now = return-Keeps []
  cancel_those-Keeps p (o ∷ os) now =
      bind-Keeps _ _ (if-Keeps (p o) _ _ (cancel_row-Keeps o now) (return-Keeps [])) (λ events.
        bind-Keeps _ _ (cancel_those-Keeps p os now) (λ more. return-Keeps (events ++ more)))

  cancel_pair-Keeps : (pair : String) (now : ℕ) → Keeps P (cancel_pair pair now)
  unfolding cancel_pair
  cancel_pair-Keeps pair now = record {
    holds = λ b p. (cancel_those-Keeps (in_pair pair) (resting_orders b) now).holds b p;
  }

  pub cancel_all-Keeps : (now : ℕ) → Keeps P (cancel_all now)
  unfolding cancel_all
  cancel_all-Keeps now = search (kept, cancel_those-Keeps) depth 16

  check_order-Keeps : (c : OrderId) (now : ℕ) → Keeps P (check_order c now)
  unfolding check_order
  check_order-Keeps c now = search (kept, resolve-Keeps, get_row-Keeps, cancel_row-Keeps) depth 20

  check_orders-Keeps : (os : List Order) (now : ℕ) → Keeps P (check_orders os now)
  unfolding check_orders
  check_orders-Keeps [] now = return-Keeps []
  check_orders-Keeps (o ∷ os) now =
      bind-Keeps _ _ (check_order-Keeps o.client_order_id now) (λ events.
        bind-Keeps _ _ (check_orders-Keeps os now) (λ more. return-Keeps (events ++ more)))

  learn_infos-Keeps : (markets : Dict PairMarket) → Keeps P (learn_infos markets)
  unfolding learn_infos
  learn_infos-Keeps [] = return-Keeps tt
  learn_infos-Keeps ((p, m) ∷ rest) = next-Keeps _ _ (k.learns p m.info) (learn_infos-Keeps rest)

  pub check_resting-Keeps :
      (markets : Dict PairMarket) (now : ℕ) → Keeps P (check_resting markets now)
  unfolding check_resting
  check_resting-Keeps markets now = search (kept, learn_infos-Keeps, check_orders-Keeps) depth 16

  book_ack-Keeps :
      (n : ℕ) (d : RiskDecision) (ack : OrderAck) (price : Decimal) (now : ℕ)
      → Keeps P (book_ack n d ack price now)
  unfolding book_ack
  book_ack-Keeps n d ack price now = search kept depth 16

  answered-Keeps :
      (n : ℕ) (d : RiskDecision) (price : Decimal) (now : ℕ) (events : List FillEvent)
      (answer : Placing)
      → Keeps P (answered n d price now events answer)
  unfolding answered
  answered-Keeps n d price now events refused = search kept depth 16
  answered-Keeps n d price now events already_exists = search (kept, resolve-Keeps) depth 16
  answered-Keeps n d price now events unknown = search (kept, resolve-Keeps) depth 16
  answered-Keeps n d price now events (acknowledged ack) =
      search (kept, resolve-Keeps, book_ack-Keeps) depth 20

  submit-Keeps :
      (n : ℕ) (d : RiskDecision) (qty price : Decimal) (now : ℕ) (events : List FillEvent)
      → Keeps P (submit n d qty price now events)
  unfolding submit
  submit-Keeps n d qty price now events = search (kept, answered-Keeps) depth 20

  priced-Keeps :
      (n : ℕ) (d : RiskDecision) (qty : Decimal) (price : Option Decimal) (now : ℕ)
      (events : List FillEvent)
      → Keeps P (elim price [ none ↦ return events | some price ↦ submit n d qty price now events ])
  priced-Keeps n d qty none now events = return-Keeps events
  priced-Keeps n d qty (some price) now events = submit-Keeps n d qty price now events

  execute_sell-Keeps :
      (n : ℕ) (d : RiskDecision) (m : PairMarket) (now : ℕ) → Keeps P (execute_sell n d m now)
  unfolding execute_sell
  execute_sell-Keeps n d m now = bind-Keeps _ _ (cancel_pair-Keeps d.proposal.pair now) (λ events.
      bind-Keeps _ _ read-Keeps (λ b.
        if-Keeps _ _ _ (return-Keeps events)
          (priced-Keeps n d (sell_qty b d m) (sell_price b d m) now events)))

  execute_new-Keeps :
      (n : ℕ) (d : RiskDecision) (m : PairMarket) (now : ℕ) → Keeps P (execute_new n d m now)
  unfolding execute_new
  execute_new-Keeps n d m now =
      if-Keeps (is_sell d.proposal.side) _ _ (execute_sell-Keeps n d m now)
        (submit-Keeps n d d.qty d.price now [])

  once-Keeps :
      (n : ℕ) (d : RiskDecision) (m : PairMarket) (now : ℕ) (row : Option Order)
      → Keeps P (once n d m now row)
  once-Keeps n d m now none = execute_new-Keeps n d m now
  once-Keeps n d m now (some o) = return-Keeps []

  pub execute-Keeps :
      (n : ℕ) (d : RiskDecision) (m : PairMarket) (now : ℕ) → Keeps P (execute n d m now)
  unfolding execute
  execute-Keeps n d m now = search (kept, once-Keeps) depth 20
