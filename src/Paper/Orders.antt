-- ===== src/Paper/Orders.antt =====
-- No call of the paper broker forgets an order.
use tio_indodax.Prelude.{
  ℕ, String, ◌≡◌, refl, Bool, true, false, Option, none, some, List, [], ◌∷◌, ◌++◌, if◌then◌else◌,
  inl, inr, Bool-cases, Option-cases, if_cases, ==_iff,
}
use tio_indodax.Dict.{Dict, lookup}
use tio_indodax.Storage.{
  Database, Order, OrderId, paper, Update, update_order, find_order, get_order, record_order,
  record_fill, record_stoploss, set_state, FillRow,
}
use tio_indodax.Storage.Rows.{find_updated, find_append, find_new}
use tio_indodax.Persistence.{save_stops}
use tio_indodax.Portfolio.{Portfolio, Fill, Outcome, ok, raised, apply_fill}
use tio_indodax.Risk.Types.{RiskDecision, approved}
use tio_indodax.Calls.{then_}
use tio_indodax.Paper.Calls.{PaperBroker, Action, write}
use tio_indodax.Paper.Walk.{PairMarket}
use tio_indodax.Paper.Fills.{FillOrder, fill_order, apply_to_ledger, settled}
use tio_indodax.Paper.Execute.{execute, submit, take_now, insert_order, new_order}
use tio_indodax.Paper.Resting.{
  is_touched, check_orders, check_order, fill_resting, expire, cancel_rows,
}
use tio_indodax.Calls.Keeps.{Keeps, keeps, return-Keeps, bind-Keeps}

-- The order of the decision is in the database.
abbrev pub IsKnown : ℕ → Database → Type 0
IsKnown n db = (o : Order) × (find_order (paper n) db.orders ≡ some o)

abbrev pub Known : ℕ → PaperBroker → Type 0
Known n b = IsKnown n b.db

module _ (n : ℕ) where
  update_order-IsKnown :
      (c : OrderId) (u : Update) (ts : ℕ) (db : Database)
      → IsKnown n db
      → IsKnown n (update_order db c u ts)
  unfolding update_order
  update_order-IsKnown c u ts db (o, e) = find_updated (paper n) c u ts db.orders o e

  record_fill-IsKnown :
      (r : FillRow) (db : Database) → IsKnown n db → IsKnown n (record_fill db r).1
  unfolding record_fill
  record_fill-IsKnown r db k =
      if_cases (λ (x : Bool × Database). IsKnown n x.1) _ _ _ (λ _. k) (λ _. k)

  settled-Known : (b : PaperBroker) (r : Outcome) → Known n b → Known n (settled b r).1
  settled-Known b (ok r, pf) k = k
  settled-Known b (raised e, pf) k = k

  apply_to_ledger-Keeps : (f : Fill) → Keeps (Known n) (apply_to_ledger f)
  unfolding apply_to_ledger
  apply_to_ledger-Keeps f = record { holds = λ b k. settled-Known b (apply_fill b.pf f true) k }

  write-Keeps :
      (f : Database → Database)
      → ((db : Database) → IsKnown n db → IsKnown n (f db))
      → Keeps (Known n) (write f)
  write-Keeps f h = record { holds = λ b k. h b.db k }

  save_stops-IsKnown :
      (mode : String) (pf : Portfolio) (db : Database)
      → IsKnown n db
      → IsKnown n (save_stops db mode pf)
  unfolding save_stops set_state
  save_stops-IsKnown mode pf db k = k

  stop_event-IsKnown :
      (test : Bool) (pair mode : String) (now : ℕ) (db : Database)
      → IsKnown n db
      → IsKnown n (if test then record_stoploss db pair mode now else db)
  unfolding record_stoploss
  stop_event-IsKnown true pair mode now db k = k
  stop_event-IsKnown false pair mode now db k = k

  ruleset known = (
    keeps, write-Keeps, apply_to_ledger-Keeps, record_fill-IsKnown, save_stops-IsKnown,
    stop_event-IsKnown, update_order-IsKnown,
  )

  fill_order-Keeps : (o : FillOrder) → Keeps (Known n) (fill_order o)
  unfolding fill_order
  fill_order-Keeps o = search known depth 20

  take_now-Keeps :
      (m : ℕ) (d : RiskDecision) (mk : PairMarket) (now : ℕ) → Keeps (Known n) (take_now m d mk now)
  unfolding take_now
  take_now-Keeps m d mk now = search (known, fill_order-Keeps) depth 24

  fill_resting-Keeps :
      (o : Order) (mk : PairMarket) (now : ℕ) → Keeps (Known n) (fill_resting o mk now)
  unfolding fill_resting
  fill_resting-Keeps o mk now = search (known, fill_order-Keeps) depth 24

  expired-IsKnown :
      (test : Bool) (c : OrderId) (u : Update) (now : ℕ) (db : Database)
      → IsKnown n db
      → IsKnown n (if test then update_order db c u now else db)
  expired-IsKnown true c u now db k = update_order-IsKnown c u now db k
  expired-IsKnown false c u now db k = k

  expire-Keeps : (o : Order) (now : ℕ) → Keeps (Known n) (expire o now)
  unfolding expire
  expire-Keeps o now = search (known, expired-IsKnown) depth 24

  matched-Keeps :
      (o : Order) (found : Option PairMarket) (now : ℕ)
      → Keeps (Known n) (elim found [
        | none ↦ expire o now
        | some m ↦ if is_touched o m then fill_resting o m now else expire o now
      ])
  matched-Keeps o none now = expire-Keeps o now
  matched-Keeps o (some m) now = search (keeps, fill_resting-Keeps, expire-Keeps) depth 8

  check_order-Keeps :
      (markets : Dict PairMarket) (now : ℕ) (o : Order)
      → Keeps (Known n) (check_order markets now o)
  unfolding check_order
  check_order-Keeps markets now o = matched-Keeps o (lookup o.pair markets) now

  pub check_orders-Keeps :
      (markets : Dict PairMarket) (now : ℕ) (os : List Order)
      → Keeps (Known n) (check_orders markets now os)
  unfolding check_orders
  check_orders-Keeps markets now [] = return-Keeps []
  check_orders-Keeps markets now (o ∷ os) =
      bind-Keeps (check_order markets now o) _ (check_order-Keeps markets now o) (λ events.
        bind-Keeps (check_orders markets now os) _ (check_orders-Keeps markets now os)
          (λ more. return-Keeps (events ++ more)))

  pub cancel_rows-IsKnown :
      (now : ℕ) (os : List Order) (db : Database) → IsKnown n db → IsKnown n (cancel_rows now os db)
  unfolding cancel_rows
  cancel_rows-IsKnown now [] db k = k
  cancel_rows-IsKnown now (o ∷ os) db k =
      cancel_rows-IsKnown now os _ (update_order-IsKnown o.client_order_id _ now db k)

  insert_order-Known : (o : Order) (b : PaperBroker) → Known n b → Known n (insert_order o b).1
  unfolding insert_order record_order get_order
  insert_order-Known o b (x, e) = elim (Option-cases (find_order o.client_order_id b.db.orders)) [
    | inl fresh ↦
        rw (fresh, insert_order, record_order, get_order)
          (x, find_append (paper n) b.db.orders x o e)
    | inr (y, taken) ↦ rw (taken, insert_order, record_order, get_order) (x, e)
  ]

  insert_order-Keeps : (o : Order) → Keeps (Known n) (insert_order o)
  insert_order-Keeps o = record { holds = insert_order-Known o }

  submit-Keeps :
      (m : ℕ) (d : RiskDecision) (mk : PairMarket) (now : ℕ) → Keeps (Known n) (submit m d mk now)
  unfolding submit
  submit-Keeps m d mk now = search (known, take_now-Keeps, insert_order-Keeps) depth 24

  pub execute-Known :
      (m : ℕ) (d : RiskDecision) (mk : PairMarket) (now : ℕ) (b : PaperBroker)
      → Known n b
      → Known n (execute m d mk now b).1
  unfolding execute
  execute-Known m d mk now b k = elim (Bool-cases (approved d)) [
    | inl go ↦ elim (Option-cases (get_order b.db (paper m))) [
      | inl fresh ↦ rw (go, fresh) ((submit-Keeps m d mk now).holds b k)
      | inr (o, taken) ↦ rw (go, taken) k
    ]
    | inr vetoed ↦ rw vetoed k
  ]

  new_order-Known :
      (d : RiskDecision) (mode : String) (now : ℕ) (b : PaperBroker)
      → get_order b.db (paper n) ≡ none
      → Known n (insert_order (new_order n d mode now) b).1
  unfolding insert_order record_order get_order
  new_order-Known d mode now b fresh =
      rw (fresh, insert_order, record_order, get_order)
        (_, find_new (paper n) b.db.orders (new_order n d mode now) fresh ((==_iff n n).1 refl))

  then_Known :
      {A B : Type 0} (r : Option A × PaperBroker) (f : A → Action B)
      → Known n r.1
      → ((a : A) → Keeps (Known n) (f a))
      → Known n (then_ r f).1
  then_Known (none, b) f k h = k
  then_Known (some a, b) f k h = (h a).holds b k

  pub submit-Known :
      (d : RiskDecision) (mk : PairMarket) (now : ℕ) (b : PaperBroker)
      → get_order b.db (paper n) ≡ none
      → Known n (submit n d mk now b).1
  unfolding submit
  submit-Known d mk now b fresh =
      then_Known (insert_order (new_order n d b.mode now) b) _
        (new_order-Known d b.mode now b fresh) (λ _. search (keeps, take_now-Keeps) depth 8)
