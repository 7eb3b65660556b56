-- ===== src/Live/Sent.antt =====
-- The requests to place orders: what `fill` and `send` do to the order rows and the requests.
use tio_indodax.Prelude.{
  ℕ, String, ◌≡◌, refl, Bool, true, false, Option, none, some, List, [], ◌∷◌, ◌++◌, arith,
  if◌then◌else◌, inl, inr, ◌⊎◌, Option-cases, if_cases, sym, ◌∙◌,
}
use mathlib.Core.Path.{subst}
use Prim.Native.Nat.{◌+◌}
use tio_indodax.Dict.{Dict}
use tio_indodax.Exchange.Models.{PairInfo}
use tio_indodax.Storage.{
  Database, Order, OrderId, live, same_id, find_order, get_order, record_order, record_fill,
  record_stoploss, set_state, FillRow,
}
use tio_indodax.Persistence.{save_stops}
use tio_indodax.Portfolio.{Portfolio, Fill, Outcome, ok, raised, apply_fill}
use tio_indodax.Calls.Keeps.{Keeps, keeps}
use tio_indodax.Paper.Walk.{FillEvent}
use tio_indodax.Live.Calls.{
  LiveExecutor, write, Exchange, place_limit, Placing, is_refused, requested,
}
use tio_indodax.Live.Fills.{FillReport, fill, book, book_report, entered, is_void, reported_fill}
use tio_indodax.Live.Execute.{send, insert_row}

-- The requests for the order of decision n.
unfoldable pub requests : ℕ → List OrderId → ℕ
requests n [] = 0
requests n (c ∷ cs) = (if same_id c (live n) then 1 else 0) + requests n cs

pub requests-append :
    (n : ℕ) (cs : List OrderId) (c : OrderId)
    → requests n (cs ++ c ∷ []) ≡ requests n cs + (if same_id c (live n) then 1 else 0)
unfolding requests
requests-append n [] c = omega arith
requests-append n (d ∷ cs) c = omega (arith, requests-append n cs c)

-- The order rows, the exchange and the pair rules are these.
abbrev pub AreRows : List Order → Exchange → Dict PairInfo → LiveExecutor → Type 0
AreRows rows client infos b = (b.db.orders ≡ rows) × (b.client ≡ client) × (b.infos ≡ infos)

module _ (rows : List Order) (client : Exchange) (infos : Dict PairInfo) where
  record_fill-rows : (r : FillRow) (db : Database) → (record_fill db r).1.orders ≡ db.orders
  unfolding record_fill
  record_fill-rows r db =
      if_cases (λ (x : Bool × Database). x.1.orders ≡ db.orders) _ _ _ (λ _. refl) (λ _. refl)

  entered-AreRows :
      (b : LiveExecutor) (o : FillReport) (f : Fill) (r : Outcome)
      → AreRows rows client infos b
      → AreRows rows client infos (entered b o f r).1
  entered-AreRows b o f (ok r, pf) (e, c, i) = (record_fill-rows _ b.db ∙ e, c, i)
  entered-AreRows b o f (raised x, pf) p = p

  book-Keeps : (o : FillReport) (f : Fill) → Keeps (AreRows rows client infos) (book o f)
  unfolding book
  book-Keeps o f = record { holds = λ b p. entered-AreRows b o f (apply_fill b.pf f false) p }

  stop_event-Keeps :
      (test : Bool) (pair mode : String) (now : ℕ)
      → Keeps
          (AreRows rows client infos)
          (write (λ db. if test then record_stoploss db pair mode now else db))
  unfolding record_stoploss
  stop_event-Keeps true pair mode now = record { holds = λ b p. p }
  stop_event-Keeps false pair mode now = record { holds = λ b p. p }

  save_stops-Keeps :
      (mode : String) (pf : Portfolio)
      → Keeps (AreRows rows client infos) (write (λ db. save_stops db mode pf))
  unfolding save_stops set_state
  save_stops-Keeps mode pf = record { holds = λ b p. p }

  book_report-Keeps :
      (o : FillReport) (f : Fill) → Keeps (AreRows rows client infos) (book_report o f)
  unfolding book_report
  book_report-Keeps o f = search (keeps, book-Keeps, stop_event-Keeps, save_stops-Keeps) depth 20

  pub fill-AreRows :
      (o : FillReport) (b : LiveExecutor)
      → AreRows rows client infos b
      → AreRows rows client infos (fill o b).1
  unfolding fill
  fill-AreRows o b p =
      if_cases (λ (r : Option (List FillEvent) × LiveExecutor). AreRows rows client infos r.1)
        (is_void b o) _ _ (λ _. p) (λ _. (book_report-Keeps o (reported_fill b o)).holds b p)

-- The executor with a new row.
abbrev pub with_row : Order → LiveExecutor → LiveExecutor
with_row o b = record b { db = record b.db { orders = b.db.orders ++ o ∷ [] } }

abbrev pub with_request : Order → LiveExecutor → LiveExecutor
with_request o b = record (with_row o b) { client = requested b.client o }

-- `send` meets a row that is taken, leaves a new row, or leaves a new row and a request.
pub send_cases :
    (P : LiveExecutor → Type 0) (o : Order) (b : LiveExecutor)
    → P b
    → (find_order o.client_order_id b.db.orders ≡ none → P (with_row o b))
    → (find_order o.client_order_id b.db.orders ≡ none → P (with_request o b))
    → P (send o b).1
unfolding send insert_row record_order get_order place_limit
send_cases P o b taken new asked = elim (Option-cases (find_order o.client_order_id b.db.orders)) [
  | inl fresh ↦
      rw (fresh, insert_row, record_order, get_order)
        (if_cases (λ (r : Option Placing × LiveExecutor). P r.1) (is_refused o) _ _ (λ _. new fresh)
          (λ _. asked fresh))
  | inr (x, there) ↦ rw (there, insert_row, record_order, get_order) taken
]

-- A property of the rows and the exchange.
abbrev pub Of : (List Order → Exchange → Type 0) → LiveExecutor → Type 0
Of P b = P b.db.orders b.client

pub fill-Of : (P : List Order → Exchange → Type 0) (o : FillReport) → Keeps (Of P) (fill o)
fill-Of P o = record {
  holds = λ b p.
      let (rows, client, _) = fill-AreRows b.db.orders b.client b.infos o b (refl, refl, refl) in
      subst (λ c. P (fill o b).1.db.orders c) (sym client)
        (subst (λ os. P os b.client) (sym rows) p);
}

-- A row that is known stays, and its order is not requested again.
abbrev pub NotAgain : ℕ → ℕ → List Order → Exchange → Type 0
NotAgain n count rows client =
    ((o : Order) × (find_order (live n) rows ≡ some o)) × (requests n client.sent ≡ count)

-- No request yet, or one and the row is known.
abbrev pub AtMostOne : ℕ → List Order → Exchange → Type 0
AtMostOne n rows client = (requests n client.sent ≡ 0) ⊎ NotAgain n 1 rows client
