-- ===== src/Paper/Once.antt =====
-- A decision is executed at most once.
use tio_indodax.Prelude.{
  ℕ, ◌≡◌, refl, true, some, List, [], ◌∷◌, inl, inr, Bool-cases, Option-cases,
}
use tio_indodax.Dict.{Dict}
use tio_indodax.Storage.{paper, get_order}
use tio_indodax.Risk.Types.{RiskDecision, approved}
use tio_indodax.Paper.Calls.{PaperBroker}
use tio_indodax.Paper.Walk.{PairMarket}
use tio_indodax.Paper.Execute.{execute}
use tio_indodax.Paper.Resting.{check_resting, cancel_all}
use tio_indodax.Paper.Orders.{
  Known, check_orders-Keeps, cancel_rows-IsKnown, execute-Known, submit-Known,
}

-- Every call on the broker.
pub data BrokerCall : Type 0 where
  execute_call : ℕ → RiskDecision → PairMarket → ℕ → BrokerCall
  check_call : Dict PairMarket → ℕ → BrokerCall
  cancel_call : ℕ → BrokerCall

-- The broker after a call, also where it raised.
unfoldable pub after_call : PaperBroker → BrokerCall → PaperBroker
after_call b (execute_call n d m now) = (execute n d m now b).1
after_call b (check_call markets now) = (check_resting markets now b).1
after_call b (cancel_call now) = (cancel_all now b).1

unfoldable pub after_calls : PaperBroker → List BrokerCall → PaperBroker
unfolding after_call
after_calls b [] = b
after_calls b (c ∷ cs) = after_calls (after_call b c) cs

after_call-Known : (n : ℕ) (b : PaperBroker) (c : BrokerCall) → Known n b → Known n (after_call b c)
unfolding after_call check_resting cancel_all
after_call-Known n b (execute_call m d mk now) k = execute-Known n m d mk now b k
after_call-Known n b (check_call markets now) k = (check_orders-Keeps n markets now _).holds b k
after_call-Known n b (cancel_call now) k = cancel_rows-IsKnown n now _ b.db k

after_calls-Known :
    (n : ℕ) (b : PaperBroker) (cs : List BrokerCall) → Known n b → Known n (after_calls b cs)
unfolding after_calls
after_calls-Known n b [] k = k
after_calls-Known n b (c ∷ cs) k =
    after_calls-Known n (after_call b c) cs (after_call-Known n b c k)

executed-Known :
    (n : ℕ) (d : RiskDecision) (m : PairMarket) (now : ℕ) (b : PaperBroker)
    → approved d ≡ true
    → Known n (execute n d m now b).1
unfolding execute get_order
executed-Known n d m now b go = elim (Option-cases (get_order b.db (paper n))) [
  | inl fresh ↦ rw (go, fresh) (submit-Known n d m now b fresh)
  | inr (o, taken) ↦ rw (go, taken) (o, taken)
]

Known-again :
    (n : ℕ) (d : RiskDecision) (m : PairMarket) (now : ℕ) (b : PaperBroker)
    → Known n b
    → execute n d m now b ≡ (some [], b)
unfolding execute get_order
Known-again n d m now b (o, known) = elim (Bool-cases (approved d)) [
  | inl go ↦ rw (go, known) refl
  | inr vetoed ↦ rw vetoed refl
]

-- Once an approved decision has been executed, with whatever outcome, an exception included, and
-- after any further calls on the broker, executing the decision again returns no fills and leaves
-- the broker, its ledger and its database as they are.
pub executed_once :
    (n : ℕ) (d d' : RiskDecision) (m m' : PairMarket) (now now' : ℕ) (b : PaperBroker)
    (cs : List BrokerCall)
    → approved d ≡ true
    → execute n d' m' now' (after_calls (execute n d m now b).1 cs)
      ≡ (some [], after_calls (execute n d m now b).1 cs)
executed_once n d d' m m' now now' b cs go =
    Known-again n d' m' now' (after_calls (execute n d m now b).1 cs)
      (after_calls-Known n (execute n d m now b).1 cs (executed-Known n d m now b go))
