-- ===== src/Live/Once.antt =====
-- The live executor asks the exchange at most once for the order of a decision.
use tio_indodax.Prelude.{
  ℕ, ◌≡◌, refl, true, false, none, some, List, [], ◌∷◌, ◌++◌, arith, inl, inr, ◌≤◌, Bool-cases,
  ==_iff, ap,
}
use mathlib.Core.Path.{subst}
use tio_indodax.Dict.{Dict}
use tio_indodax.Storage.{
  Order, OrderId, live, paper, other_id, same_id, Update, update_order, find_order,
}
use tio_indodax.Storage.Rows.{find_updated, find_append, find_new}
use tio_indodax.Risk.Types.{RiskDecision}
use tio_indodax.Paper.Walk.{PairMarket}
use tio_indodax.Live.Calls.{
  LiveExecutor, Exchange, learn_info, get_order_by_coid, cancel, requested,
}
use tio_indodax.Live.Orders.{check_resting, cancel_all}
use tio_indodax.Live.Execute.{send, execute}
use tio_indodax.Live.Kept.{IsKept, execute-Keeps, check_resting-Keeps, cancel_all-Keeps}
use tio_indodax.Live.Sent.{requests, requests-append, send_cases, Of, fill-Of, NotAgain, AtMostOne}

-- Every call on the executor.
pub data ExecutorCall : Type 0 where
  execute_call : ℕ → RiskDecision → PairMarket → ℕ → ExecutorCall
  check_call : Dict PairMarket → ℕ → ExecutorCall
  cancel_call : ℕ → ExecutorCall

-- The executor after a call, also where it raised.
unfoldable pub after_call : LiveExecutor → ExecutorCall → LiveExecutor
after_call b (execute_call n d m now) = (execute n d m now b).1
after_call b (check_call markets now) = (check_resting markets now b).1
after_call b (cancel_call now) = (cancel_all now b).1

unfoldable pub after_calls : LiveExecutor → List ExecutorCall → LiveExecutor
unfolding after_call
after_calls b [] = b
after_calls b (c ∷ cs) = after_calls (after_call b c) cs

module _ {P : LiveExecutor → Type 0} (k : IsKept P) where
  after_call_kept : (b : LiveExecutor) (c : ExecutorCall) → P b → P (after_call b c)
  unfolding after_call
  after_call_kept b (execute_call n d m now) p = (execute-Keeps k n d m now).holds b p
  after_call_kept b (check_call markets now) p = (check_resting-Keeps k markets now).holds b p
  after_call_kept b (cancel_call now) p = (cancel_all-Keeps k now).holds b p

  pub after_calls_kept : (b : LiveExecutor) (cs : List ExecutorCall) → P b → P (after_calls b cs)
  unfolding after_calls
  after_calls_kept b [] p = p
  after_calls_kept b (c ∷ cs) p = after_calls_kept (after_call b c) cs (after_call_kept b c p)

same_id-live : (c : OrderId) (n : ℕ) → same_id c (live n) ≡ true → c ≡ live n
same_id-live (live m) n h = ap live ((==_iff m n).0 h)
same_id-live (paper m) n h = absurd (ground arith)
same_id-live (other_id s) n h = absurd (ground arith)

module _ (n : ℕ) where
  -- A new row is of another decision than a row that is there.
  other_decision :
      (c : OrderId) (rows : List Order) (x : Order)
      → find_order c rows ≡ none
      → find_order (live n) rows ≡ some x
      → same_id c (live n) ≡ false
  other_decision c rows x fresh known = elim (Bool-cases (same_id c (live n))) [
    | inl same ↦
        let here = subst (λ d. find_order d rows ≡ none) (same_id-live c n same) fresh in
        absurd (ground arith)
    | inr different ↦ different
  ]

  updated-NotAgain :
      (count : ℕ) (c : OrderId) (u : Update) (now : ℕ) (b : LiveExecutor)
      → Of (NotAgain n count) b
      → Of (NotAgain n count) (record b { db = update_order b.db c u now })
  unfolding update_order
  updated-NotAgain count c u now b ((o, e), h) = (find_updated (live n) c u now b.db.orders o e, h)

  send-NotAgain :
      (count : ℕ) (o : Order) (b : LiveExecutor)
      → Of (NotAgain n count) b
      → Of (NotAgain n count) (send o b).1
  send-NotAgain count o b ((x, e), h) =
      let kept : (y : Order) × (find_order (live n) (b.db.orders ++ o ∷ []) ≡ some y) =
        (x, find_append (live n) b.db.orders x o e) in
      send_cases (Of (NotAgain n count)) o b ((x, e), h) (λ fresh. (kept, h))
        (λ fresh. (
          kept,
          rw
              (
                requests-append n b.client.sent o.client_order_id,
                other_decision o.client_order_id b.db.orders x fresh e,
              )
              (omega (arith, h)),
        ))

  NotAgain-IsKept : (count : ℕ) → IsKept (Of (NotAgain n count))
  unfolding learn_info get_order_by_coid cancel
  NotAgain-IsKept count = record {
    fills = fill-Of (NotAgain n count);
    updates = updated-NotAgain count;
    learns = λ pair info. record { holds = λ b p. p };
    looks = λ c. record { holds = λ b p. p };
    cancels = λ o. record { holds = λ b p. p };
    sends = λ o. record { holds = send-NotAgain count o };
  }

  asked-AtMostOne :
      (o : Order) (b : LiveExecutor)
      → requests n b.client.sent ≡ 0
      → find_order o.client_order_id b.db.orders ≡ none
      → AtMostOne n (b.db.orders ++ o ∷ []) (requested b.client o)
  asked-AtMostOne o b h fresh = elim (Bool-cases (same_id o.client_order_id (live n))) [
    | inl same ↦
        let here = subst (λ c. find_order c b.db.orders ≡ none) (same_id-live _ n same) fresh in
        inr (
          (o, find_new (live n) b.db.orders o here same),
          rw (requests-append n b.client.sent o.client_order_id, same) (omega (arith, h)),
        )
    | inr different ↦
        inl (rw (requests-append n b.client.sent o.client_order_id, different) (omega (arith, h)))
  ]

  send-AtMostOne :
      (o : Order) (b : LiveExecutor) → Of (AtMostOne n) b → Of (AtMostOne n) (send o b).1
  send-AtMostOne o b (inl h) =
      send_cases (Of (AtMostOne n)) o b (inl h) (λ _. inl h) (asked-AtMostOne o b h)
  send-AtMostOne o b (inr p) = inr (send-NotAgain 1 o b p)

  updated-AtMostOne :
      (c : OrderId) (u : Update) (now : ℕ) (b : LiveExecutor)
      → Of (AtMostOne n) b
      → Of (AtMostOne n) (record b { db = update_order b.db c u now })
  updated-AtMostOne c u now b (inl h) = inl h
  updated-AtMostOne c u now b (inr p) = inr (updated-NotAgain 1 c u now b p)

  AtMostOne-IsKept : IsKept (Of (AtMostOne n))
  unfolding learn_info get_order_by_coid cancel
  AtMostOne-IsKept = record {
    fills = fill-Of (AtMostOne n);
    updates = updated-AtMostOne;
    learns = λ pair info. record { holds = λ b p. p };
    looks = λ c. record { holds = λ b p. p };
    cancels = λ o. record { holds = λ b p. p };
    sends = λ o. record { holds = send-AtMostOne o };
  }

-- The row of the order is in the database.
abbrev pub HasRow : ℕ → LiveExecutor → Type 0
HasRow n b = (o : Order) × (find_order (live n) b.db.orders ≡ some o)

AtMostOne-cases :
    (n : ℕ) (rows : List Order) (client : Exchange)
    → AtMostOne n rows client
    → (requests n client.sent ≤ 1)
      × ((requests n client.sent ≡ 1) → (o : Order) × (find_order (live n) rows ≡ some o))
AtMostOne-cases n rows client (inl h) = (omega (arith, h), λ e. absurd (omega (arith, h, e)))
AtMostOne-cases n rows client (inr (known, h)) = (omega (arith, h), λ e. known)

-- The executor asks the exchange at most once to place the order of a decision, whatever calls are
-- made on it, whatever the exchange answers and wherever a call raises, also right after a request was
-- sent; and whenever a call returns or raises and it has asked, the row of the order is in the
-- database. The condition is that it has not asked before.
pub requested_once :
    (n : ℕ) (b : LiveExecutor) (cs : List ExecutorCall)
    → requests n b.client.sent ≡ 0
    → (requests n (after_calls b cs).client.sent ≤ 1)
      × ((requests n (after_calls b cs).client.sent ≡ 1) → HasRow n (after_calls b cs))
requested_once n b cs h =
    AtMostOne-cases n (after_calls b cs).db.orders (after_calls b cs).client
      (after_calls_kept (AtMostOne-IsKept n) b cs (inl h))

-- An order whose row is in the database, also one of an earlier run of the program, is never
-- requested again, and its row stays, whatever calls are made on the executor and whatever the
-- exchange answers.
pub known_never_requested :
    (n : ℕ) (b : LiveExecutor) (cs : List ExecutorCall)
    → HasRow n b
    → (requests n (after_calls b cs).client.sent ≡ requests n b.client.sent)
      × HasRow n (after_calls b cs)
known_never_requested n b cs known =
    let (stays, same) =
      after_calls_kept (NotAgain-IsKept n (requests n b.client.sent)) b cs (known, refl) in
    (same, stays)
