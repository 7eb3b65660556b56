-- ===== src/Live/Ledger.antt =====
-- The ledger of the live executor and its fills table.
use tio_indodax.Prelude.{
  ℕ, String, ◌≡◌, refl, Bool, true, false, Option, List, [], ◌∷◌, ◌++◌, arith, if◌then◌else◌,
  if_cases, sym, ap, some_of,
}
use mathlib.Core.Path.{subst}
use tio_indodax.Storage.{
  Database, FillRow, update_order, has_trade, record_fill, record_stoploss, set_state,
}
use tio_indodax.Persistence.{save_stops}
use tio_indodax.Persistence.History.{History, recorded, refused, history-Replayed, Replayed}
use tio_indodax.Portfolio.{Portfolio, Fill, Outcome, ok, raised, apply_fill}
use tio_indodax.Calls.Keeps.{Keeps, keeps, then-Keeps}
use tio_indodax.Paper.Walk.{FillEvent}
use tio_indodax.Live.Calls.{LiveExecutor, write, learn_info, get_order_by_coid, cancel}
use tio_indodax.Live.Fills.{
  FillReport, fill, book, book_report, entered, is_void, trade_of, report_row,
}
use tio_indodax.Live.Kept.{IsKept}
use tio_indodax.Live.Once.{ExecutorCall, after_calls, after_calls_kept}
use tio_indodax.Live.Sent.{send_cases}

-- The ledger came about through the fills in the table.
abbrev pub HasHistory : String → Portfolio → LiveExecutor → Type 0
HasHistory mode start b = (b.mode ≡ mode) × History mode start b.pf b.db.fills

module _ (mode : String) (start : Portfolio) where
  new_fill :
      (db : Database) (r : FillRow)
      → some_of (has_trade r.trade_id) db.fills ≡ false
      → (record_fill db r).1.fills ≡ db.fills ++ r ∷ []
  unfolding record_fill
  new_fill db r new = rw new refl

  -- What the ledger and the table are after a fill, by its outcome.
  outcome-History :
      (b : LiveExecutor) (o : FillReport) (f : Fill) (x : Outcome)
      → some_of (has_trade (trade_of o)) b.db.fills ≡ false
      → HasHistory mode start b
      → x ≡ apply_fill b.pf f false
      → HasHistory mode start (entered b o f x).1
  outcome-History b o f (ok r, pf) new (m, h) e = (
    m,
    rw (new_fill b.db (report_row o b.mode f r) new, m)
        (rw (sym (ap (λ x. x.1) e)) at
          (recorded f false r (trade_of o) o.coid h (ap (λ x. x.0) (sym e)))),
  )
  outcome-History b o f (raised x, pf) new (m, h) e = (
    m,
    subst (λ q. History mode start q b.db.fills) (ap (λ y. y.1) (sym e))
        (refused f false x h (ap (λ y. y.0) (sym e))),
  )

  stop_event-Keeps :
      (test : Bool) (pair mode' : String) (now : ℕ)
      → Keeps
          (HasHistory mode start)
          (write (λ db. if test then record_stoploss db pair mode' now else db))
  unfolding record_stoploss
  stop_event-Keeps true pair mode' now = record { holds = λ b p. p }
  stop_event-Keeps false pair mode' now = record { holds = λ b p. p }

  save_stops-Keeps :
      (mode' : String) (pf : Portfolio)
      → Keeps (HasHistory mode start) (write (λ db. save_stops db mode' pf))
  unfolding save_stops set_state
  save_stops-Keeps mode' pf = record { holds = λ b p. p }

  book-HasHistory :
      (o : FillReport) (f : Fill) (b : LiveExecutor)
      → some_of (has_trade (trade_of o)) b.db.fills ≡ false
      → HasHistory mode start b
      → HasHistory mode start (book o f b).1
  unfolding book
  book-HasHistory o f b new h = outcome-History b o f (apply_fill b.pf f false) new h refl

  book_report-HasHistory :
      (o : FillReport) (f : Fill) (b : LiveExecutor)
      → some_of (has_trade (trade_of o)) b.db.fills ≡ false
      → HasHistory mode start b
      → HasHistory mode start (book_report o f b).1
  unfolding book_report
  book_report-HasHistory o f b new h =
      then-Keeps (HasHistory mode start) (book o f b) _ (book-HasHistory o f b new h)
        (λ r. search (keeps, stop_event-Keeps, save_stops-Keeps) depth 16)

  fill-HasHistory :
      (o : FillReport) (b : LiveExecutor)
      → HasHistory mode start b
      → HasHistory mode start (fill o b).1
  unfolding fill
  fill-HasHistory o b h =
      if_cases (λ (r : Option (List FillEvent) × LiveExecutor). HasHistory mode start r.1)
        (is_void b o) _ _ (λ _. h) (λ live. book_report-HasHistory o _ b (ground arith) h)

  HasHistory-IsKept : IsKept (HasHistory mode start)
  unfolding update_order learn_info get_order_by_coid cancel
  HasHistory-IsKept = record {
    fills = λ o. record { holds = fill-HasHistory o };
    updates = λ c u now b h. h;
    learns = λ pair info. record { holds = λ b h. h };
    looks = λ c. record { holds = λ b h. h };
    cancels = λ o. record { holds = λ b h. h };
    sends =
        λ o. record { holds = λ b h. send_cases (HasHistory mode start) o b h (λ _. h) (λ _. h) };
  }

-- Replaying the fills that the database holds in the executor's mode, in the order in which they were
-- recorded, succeeds and gives the cash, the realized result and the positions (but for their stops,
-- targets and reasons) of its ledger, whatever calls are made on it, whatever the exchange answers
-- and wherever a call raises. The conditions are that the ledger started with no position and that
-- the table agreed with it before the calls.
pub ledger-Replayed :
    (start : Portfolio) (b : LiveExecutor) (cs : List ExecutorCall)
    → start.positions ≡ []
    → History b.mode start b.pf b.db.fills
    → Replayed b.mode start (after_calls b cs).pf (after_calls b cs).db.fills
ledger-Replayed start b cs clean h =
    history-Replayed b.mode start _ _ clean
      (after_calls_kept (HasHistory-IsKept b.mode start) b cs (refl, h)).1
