-- ===== src/Persistence/History.antt =====
-- How a ledger and its fills table come about, and what replaying the table makes of it.
use tio_indodax.Prelude.{
  String, ◌≡◌, refl, ap, sym, ◌∙◌, Bool, true, false, some, List, [], ◌∷◌, ◌++◌, arith, str_eq,
  eq_iff, inl, inr, Bool-cases, if_cases,
}
use tio_indodax.Decimal.{Decimal}
use tio_indodax.Dict.{Dict, lookup, insert}
use tio_indodax.Storage.{FillRow, OrderId, TradeId, rows_where}
use tio_indodax.Portfolio.{
  Position, Portfolio, Fill, FillResult, LedgerError, ok, raised, apply_fill, Outcome, is_bad,
}
use tio_indodax.Portfolio.Invariant.{IsSpot, apply_fill-IsSpot, apply_fill_raised}
use tio_indodax.Portfolio.Stops.{raise, apply, apply-raise, apply-IsSpot}
use tio_indodax.Persistence.{fill_of_row, after, replay}
use tio_indodax.Persistence.Replay.{
  bare, bare_all, IsReplica, Replays, apply_fill-Replays, replay-append, rows_where-append,
}

-- The row that `record_fill` is given for a fill.
abbrev pub row_of : TradeId → OrderId → String → Fill → FillResult → FillRow
row_of trade coid mode f r = record {
  trade_id = trade;
  client_order_id = coid;
  ts = f.ts;
  mode = mode;
  pair = f.pair;
  side = f.side;
  price = f.price;
  qty = f.qty;
  fee_idr = f.fee_idr;
  realized_pnl = some r.realized;
}

-- How a ledger and the fills table come about: a fill that succeeds is recorded, one that raises is
-- not, stops are raised, and other modes record their own fills in the same table.
pub data History (mode : String) (start : Portfolio) : Portfolio → List FillRow → Type 0 where
  opened : History mode start start []
  recorded :
      {pf : Portfolio} {rows : List FillRow} (f : Fill) (strict : Bool) (r : FillResult)
      (trade : TradeId) (coid : OrderId)
      → History mode start pf rows
      → (apply_fill pf f strict).0 ≡ ok r
      → History mode start (apply_fill pf f strict).1 (rows ++ row_of trade coid mode f r ∷ [])
  refused :
      {pf : Portfolio} {rows : List FillRow} (f : Fill) (strict : Bool) (e : LedgerError)
      → History mode start pf rows
      → (apply_fill pf f strict).0 ≡ raised e
      → History mode start (apply_fill pf f strict).1 rows
  trailed :
      {pf : Portfolio} {rows : List FillRow} (pair : String) (stop : Decimal)
      → History mode start pf rows
      → History mode start (apply pf (raise pair stop)) rows
  foreign :
      {pf : Portfolio} {rows : List FillRow} (row : FillRow)
      → History mode start pf rows
      → str_eq row.mode mode ≡ false
      → History mode start pf (rows ++ row ∷ [])

abbrev pub of_mode : String → FillRow → Bool
of_mode mode r = str_eq r.mode mode

-- Replaying the rows of the mode succeeds and makes a replica.
abbrev pub Replayed : String → Portfolio → Portfolio → List FillRow → Type 0
Replayed mode start pf rows =
    (q : Portfolio) × (replay start (rows_where (of_mode mode) rows) ≡ some q) × IsReplica pf q

Replays-ok :
    (o o' : Outcome) (r : FillResult)
    → o.0 ≡ ok r
    → Replays o o'
    → (q : Portfolio) × (after o' ≡ some q) × IsReplica o.1 q
Replays-ok (ok s, pf) o' r e h = h
Replays-ok (raised x, pf) o' r e h = absurd (ground arith)

step_recorded :
    (mode : String) (start pf : Portfolio) (rows : List FillRow) (f : Fill) (strict : Bool)
    (r : FillResult) (trade : TradeId) (coid : OrderId)
    → (apply_fill pf f strict).0 ≡ ok r
    → Replayed mode start pf rows
    → Replayed mode start (apply_fill pf f strict).1 (rows ++ row_of trade coid mode f r ∷ [])
unfolding fill_of_row
step_recorded mode start pf rows f strict r trade coid done (q, before, s) =
    let row = row_of trade coid mode f r in
    let (q', next, t) = Replays-ok _ _ r done (apply_fill-Replays pf q f strict s) in
    let here : of_mode mode row ≡ true = (eq_iff mode mode).1 refl in
    let kept = rows_where-append (of_mode mode) rows row in
    (q', rw (kept, here) (replay-append start _ row q q' before next), t)

step_refused :
    (pf q : Portfolio) (f : Fill) (strict : Bool) (e : LedgerError)
    → (apply_fill pf f strict).0 ≡ raised e
    → IsReplica pf q
    → IsReplica (apply_fill pf f strict).1 q
step_refused pf q f strict e failed s = rw ((apply_fill_raised pf f strict e failed).0) (
    if_cases (λ p. IsReplica p q) (is_bad f) _ _ (λ _. s)
      (λ _. record { cash = s.cash; gains = s.gains; held = s.held }))

-- A stop that is moved is not seen in the bare positions.
insert-bare_same :
    (k : String) (p p' : Position) (d : Dict Position)
    → lookup k d ≡ some p
    → bare p' ≡ bare p
    → bare_all (insert k p' d) ≡ bare_all d
unfolding lookup insert
insert-bare_same k p p' [] h e = absurd (ground arith)
insert-bare_same k p p' ((j, x) ∷ d) h e = elim (Bool-cases (str_eq j k)) [
  | inl same ↦
      let here : x ≡ p = ground arith in
      rw same (ap (λ y. (j, y) ∷ bare_all d) (e ∙ sym (ap bare here)))
  | inr different ↦
      rw different (ap (λ r. (j, bare x) ∷ r) (insert-bare_same k p p' d (rw different at h) e))
]

step_trailed :
    (pf q : Portfolio) (k : String) (stop : Decimal)
    → IsReplica pf q
    → IsReplica (apply pf (raise k stop)) q
step_trailed pf q k stop s =
    apply-raise (λ r. IsReplica r q) pf k stop s
      (λ p held _. record {
        cash = s.cash;
        gains = s.gains;
        held = s.held ∙ sym (insert-bare_same k p _ pf.positions held refl);
      })

pub history-Replayed :
    (mode : String) (start pf : Portfolio) (rows : List FillRow)
    → start.positions ≡ []
    → History mode start pf rows
    → Replayed mode start pf rows
unfolding replay rows_where
history-Replayed mode start pf rows e opened =
    (start, refl, record { cash = refl; gains = refl; held = rw e refl })
history-Replayed mode start pf rows e (recorded f strict r trade coid h done) =
    step_recorded mode start _ _ f strict r trade coid done (history-Replayed mode start _ _ e h)
history-Replayed mode start pf rows e (refused f strict x h failed) =
    let (q, before, s) = history-Replayed mode start _ _ e h in
    (q, before, step_refused _ q f strict x failed s)
history-Replayed mode start pf rows e (trailed k stop h) =
    let (q, before, s) = history-Replayed mode start _ _ e h in
    (q, before, step_trailed _ q k stop s)
history-Replayed mode start pf rows e (foreign row h apart) =
    let (q, before, s) = history-Replayed mode start _ _ e h in
    (q, rw (rows_where-append (of_mode mode) _ row, apart) before, s)

pub history-IsSpot :
    (mode : String) (start pf : Portfolio) (rows : List FillRow)
    → IsSpot start
    → History mode start pf rows
    → IsSpot pf
history-IsSpot mode start pf rows s opened = s
history-IsSpot mode start pf rows s (recorded f strict r trade coid h done) =
    apply_fill-IsSpot _ f strict (history-IsSpot mode start _ _ s h)
history-IsSpot mode start pf rows s (refused f strict x h failed) =
    apply_fill-IsSpot _ f strict (history-IsSpot mode start _ _ s h)
history-IsSpot mode start pf rows s (trailed k stop h) =
    apply-IsSpot _ (raise k stop) (history-IsSpot mode start _ _ s h)
history-IsSpot mode start pf rows s (foreign row h apart) = history-IsSpot mode start _ _ s h
