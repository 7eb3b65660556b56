-- ===== src/Persistence/Recovery.antt =====
-- The ledger that is rebuilt after a restart is the one that was running.
use tio_indodax.Prelude.{
  String, ◌≡◌, refl, ap, sym, ◌∙◌, Option, none, some, [], arith, inl, inr, Option-cases,
}
use tio_indodax.Decimal.{Decimal}
use tio_indodax.Dict.{Dict, lookup, get_or-insert}
use tio_indodax.Storage.{Database, rows_where, set_state, get_state}
use tio_indodax.Portfolio.{Position, Portfolio, open_portfolio}
use tio_indodax.Portfolio.Invariant.{IsSpot}
use tio_indodax.Persistence.{stops_key, stops, save_stops, replay, restore, rebuild_portfolio}
use tio_indodax.Persistence.Replay.{
  bare, bare_all, lookup-bare, IsReplica, InTime, by_time-InTime, rows_where-InTime,
}
use tio_indodax.Persistence.History.{History, of_mode, history-Replayed, history-IsSpot}
use tio_indodax.Persistence.Restore.{
  stop_of, lookup-stops, stops-IsDict, set_stop, Unset, restore-IsRestored,
}

-- A rebuilt position: the take-profit and the reason are not recorded.
abbrev pub recovered : Option Position → Option Position
recovered none = none
recovered (some p) = some (record p { take_profit = none; reason = "" })

set_stop-bare :
    (s : Option Decimal) (p : Position)
    → p.stop_loss ≡ s
    → set_stop s (some (bare p)) ≡ recovered (some p)
set_stop-bare none p e =
    ap (λ t. some (record p { stop_loss = t; take_profit = none; reason = "" })) (sym e)
set_stop-bare (some s) p e =
    ap (λ t. some (record p { stop_loss = t; take_profit = none; reason = "" })) (sym e)

-- The cash, the realized result and every position, its stop included.
pub record Recovers (pf q : Portfolio) : Type 0 where
  pub cash : q.cash_idr ≡ pf.cash_idr
  pub gains : q.realized_pnl ≡ pf.realized_pnl
  pub held : (k : String) → lookup k q.positions ≡ recovered (lookup k pf.positions)

bare_found :
    (k : String) (d : Dict Position)
    → set_stop (stop_of (lookup k d)) (lookup k (bare_all d)) ≡ recovered (lookup k d)
bare_found k d = elim (Option-cases (lookup k d)) [
  | inl missing ↦ rw (lookup-bare k d, missing) refl
  | inr (p, there) ↦ rw (lookup-bare k d, there) (set_stop-bare p.stop_loss p refl)
]

bare_unset :
    (d : Dict Position) (k : String) (p : Position)
    → lookup k (bare_all d) ≡ some p
    → p.stop_loss ≡ none
bare_unset d k p e = elim (Option-cases (lookup k d)) [
  | inl missing ↦ absurd (ground (arith, lookup-bare k d))
  | inr (x, there) ↦
      let same : bare x ≡ p = ground (arith, rw (lookup-bare k d, there) at e) in
      sym (ap (λ y. y.stop_loss) same)
]

restored-Recovers :
    (pf q : Portfolio)
    → IsSpot pf
    → IsReplica pf q
    → (q' : Portfolio) × (restore q (stops pf.positions) ≡ some q') × Recovers pf q'
restored-Recovers pf q s r =
    let unset : Unset (stops pf.positions) q =
      λ k p e _. bare_unset pf.positions k p (sym (ap (lookup k) r.held) ∙ e) in
    let (q', done, t) = restore-IsRestored (stops pf.positions) q (stops-IsDict _ s.unique) unset in
    (
      q',
      done,
      record {
        cash = t.cash ∙ r.cash;
        gains = t.gains ∙ r.gains;
        held = λ k.
            t.held k
            ∙ rw (lookup-stops k pf.positions s.unique, ap (lookup k) r.held)
                (bare_found k pf.positions);
      },
    )

opened_empty :
    (capital : Decimal) (start : Portfolio)
    → open_portfolio capital ≡ some start
    → start.positions ≡ []
unfolding open_portfolio
opened_empty capital start e = ground arith

empty-IsSpot : (start : Portfolio) → start.positions ≡ [] → IsSpot start
empty-IsSpot start e = record { unique = rw e tt; long = rw e tt }

saved_stops :
    (db : Database) (mode : String) (pf : Portfolio)
    → get_state (save_stops db mode pf) (stops_key mode) [] ≡ stops pf.positions
unfolding save_stops set_state get_state
saved_stops db mode pf = get_or-insert (stops_key mode) (stops pf.positions) [] db.state

rebuild_by :
    (db : Database) (mode : String) (capital : Decimal) (start q q' : Portfolio)
    (saved : Dict Decimal)
    → open_portfolio capital ≡ some start
    → InTime db.fills
    → replay start (rows_where (of_mode mode) db.fills) ≡ some q
    → get_state db (stops_key mode) [] ≡ saved
    → restore q saved ≡ some q'
    → rebuild_portfolio db mode capital ≡ some q'
unfolding rebuild_portfolio
rebuild_by db mode capital start q q' saved opens t replays reads done =
    rw (opens, by_time-InTime _ (rows_where-InTime (of_mode mode) db.fills t), replays, reads) done

-- If the stops of a ledger have been saved, then rebuilding from the database succeeds and gives
-- the ledger that was running: its cash, its realized result and its positions with their sizes,
-- costs, times and stops. What is lost is the take-profit and the reason. The condition is that the
-- fills stand in the order of their times; refused fills, raised stops and the fills of other modes
-- may come between.
pub rebuilt-Recovers :
    (mode : String) (capital : Decimal) (start pf : Portfolio) (db : Database)
    → open_portfolio capital ≡ some start
    → History mode start pf db.fills
    → InTime db.fills
    → (q : Portfolio) × (rebuild_portfolio (save_stops db mode pf) mode capital ≡ some q)
      × Recovers pf q
unfolding save_stops set_state
rebuilt-Recovers mode capital start pf db e h t =
    let clean = opened_empty capital start e in
    let (r, replays, s) = history-Replayed mode start pf db.fills clean h in
    let spot = history-IsSpot mode start pf db.fills (empty-IsSpot start clean) h in
    let (q, done, recovers) = restored-Recovers pf r spot s in
    (
      q,
      rebuild_by (save_stops db mode pf) mode capital start r q _ e t replays
          (saved_stops db mode pf) done,
      recovers,
    )
