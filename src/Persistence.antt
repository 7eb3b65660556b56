-- ===== src/Persistence.antt =====
-- agent/portfolio/persistence.py: the ledger as it is rebuilt from the recorded fills and stops.
pub mod Replay
pub mod History
pub mod Restore
pub mod Recovery
mod Tests
use tio_indodax.Prelude.{
  false, String, Bool, Option, none, some, List, [], ◌∷◌, ◌++◌, if◌then◌else◌, str_eq,
}
use Prim.Native.String.{◌++◌ as append}
use tio_indodax.Decimal.{Decimal}
use tio_indodax.Dict.{Dict, contains}
use tio_indodax.Exchange.Models.{◌>>=◌}
use tio_indodax.Storage.{Database, FillRow, by_time, rows_where, set_state, get_state}
use tio_indodax.Portfolio.{
  Position, Portfolio, Fill, Outcome, Result, ok, raised, open_portfolio, apply_fill, raise_stop,
}

-- f"{mode}:stops"
unfoldable pub stops_key : String → String
stops_key mode = append mode ":stops"

-- {k: p.stop_loss for k, p in positions.items() if p.stop_loss is not None}
unfoldable pub stops : Dict Position → Dict Decimal
stops [] = []
stops ((k, p) ∷ ps) = elim p.stop_loss [ none ↦ stops ps | some s ↦ (k, s) ∷ stops ps ]

unfoldable pub save_stops : Database → String → Portfolio → Database
save_stops db mode pf = set_state db (stops_key mode) (stops pf.positions)

-- The arguments of `apply_fill` that a row gives.
unfoldable pub fill_of_row : FillRow → Fill
fill_of_row r = record {
  pair = r.pair;
  side = r.side;
  qty = r.qty;
  price = r.price;
  fee_idr = r.fee_idr;
  ts = r.ts;
  stop_loss = none;
  take_profit = none;
  reason = "";
}

abbrev after : Outcome → Option Portfolio
after (ok r, pf) = some pf
after (raised e, pf) = none

-- `none` is the ValueError of a fill.
unfoldable pub replay : Portfolio → List FillRow → Option Portfolio
replay pf [] = some pf
replay pf (r ∷ rs) = do next ← after (apply_fill pf (fill_of_row r) false); replay next rs

-- `raise_stop` for the pairs that are held.
unfoldable pub restore : Portfolio → Dict Decimal → Option Portfolio
restore pf [] = some pf
restore pf ((k, s) ∷ rest) =
    if contains k pf.positions
    then (do moved ← raise_stop pf k s; restore moved.1 rest)
    else restore pf rest

unfoldable pub rebuild_portfolio : Database → String → Decimal → Option Portfolio
rebuild_portfolio db mode capital = do
  pf ← open_portfolio capital
  replayed ← replay pf (by_time (rows_where (λ r. str_eq r.mode mode) db.fills))
  restore replayed (get_state db (stops_key mode) [])
