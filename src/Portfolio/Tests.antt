-- ===== src/Portfolio/Tests.antt =====
-- A short history of fills, and the ledger's theorems on it.
use tio_indodax.Prelude.{
  ◌≡◌, ◌↔◌, refl, Bool, true, none, some, List, [], ◌∷◌, arith, pos, ◌≤ℤ◌, if◌then◌else◌, eq_iff,
}
use mathlib.Core.Bool.{false≢true}
use tio_indodax.Decimal.{whole, fraction, arithmetic}
use tio_indodax.Dict.{lookup, insert, erase}
use tio_indodax.Exchange.Models.{buy, sell}
use tio_indodax.Portfolio.{
  Position, Portfolio, Fill, FillResult, ok, raised, no_shorting, bad_fill, is_bad, charge, bought,
  apply_buy, apply_sell, sold, apply_fill, raise_stop,
}
use tio_indodax.Portfolio.Invariant.{
  IsSpot, apply_fill-IsSpot, apply_fill_cash, apply_fill_covered, apply_fill_others,
  apply_fill_raised,
}
use tio_indodax.Portfolio.Stops.{Op, fill, raise, run, apply, Tighter, run_stop, run-IsSpot}

abbrev start : Portfolio
start = record { cash_idr = whole 1000; positions = []; realized_pnl = pos 0; fees_paid = pos 0 }

abbrev first : Fill
first = record {
  pair = "btc_idr";
  side = buy;
  qty = whole 4;
  price = whole 100;
  fee_idr = whole 2;
  ts = 1;
  stop_loss = some (whole 90);
  take_profit = none;
  reason = "entry";
}

abbrev second : Fill
second = record first { qty = whole 1; price = whole 98; stop_loss = some (whole 80); ts = 2 }

abbrev sale : Fill
sale = record first { side = sell; qty = whole 2; price = whole 120; ts = 3 }

abbrev too_much : Fill
too_much = record sale { qty = whole 9 }

abbrev history : List Op
history =
    fill first true
    ∷ fill second true
    ∷ raise "btc_idr" (whole 95)
    ∷ fill too_much true
    ∷ fill sale true
    ∷ []

everything : Bool
unfolding apply_fill apply_buy bought apply_sell sold raise_stop lookup insert erase arithmetic run
    apply
everything = true

abbrev position : Position
position = record {
  pair = "btc_idr";
  qty = whole 3;
  avg_cost = fraction 1004 10;
  stop_loss = some (whole 95);
  take_profit = none;
  opened_at = 1;
  reason = "entry";
}

after_history :
    ((run start history).cash_idr ≡ whole 736)
    × ((run start history).fees_paid ≡ whole 8)
    × (lookup "btc_idr" (run start history).positions ≡ some position)
unfolding everything
after_history = (refl, refl, refl)

start-IsSpot : IsSpot start
start-IsSpot = record { unique = tt; long = tt }

abbrev open_ledger : Portfolio
open_ledger = (apply_fill start first true).1

open_ledger-IsSpot : IsSpot open_ledger
open_ledger-IsSpot = apply_fill-IsSpot start first true start-IsSpot

apply_fill_cash_example : pos 0 ≤ℤ (apply_fill start first true).1.cash_idr
unfolding everything
apply_fill_cash_example = apply_fill_cash start first (omega arith) (λ e. omega arith)

abbrev sale_result : FillResult
sale_result = record {
  realized = whole 37;
  position =
      some (record position {
        qty = whole 2;
        avg_cost = fraction 1005 10;
        stop_loss = some (whole 90);
      });
}

sale_done : (apply_fill open_ledger sale true).0 ≡ ok sale_result
unfolding everything
sale_done = refl

apply_fill_covered_example :
    (p : Position) × (lookup "btc_idr" open_ledger.positions ≡ some p) × (whole 2 ≤ℤ p.qty)
apply_fill_covered_example = apply_fill_covered open_ledger sale true sale_result refl sale_done

apply_fill_others_example :
    lookup "eth_idr" (apply_fill start first true).1.positions ≡ lookup "eth_idr" start.positions
apply_fill_others_example =
    apply_fill_others start first true "eth_idr"
      (λ e. false≢true ((eq_iff "btc_idr" "eth_idr").1 e))

oversold : (apply_fill open_ledger too_much true).0 ≡ raised no_shorting
unfolding everything
oversold = refl

apply_fill_raised_example :
    ((apply_fill open_ledger too_much true).1
      ≡ (if is_bad too_much then open_ledger else charge open_ledger too_much))
    × ((is_bad too_much ≡ true) ↔ (no_shorting ≡ bad_fill))
apply_fill_raised_example = apply_fill_raised open_ledger too_much true no_shorting oversold

abbrev later : List Op
later = fill second true ∷ raise "btc_idr" (whole 95) ∷ fill sale true ∷ []

abbrev held_at_first : Position
held_at_first = record position {
  qty = whole 4;
  avg_cost = fraction 1005 10;
  stop_loss = some (whole 90);
}

run_stop_example : Tighter (some (whole 90)) (some (whole 95))
unfolding everything
run_stop_example =
    run_stop open_ledger later "btc_idr" held_at_first position open_ledger-IsSpot
      (ground arith, (ground arith, (ground arith, tt))) refl refl

run-IsSpot_example : IsSpot (run start history)
run-IsSpot_example = run-IsSpot start history start-IsSpot
