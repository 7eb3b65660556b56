-- ===== src/Persistence/Tests.antt =====
-- A ledger with two buys, a refused sale, a raised stop and a sale, and its database.
use tio_indodax.Prelude.{◌≡◌, refl, Bool, true, none, some, List, [], ◌∷◌, arith, pos}
use tio_indodax.Decimal.{whole, arithmetic}
use tio_indodax.Dict.{lookup, insert, erase, get_or}
use tio_indodax.Exchange.Models.{buy, sell}
use tio_indodax.Storage.{
  Database, FillRow, fill_of, paper, by_time, rows_where, set_state, get_state, record_fill,
}
use tio_indodax.Portfolio.{
  Portfolio, Fill, FillResult, Result, ok, raised, no_shorting, open_portfolio, bought, apply_buy,
  apply_sell, sold, apply_fill, raise_stop,
}
use tio_indodax.Portfolio.Stops.{raise, apply}
use tio_indodax.Persistence.{
  stops_key, stops, save_stops, fill_of_row, replay, restore, rebuild_portfolio,
}
use tio_indodax.Persistence.History.{History, opened, recorded, refused, trailed, row_of}
use tio_indodax.Persistence.Recovery.{Recovers, rebuilt-Recovers}

whole_ledger : Bool
unfolding apply_fill apply_buy bought apply_sell sold raise_stop lookup insert erase arithmetic
    apply open_portfolio replay restore rebuild_portfolio by_time rows_where fill_of_row get_or
    get_state set_state save_stops stops stops_key record_fill
whole_ledger = true

abbrev start : Portfolio
start = record { cash_idr = whole 1000; positions = []; realized_pnl = pos 0; fees_paid = pos 0 }

abbrev first : Fill
first = record {
  pair = "btc_idr";
  side = buy;
  qty = whole 4;
  price = whole 100;
  fee_idr = whole 2;
  ts = 1;
  stop_loss = some (whole 90);
  take_profit = none;
  reason = "entry";
}

abbrev too_much : Fill
too_much = record first { side = sell; qty = whole 9; ts = 2 }

abbrev sale : Fill
sale = record first { side = sell; qty = whole 1; price = whole 120; ts = 3 }

abbrev result : Result FillResult → FillResult
result (ok r) = r
result (raised _) = record { realized = pos 0; position = none }

abbrev after_first : Portfolio
after_first = (apply_fill start first true).1

abbrev after_refusal : Portfolio
after_refusal = (apply_fill after_first too_much true).1

abbrev after_raise : Portfolio
after_raise = apply after_refusal (raise "btc_idr" (whole 95))

abbrev after_sale : Portfolio
after_sale = (apply_fill after_raise sale true).1

abbrev rows : List FillRow
rows =
    row_of (fill_of (paper 1)) (paper 1) "paper" first (result (apply_fill start first true).0)
    ∷ row_of (fill_of (paper 3)) (paper 3) "paper" sale
        (result (apply_fill after_raise sale true).0)
    ∷ []

abbrev database : Database
database = record { decisions = []; orders = []; fills = rows; stoploss_events = []; state = [] }

history : History "paper" start after_sale rows
unfolding whole_ledger
history =
    recorded sale true _ (fill_of (paper 3)) (paper 3)
      (trailed "btc_idr" (whole 95) (
        refused too_much true no_shorting
          (recorded first true _ (fill_of (paper 1)) (paper 1) opened refl) refl))
      refl

rebuilt-Recovers_example :
    (q : Portfolio) × (rebuild_portfolio
        (save_stops database "paper" after_sale)
        "paper"
        (whole 1000)
      ≡ some q)
    × Recovers after_sale q
unfolding whole_ledger
rebuilt-Recovers_example =
    rebuilt-Recovers "paper" (whole 1000) start after_sale database refl history
      ((omega arith, tt), (tt, tt))
