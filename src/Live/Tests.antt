-- ===== src/Live/Tests.antt =====
-- Runs of the live executor with answers of the exchange.
use tio_indodax.Prelude.{◌≡◌, refl, Bool, true, false, none, some, [], ◌∷◌, pos, List, ◌≤◌}
use tio_indodax.Decimal.{Decimal, whole, fraction, arithmetic}
use tio_indodax.Dict.{lookup, insert, get_or}
use tio_indodax.Costs.{fee_idr, leg_fee_pct, maker_pct, taker_pct}
use tio_indodax.Exchange.Models.{round_qty, floor_to_step, round_price, buy}
use tio_indodax.Storage.{
  empty, find_order, get_order, record_order, updated, update_rows, update_order, record_fill,
  record_stoploss, set_state, open_rows, open_orders, find_decision, Order, live, OrderStatus,
}
use tio_indodax.Portfolio.{apply_fill, apply_buy, bought, Portfolio}
use tio_indodax.Persistence.{save_stops, stops, stops_key}
use tio_indodax.Persistence.History.{opened, Replayed}
use tio_indodax.Risk.Types.{RiskDecision, approve, approved, OrderType}
use tio_indodax.Risk.Tests.{info, book, fees, purchase}
use tio_indodax.Paper.Walk.{PairMarket, prefix}
use tio_indodax.Live.Remote.{OrderState, RemoteStatus, filled_fraction, partial_fill, filled_for}
use tio_indodax.Exchange.Pairs.{base_asset}
use tio_indodax.Live.Calls.{
  LiveExecutor, unknown, found, learn_info, place_limit, get_order_by_coid, cancel, done,
}
use tio_indodax.Live.Fills.{
  fill, book as book_fill, book_report, apply_state, decision_meta, taker_fee,
}
use tio_indodax.Live.Orders.{
  resolve, get_row, not_there, cancel_row, ours_only, resting_orders, cancel_those, cancel_pair,
  cancel_all, count_those, check_order, check_orders, learn_infos, check_resting, pending_of,
  pending_buy_idr,
}
use tio_indodax.Live.Execute.{
  insert_row, send, book_ack, answered, submit, execute_sell, execute_new, execute,
}
use tio_indodax.Live.Once.{
  ExecutorCall, execute_call, check_call, after_call, after_calls, HasRow, requested_once,
  known_never_requested,
}
use tio_indodax.Live.Sent.{requests}
use tio_indodax.Live.Ledger.{ledger-Replayed}
use tio_indodax.Live.Again.{applied_once}

whole_executor : Bool
unfolding arithmetic lookup insert get_or fee_idr leg_fee_pct maker_pct taker_pct round_qty
    round_price floor_to_step find_order get_order record_order updated update_rows update_order
    record_fill record_stoploss set_state open_rows open_orders find_decision apply_fill apply_buy
    bought save_stops stops stops_key approved prefix filled_fraction partial_fill filled_for
    learn_info base_asset place_limit get_order_by_coid cancel fill book_fill book_report
    apply_state decision_meta taker_fee resolve get_row not_there cancel_row ours_only
    resting_orders cancel_those cancel_pair cancel_all count_those check_order check_orders
    learn_infos check_resting pending_of pending_buy_idr insert_row send book_ack answered submit
    execute_sell execute_new execute after_call after_calls empty requests
whole_executor = true

abbrev market : PairMarket
market = record { pair = "btc_idr"; info = info; orderbook = book }

abbrev decision : RiskDecision
decision = record {
  verdict = approve;
  proposal = purchase;
  qty = whole 100;
  price = whole 1001;
  reasons = [];
  trigger_halt = false;
  trigger_daily_stop = false;
}

-- Forty of the hundred are filled.
abbrev partly : OrderState
partly = record {
  order_id = "77";
  price = whole 1001;
  orig_qty = whole 100;
  remaining_qty = whole 60;
  status = RemoteStatus.still_open;
  received_qty = none;
}

abbrev whole_order : OrderState
whole_order = record partly { remaining_qty = pos 0; status = RemoteStatus.filled }

abbrev start : Portfolio
start = record { cash_idr = whole 1000000; positions = []; realized_pnl = pos 0; fees_paid = pos 0 }

-- The request is not answered; then the order is found, partly filled, twice, and then filled.
abbrev executor : LiveExecutor
executor = record {
  db = empty;
  pf = start;
  client = record {
    placing = some unknown ∷ [];
    looking = found partly ∷ found partly ∷ found whole_order ∷ [];
    cancelling = done ∷ [];
    sent = [];
    cancelled = [];
  };
  costs = fees;
  emergency_slippage = whole 1;
  mode = "live";
  entry_ttl = 120000000;
  pending_grace = 300000000;
  infos = [];
}

abbrev calls : List ExecutorCall
calls =
    execute_call 1 decision market 5
    ∷ check_call [] 6
    ∷ execute_call 1 decision market 7
    ∷ check_call [] 8
    ∷ []

asked_once : (after_calls executor calls).client.sent ≡ live 1 ∷ []
unfolding whole_executor
asked_once = refl

-- The request is sent, and the call then raises.
abbrev cut_off : LiveExecutor
cut_off = record executor { client = record executor.client { placing = none ∷ [] } }

asked_and_raised :
    ((execute 1 decision market 5 cut_off).0 ≡ none)
    × ((after_calls cut_off calls).client.sent ≡ live 1 ∷ [])
unfolding whole_executor
asked_and_raised = (refl, refl)

-- 100 at 1001, and 0.3 percent of fees.
bought_once : (after_calls executor calls).pf.cash_idr ≡ fraction 8995997 10
unfolding whole_executor
bought_once = refl

-- Sixty are still to be bought.
rests : pending_buy_idr (execute 1 decision market 5 executor).1 ≡ ("btc_idr", whole 60060) ∷ []
unfolding whole_executor
rests = refl

requested_once_example :
    (requests 1 (after_calls executor calls).client.sent ≤ 1)
    × ((requests 1 (after_calls executor calls).client.sent ≡ 1)
        → HasRow 1 (after_calls executor calls))
unfolding requests
requested_once_example = requested_once 1 executor calls refl

abbrev executed : LiveExecutor
executed = (execute 1 decision market 5 executor).1

known : HasRow 1 executed
unfolding whole_executor
known = (_, refl)

known_never_requested_example :
    (requests 1 (after_calls executed calls).client.sent ≡ requests 1 executed.client.sent)
    × HasRow 1 (after_calls executed calls)
known_never_requested_example = known_never_requested 1 executed calls known

ledger-Replayed_example :
    Replayed "live" start (after_calls executor calls).pf (after_calls executor calls).db.fills
unfolding empty
ledger-Replayed_example = ledger-Replayed start executor calls refl opened

abbrev row : Order
row = record {
  client_order_id = live 1;
  exchange_order_id = some "77";
  decision_id = some 1;
  ts_created = 5;
  ts_updated = 5;
  mode = "live";
  pair = "btc_idr";
  side = buy;
  order_type = OrderType.limit;
  price = whole 1001;
  qty = whole 100;
  status = OrderStatus.new;
  filled_qty = pos 0;
  is_emergency = false;
}

abbrev resting : LiveExecutor
resting = record executor { db = record empty { orders = row ∷ [] } }

abbrev partly_row : Order
partly_row = record row {
  ts_updated = 6;
  status = OrderStatus.partially_filled;
  filled_qty = whole 40;
}

applied_once_example :
    let after = (apply_state row partly 6 resting).1 in
    ((apply_state partly_row partly 7 after).0 ≡ some [])
    × ((apply_state partly_row partly 7 after).1.pf ≡ after.pf)
    × ((apply_state partly_row partly 7 after).1.db.fills ≡ after.db.fills)
    × ((apply_state partly_row partly 7 after).1.db.stoploss_events ≡ after.db.stoploss_events)
unfolding whole_executor
applied_once_example = applied_once row partly_row partly 6 7 resting _ refl refl refl
