-- ===== src/Paper/Tests.antt =====
-- Runs of the paper broker on one order book.
use tio_indodax.Prelude.{◌≡◌, refl, Bool, true, false, some, [], ◌∷◌, pos, List}
use tio_indodax.Decimal.{whole, fraction, arithmetic}
use tio_indodax.Dict.{lookup, insert, get_or}
use tio_indodax.Costs.{fee_idr, leg_fee_pct, maker_pct, taker_pct}
use tio_indodax.Exchange.Models.{round_qty, floor_to_step}
use tio_indodax.Storage.{
  empty, find_order, get_order, record_order, updated, update_rows, update_order, record_fill,
  record_stoploss, set_state, open_rows, open_orders, find_decision,
}
use tio_indodax.Portfolio.{apply_fill, apply_buy, bought}
use tio_indodax.Persistence.{save_stops, stops, stops_key}
use tio_indodax.Risk.Types.{RiskDecision, approve, approved}
use tio_indodax.Risk.Tests.{info, book, fees, purchase}
use tio_indodax.Paper.Calls.{PaperBroker}
use tio_indodax.Paper.Walk.{PairMarket, walk, walk_from, prefix}
use tio_indodax.Paper.Fills.{apply_to_ledger, fill_order}
use tio_indodax.Paper.Execute.{execute, submit, take_now, insert_order}
use tio_indodax.Paper.Resting.{
  check_resting, check_orders, check_order, expire, fill_resting, resting_orders, paper_only,
  cancel_all, cancel_rows, pending_buy_idr, pending_of,
}
use tio_indodax.Paper.Once.{
  BrokerCall, check_call, cancel_call, after_call, after_calls, executed_once,
}

whole_broker : Bool
unfolding arithmetic lookup insert get_or fee_idr leg_fee_pct maker_pct taker_pct round_qty
    floor_to_step find_order get_order record_order updated update_rows update_order record_fill
    record_stoploss set_state open_rows open_orders find_decision apply_fill apply_buy bought
    save_stops stops stops_key approved walk walk_from prefix apply_to_ledger fill_order execute
    submit take_now insert_order check_resting check_orders check_order expire fill_resting
    resting_orders paper_only cancel_all cancel_rows pending_buy_idr pending_of after_call
    after_calls empty
whole_broker = true

abbrev market : PairMarket
market = record { pair = "btc_idr"; info = info; orderbook = book }

abbrev broker : PaperBroker
broker = record {
  db = empty;
  pf = record { cash_idr = whole 1000000; positions = []; realized_pnl = pos 0; fees_paid = pos 0 };
  costs = fees;
  mode = "paper";
  ttl = 1800000000;
}

abbrev decision : RiskDecision
decision = record {
  verdict = approve;
  proposal = purchase;
  qty = whole 100;
  price = whole 1001;
  reasons = [];
  trigger_halt = false;
  trigger_daily_stop = false;
}

-- A price under the best ask: the order rests.
abbrev passive : RiskDecision
passive = record decision { price = whole 990 }

-- The taker's fill: 100 at 1001, and 0.3 percent of fees.
taken : (execute 1 decision market 5 broker).1.pf.cash_idr ≡ fraction 8995997 10
unfolding whole_broker
taken = refl

rests : pending_buy_idr (execute 1 passive market 5 broker).1 ≡ ("btc_idr", whole 99000) ∷ []
unfolding whole_broker
rests = refl

cancelled_later : pending_buy_idr (cancel_all 9 (execute 1 passive market 5 broker).1).1 ≡ []
unfolding whole_broker
cancelled_later = refl

abbrev calls : List BrokerCall
calls = check_call [] 1900000000 ∷ cancel_call 1900000001 ∷ []

executed_once_example :
    execute 1 decision market 7 (after_calls (execute 1 passive market 5 broker).1 calls)
    ≡ (some [], after_calls (execute 1 passive market 5 broker).1 calls)
unfolding whole_broker
executed_once_example = executed_once 1 passive decision market market 5 7 broker calls refl
