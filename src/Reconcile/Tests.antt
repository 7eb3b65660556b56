-- ===== src/Reconcile/Tests.antt =====
-- A position that is backed, with one order of the agent and one of the owner.
use tio_indodax.Prelude.{
  String, ◌≡◌, refl, Bool, true, false, Option, none, some, List, [], ◌∷◌, ◌++◌, All, pos,
}
use tio_indodax.Decimal.{whole, arithmetic}
use tio_indodax.Exchange.Pairs.{codes, base_asset, text_eq}
use tio_indodax.Exchange.Models.{buy}
use tio_indodax.Storage.{Database, Order, OrderId, other_id, new, open_orders, open_rows, same_id}
use tio_indodax.Risk.Types.{OrderType}
use tio_indodax.Portfolio.{Portfolio}
use tio_indodax.Reconcile.{
  Balances, OpenOrder, ReconResult, dust, amount_of, check_positions, check_pair_orders,
  check_pairs, reconcile,
}
use tio_indodax.Reconcile.Sound.{IsBacked, AreKnown, reconcile-IsBacked}

whole_check : Bool
unfolding arithmetic base_asset text_eq dust amount_of check_positions check_pair_orders check_pairs
    reconcile open_orders open_rows
whole_check = true

abbrev ledger : Portfolio
ledger = record {
  cash_idr = whole 1000;
  positions =
      (
        "btc_idr",
        record {
          pair = "btc_idr";
          qty = whole 2;
          avg_cost = whole 100;
          stop_loss = some (whole 90);
          take_profit = none;
          opened_at = 1;
          reason = "";
        },
      )
      ∷ [];
  realized_pnl = pos 0;
  fees_paid = pos 0;
}

-- Two bitcoins once against the rupiah and once against the dollar.
abbrev doubled : Portfolio
doubled = record ledger {
  positions =
      ledger.positions
      ++ (
        "btc_usdt",
        record {
          pair = "btc_usdt";
          qty = whole 2;
          avg_cost = whole 1;
          stop_loss = none;
          take_profit = none;
          opened_at = 1;
          reason = "";
        },
      )
        ∷ [];
}

abbrev order : Order
order = record {
  client_order_id = other_id "ag0a1b2c-7";
  exchange_order_id = none;
  decision_id = some 7;
  ts_created = 5;
  ts_updated = 5;
  mode = "live";
  pair = "btc_idr";
  side = buy;
  order_type = OrderType.limit;
  price = whole 99;
  qty = whole 1;
  status = new;
  filled_qty = pos 0;
  is_emergency = false;
}

abbrev database : Database
database = record {
  decisions = [];
  orders = order ∷ [];
  fills = [];
  stoploss_events = [];
  state = [];
}

abbrev balances : Balances
balances = record {
  free = (codes "idr", whole 5000) ∷ (codes "btc", whole 1) ∷ [];
  locked = (codes "btc", whole 1) ∷ [];
}

-- The ids of the agent, and those of its owner.
abbrev is_agents : OrderId → Bool
is_agents coid = same_id coid (other_id "ag0a1b2c-7")

abbrev on_exchange : String → Option (List OpenOrder)
on_exchange pair = some (
    record { order_id = "1"; client_order_id = other_id "ag0a1b2c-7" }
    ∷ record { order_id = "2"; client_order_id = other_id "mine" }
    ∷ [])

abbrev result : ReconResult
result = record {
  ok = true;
  issues = [];
  warnings = ("2", "btc_idr") ∷ [];
  exchange_free_idr = some (whole 5000);
}

clean_run :
    reconcile is_agents (some balances) on_exchange database "live" ledger ("btc_idr" ∷ [])
    ≡ some result
unfolding whole_check
clean_run = refl

-- The two bitcoins of the exchange stand behind both positions.
same_coins :
    reconcile is_agents (some balances) on_exchange database "live" doubled ("btc_idr" ∷ [])
    ≡ some result
unfolding whole_check
same_coins = refl

reconcile-IsBacked_example :
    (bal : Balances) × (some balances ≡ some bal)
    × All (IsBacked bal) ledger.positions
    × All (AreKnown is_agents (open_orders database "live") on_exchange) ("btc_idr" ∷ [])
reconcile-IsBacked_example =
    reconcile-IsBacked is_agents (some balances) on_exchange database "live" ledger ("btc_idr" ∷ [])
      result clean_run refl
