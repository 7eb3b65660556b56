-- ===== src/LiveGate/Tests.antt =====
-- Runs of the preflight: one that clears, and two that refuse.
use tio_indodax.Prelude.{
  All, ℕ, String, ◌≡◌, refl, Bool, true, false, Option, none, some, List, [], ◌∷◌, pos, negsuc,
}
use tio_indodax.Decimal.{Decimal, whole, arithmetic}
use tio_indodax.Storage.{Database, OrderId, other_id, same_id, open_orders, open_rows}
use tio_indodax.Portfolio.{Portfolio}
use tio_indodax.Exchange.Pairs.{codes, text_eq, base_asset}
use tio_indodax.Deadman.{open_switch, accepted, failed, beat}
use tio_indodax.Runner.Days.{DayRow}
use tio_indodax.Reconcile.{
  Balances, OpenOrder, dust, amount_of, check_positions, check_pair_orders, check_pairs, reconcile,
}
use tio_indodax.LiveGate.{
  GateSettings, PermissionReport, Facts, can_withdraw, clock_off, few_days, preflight_error,
  deadman_silent, without, distinct, completed, preflight_of, live_preflight, gate_ok, gate_pairs,
}
use tio_indodax.Dict.{keys}
use tio_indodax.Reconcile.Sound.{IsBacked, AreKnown}
use tio_indodax.LiveGate.Backed.{gate_ok-IsBacked}
use tio_indodax.LiveGate.Sound.{IsCleared, gate_ok-IsCleared}

whole_gate : Bool
unfolding keys arithmetic text_eq base_asset dust amount_of check_positions check_pair_orders
    check_pairs reconcile open_orders open_rows beat open_switch without distinct completed
    preflight_of live_preflight
whole_gate = true

abbrev settings : GateSettings
settings = record {
  min_paper_days = 1;
  environment = "production";
  max_clock_offset_ms = 500;
  whitelist = "btc_idr" ∷ "eth_idr" ∷ [];
}

abbrev day : ℕ → Option Decimal → DayRow
day date end_equity = record {
  date = date;
  start_equity = whole 1000;
  end_equity = end_equity;
  realized = none;
  unrealized = none;
  fees = none;
  peak_equity = none;
}

abbrev ledger : Portfolio
ledger = record { cash_idr = whole 1000; positions = []; realized_pnl = pos 0; fees_paid = pos 0 }

abbrev database : Database
database = record { decisions = []; orders = []; fills = []; stoploss_events = []; state = [] }

abbrev is_agents : OrderId → Bool
is_agents coid = same_id coid (other_id "ag0a1b2c-7")

-- An order of the owner's own rests on every pair.
abbrev on_exchange : String → Option (List OpenOrder)
on_exchange pair = some (record { order_id = "2"; client_order_id = other_id "mine" } ∷ [])

abbrev balances : Balances
balances = record { free = (codes "idr", whole 5000) ∷ []; locked = [] }

abbrev report : PermissionReport
report = record { legacy_ok = some true; withdraw_possible = some false }

-- The clock is 300 ms behind; one day is complete and one has begun.
abbrev facts : Facts
facts = record {
  telegram_connected = true;
  paper_days = day 1 (some (whole 1010)) ∷ day 2 none ∷ [];
  clock_offset_ms = some (negsuc 299);
  permissions = some report;
  heartbeat = accepted 9;
  balances = some balances;
  orders_of = on_exchange;
}

cleared_run :
    gate_ok (live_preflight settings is_agents database ledger facts (open_switch 3)).0 ≡ true
unfolding whole_gate
cleared_run = refl

abbrev refused : Facts
refused = record facts {
  paper_days = day 1 none ∷ [];
  clock_offset_ms = some (negsuc 500);
  permissions = some (record { legacy_ok = some true; withdraw_possible = some true });
  heartbeat = failed;
}

refused_run :
    (live_preflight settings is_agents database ledger refused (open_switch 3)).0
    ≡ few_days 0 1 ∷ clock_off (negsuc 500) ∷ can_withdraw ∷ deadman_silent ∷ []
unfolding whole_gate
refused_run = refl

unread_run :
    (live_preflight settings is_agents database ledger
      (record facts { permissions = none })
      (open_switch 3)).0
    ≡ preflight_error ∷ []
unfolding whole_gate
unread_run = refl

gate_ok-IsCleared_example :
    (asked : PermissionReport) × (some report ≡ some asked)
    × IsCleared settings facts asked (beat (open_switch 3) (accepted 9)).0 (
        reconcile is_agents
          (some balances)
          on_exchange
          database
          "live"
          ledger
          (gate_pairs settings ledger))
gate_ok-IsCleared_example =
    (gate_ok-IsCleared settings is_agents database ledger facts (open_switch 3)).0 cleared_run

gate_ok-IsBacked_example :
    (bal : Balances) × (some balances ≡ some bal)
    × All (IsBacked bal) ledger.positions
    × All (AreKnown is_agents (open_orders database "live") on_exchange) settings.whitelist
    × All (AreKnown is_agents (open_orders database "live") on_exchange) (keys ledger.positions)
gate_ok-IsBacked_example =
    gate_ok-IsBacked settings is_agents database ledger facts (open_switch 3) cleared_run
