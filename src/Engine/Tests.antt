-- ===== src/Engine/Tests.antt =====
-- One cycle on one market.
use tio_indodax.Prelude.{ℕ, ◌≡◌, refl, Bool, true, false, none, some, [], ◌∷◌, pos, All}
use Prim.Native.Nat.{◌-◌}
use tio_indodax.Decimal.{whole}
use tio_indodax.Dict.{Dict, keys, contains}
use tio_indodax.Storage.{
  empty, record_decision, count_rows, count_orders_since, last_times, last_stoploss_times,
}
use tio_indodax.Portfolio.{Portfolio, equity, positions_value, priced, value}
use tio_indodax.Risk.Types.{RiskDecision, AgentStatus}
use tio_indodax.Risk.Tests.{manager, view, context, whole_manager}
use tio_indodax.Strategy.Tests.{strategy, features, whole_strategy}
use tio_indodax.Runner.Days.{Books, update, get_daily_pnl, upsert_daily_pnl}
use tio_indodax.Engine.Context.{
  Market, CycleInputs, marks, quantities, values, build_context, after_approval, hour,
}
use tio_indodax.Engine.Cycle.{
  Run, rules, DecisionEngine, CycleResult, record_one, judge, judge_exits, trail_stops,
  judge_entries, judge_allocation, decide, run_cycle,
}
use tio_indodax.Engine.Allowed.{IsAllowed, run_cycle-IsAllowed}
use tio_indodax.Engine.Counted.{IsWithin, orders, run_cycle-IsWithin}

whole_engine : Bool
unfolding whole_manager whole_strategy record_decision count_rows count_orders_since last_times
    last_stoploss_times equity positions_value priced value update get_daily_pnl upsert_daily_pnl
    marks quantities values build_context after_approval record_one judge judge_exits trail_stops
    judge_entries judge_allocation decide run_cycle empty keys contains orders
whole_engine = true

abbrev engine : DecisionEngine
engine = record {
  strategy = strategy;
  bar = 86400000000;
  risk = manager;
  proposer = rules (λ p. false);
}

abbrev inputs : CycleInputs
inputs = record {
  now = 90000000000;
  today = 1;
  midnight = 86400000000;
  mode = "paper";
  status = AgentStatus.running;
  reconciliation_ok = true;
  pending_buy_idr = [];
  exchange_free_idr = none;
}

abbrev markets : Dict Market
markets = ("btc_idr", record { view = view; features = features }) ∷ []

abbrev books : Books
books = record { capital = none; peak_equity = none; days = [] }

abbrev ledger : Portfolio
ledger = record {
  cash_idr = whole 1000000;
  positions = [];
  realized_pnl = pos 0;
  fees_paid = pos 0;
}

abbrev nothing : CycleResult
nothing = record { decisions = []; trigger_halt = false; trigger_daily_stop = false }

abbrev result : CycleResult
result = elim (run_cycle engine inputs markets empty books ledger) [
  | none ↦ nothing
  | some ((none, b), kept) ↦ nothing
  | some ((some r, b), kept) ↦ r
]

buys_once : orders result.decisions ≡ 1
unfolding whole_engine
buys_once = refl

abbrev last : Run
last = elim (run_cycle engine inputs markets empty books ledger) [
  | none ↦ record { db = empty; pf = ledger; ctx = context; decisions = [] }
  | some ((r, b), kept) ↦ b
]

abbrev kept_books : Books
kept_books = elim (run_cycle engine inputs markets empty books ledger) [
  | none ↦ books
  | some (ended, kept) ↦ kept
]

ran : run_cycle engine inputs markets empty books ledger ≡ some ((some result, last), kept_books)
unfolding whole_engine
ran = refl

run_cycle-IsAllowed_example :
    All (λ (x : ℕ × RiskDecision). IsAllowed AgentStatus.running true x.1) result.decisions
run_cycle-IsAllowed_example =
    run_cycle-IsAllowed engine inputs markets empty books kept_books ledger last result ran

run_cycle-IsWithin_example :
    IsWithin engine
      (count_orders_since empty (90000000000 - hour) "paper" false)
      (count_orders_since empty 86400000000 "paper" false)
      (orders result.decisions)
run_cycle-IsWithin_example =
    run_cycle-IsWithin engine inputs markets empty books kept_books ledger last result ran
