-- ===== src/Risk/Tests.antt =====
-- Runs of `evaluate` on a small market, and the theorems at those inputs.
use Prim.Native.Nat.{◌*◌, ◌^◌}
use tio_indodax.Prelude.{◌≡◌, refl, Bool, true, false, none, some, [], ◌∷◌, arith, pos, ◌≤ℤ◌}
use mathlib.Core.Option
use tio_indodax.Decimal.{whole, fraction, arithmetic, ◌⊗◌, min}
use tio_indodax.Dict.{get_or, values, lookup}
use tio_indodax.Settings.{RiskLimits}
use tio_indodax.Costs.{FeeSettings, leg_fee_pct, round_trip, total_pct, maker_pct, taker_pct}
use tio_indodax.Exchange.Pairs.{base_asset, text_eq}
use tio_indodax.Exchange.Models.{
  buy, sell, PairInfo, OrderBook, tradable, round_price, round_qty, min_order_violation, spread_pct,
  estimate_fill, floor_to_step, ceil_to_step, truthy,
}
use tio_indodax.Risk.Types.{
  RiskManager, RiskContext, MarketView, TradeProposal, RiskDecision, OrderType, Intent, AgentStatus,
  Verdict, approved, next, all_passed, qty_capped, emergency_exit, agent_halted,
}
use tio_indodax.Risk.Account.{check_account, drawdown_pct, daily_loss_pct}
use tio_indodax.Risk.Sell.{too_low, sell_price, sell_decision, evaluate_sell}
use tio_indodax.Risk.Buy.{
  exit_min_margin, check_protection, cooling, add_positive, open_pairs, check_exposure, check_price,
  asset_values, caps, least, Caps, size, exit_value, check_liquidity, check_edge, buy_decision,
  evaluate_buy,
}
use tio_indodax.Exchange.Rounding.{FitsOpt}
use tio_indodax.Risk.Gates.{IsSound, IsTimely, IsPlaceable, approved_gates}
use tio_indodax.Risk.Sales.{IsSale, held, approved-IsSale, approved_sale-le_held}
use tio_indodax.Risk.Bought.{IsPurchase, approved-IsPurchase, approved_purchase_room}
use tio_indodax.Risk.Purchases.{UnderAll}
use tio_indodax.Risk.Evaluate.{
  is_emergency, check_structure, check_market, check_order_type, check_state, by_side, checks,
  evaluate,
}

abbrev pub fees : FeeSettings
fees = record {
  maker_pct = fraction 1 10;
  taker_pct = fraction 2 10;
  tax_pct = fraction 1 10;
  clearing_pct = pos 0;
  min_edge_multiple = whole 2;
}

abbrev pub limits : RiskLimits
limits = record {
  agent_capital_idr = whole 1000000;
  max_position_pct = whole 30;
  max_open_positions = 3;
  max_asset_exposure_pct = whole 40;
  daily_loss_limit_pct = whole 3;
  max_drawdown_pct = whole 10;
  max_orders_per_hour = 5;
  max_orders_per_day = 20;
  stoploss_cooldown_minutes = 60;
  require_stop_loss = true;
  emergency_exit_max_slippage_pct = whole 1;
}

abbrev pub manager : RiskManager
manager = record {
  limits = limits;
  market = record {
    whitelist = "btc_idr" ∷ [];
    min_volume_24h_idr = whole 1000;
    max_spread_pct = whole 1;
    max_slippage_pct = whole 1;
  };
  fees = fees;
  whitelist = "btc_idr" ∷ [];
}

abbrev pub info : PairInfo
info = record {
  ticker_id = "btc_idr";
  pair_id = "btcidr";
  symbol = "BTCIDR";
  base = "btc";
  quote = "idr";
  price_tick = some (whole 1);
  qty_step = some (fraction 1 100);
  min_quote = some (whole 10000);
  min_base = none;
  maker_fee_pct = none;
  taker_fee_pct = none;
  is_maintenance = false;
  is_suspended = false;
}

abbrev pub book : OrderBook
book = record {
  pair = "btc_idr";
  bids = (whole 1000, whole 500) ∷ (whole 999, whole 500) ∷ [];
  asks = (whole 1001, whole 500) ∷ [];
}

abbrev pub view : MarketView
view = record {
  info = info;
  ticker = record {
    pair = "btc_idr";
    last = whole 1000;
    bid = whole 1000;
    ask = whole 1001;
    high = whole 1100;
    low = whole 900;
    vol_base = none;
    vol_quote = some (whole 100000);
  };
  orderbook = book;
}

abbrev pub context : RiskContext
context = record {
  now = 1000;
  status = AgentStatus.running;
  reconciliation_ok = true;
  equity_idr = whole 1000000;
  peak_equity_idr = whole 1000000;
  day_start_equity_idr = whole 1000000;
  cash_idr = whole 1000000;
  position_qty = ("btc_idr", whole 20) ∷ [];
  position_value_idr = ("btc_idr", whole 20000) ∷ [];
  pending_buy_idr = [];
  orders_last_hour = 0;
  orders_today = 0;
  last_stoploss_at = [];
  exchange_free_idr = none;
}

abbrev pub purchase : TradeProposal
purchase = record {
  pair = "btc_idr";
  side = buy;
  order_type = OrderType.limit;
  price = whole 1001;
  qty = whole 100;
  intent = Intent.entry;
  stop_loss = some (whole 900);
  take_profit = none;
  target = some (whole 1200);
  is_emergency_exit = false;
  setup = "pm_buy";
  reason = "";
}

abbrev emergency : TradeProposal
emergency = record purchase {
  side = sell;
  order_type = OrderType.market;
  price = whole 1000;
  qty = fraction 3001 100;
  intent = Intent.exit;
  is_emergency_exit = true;
}

-- Whatever `evaluate` calls.
unfoldable pub whole_manager : Bool
unfolding evaluate checks check_account check_structure check_order_type check_market check_state
    by_side is_emergency evaluate_sell sell_decision sell_price too_low evaluate_buy exit_min_margin
    check_protection cooling add_positive open_pairs check_exposure check_price asset_values caps
    least size exit_value check_liquidity check_edge buy_decision leg_fee_pct round_trip total_pct
    maker_pct taker_pct base_asset text_eq tradable round_price round_qty min_order_violation
    spread_pct estimate_fill floor_to_step ceil_to_step get_or values lookup arithmetic approved
    drawdown_pct daily_loss_pct
whole_manager = true

abbrev bought : RiskDecision
bought = record {
  verdict = Verdict.approve;
  proposal = purchase;
  qty = whole 100;
  price = whole 1001;
  reasons = all_passed ∷ [];
  trigger_halt = false;
  trigger_daily_stop = false;
}

run_purchase : evaluate manager purchase context view ≡ some bought
unfolding whole_manager
run_purchase = refl

-- A halted agent past all its limits still sells in an emergency: what it holds, and no more.
abbrev broken : RiskContext
broken = record context {
  status = AgentStatus.halted;
  equity_idr = whole 500000;
  orders_last_hour = 9;
  orders_today = 90;
}

abbrev rescued : RiskDecision
rescued = record {
  verdict = Verdict.resize;
  proposal = emergency;
  qty = whole 20;
  price = whole 1000;
  reasons = emergency_exit ∷ (qty_capped ∷ []);
  trigger_halt = true;
  trigger_daily_stop = true;
}

run_emergency : evaluate manager emergency broken view ≡ some rescued
unfolding whole_manager
run_emergency = refl

halted_purchase :
    Option.map (λ (d : RiskDecision). d.reasons) (evaluate manager purchase broken view)
    ≡ some (agent_halted ∷ [])
unfolding whole_manager
halted_purchase = refl

approved-bought : approved bought ≡ true
unfolding approved
approved-bought = refl

approved-rescued : approved rescued ≡ true
unfolding approved
approved-rescued = refl

approved_gates_example :
    IsSound manager emergency broken view
    × IsTimely manager emergency broken view
    × IsPlaceable manager emergency broken view emergency.order_type
approved_gates_example =
    approved_gates manager emergency broken view rescued run_emergency approved-rescued

approved-IsSale_example : IsSale manager emergency broken view rescued
approved-IsSale_example =
    approved-IsSale manager emergency broken view rescued refl run_emergency approved-rescued

-- 20, of which 30.01 were asked, in steps of 0.01.
twenty_fits :
    FitsOpt (min emergency.qty (held manager emergency broken view)) (truthy info.qty_step)
unfolding whole_manager
twenty_fits = ((60, 20, omega arith, refl), (2000 * 10 ^ 60, (60, 2000, omega arith, refl), refl))

approved_sale-le_held_example :
    (rescued.qty ≤ℤ held manager emergency broken view) × (rescued.qty ≤ℤ emergency.qty)
approved_sale-le_held_example =
    approved_sale-le_held manager emergency broken view rescued refl twenty_fits run_emergency
      approved-rescued

approved-IsPurchase_example :
    IsPurchase manager purchase context view bought
    × ((check_account manager.limits context).0 ≡ false)
    × ((check_account manager.limits context).1 ≡ false)
approved-IsPurchase_example =
    approved-IsPurchase manager purchase context view bought refl run_purchase approved-bought

approved_purchase_room_example :
    (room : Caps) × (caps manager context purchase info ≡ next room)
    × UnderAll (bought.qty ⊗ bought.price) room
approved_purchase_room_example =
    approved_purchase_room manager purchase context view bought refl run_purchase refl
