-- ===== src/Risk/Evaluate.antt =====
-- `evaluate`, which every proposal goes through.
use tio_indodax.Prelude.{
  Bool, true, false, not, ◌&&◌, ◌||◌, Option, none, some, List, [], ◌∷◌, leb, if◌then◌else◌, pos,
  ltb_ℤ, leb_ℤ, str_eq,
}
use tio_indodax.Decimal.{Decimal, ◌⊗◌, min}
use tio_indodax.Dict.{get_or}
use tio_indodax.Exchange.Models.{
  sell, is_sell, is_buy, OrderBook, FillEstimate, best_bid, estimate_fill, tradable,
}
use tio_indodax.Risk.Types.{
  RiskManager, RiskContext, MarketView, TradeProposal, RiskDecision, OrderType, Intent, AgentStatus,
  Reason, not_whitelisted, wrong_market, malformed, suspended, not_reconciled, no_position,
  bad_emergency_flag, market_not_allowed, no_bids, emergency_slippage, bad_order_type, agent_halted,
  agent_paused, hourly_limit, daily_limit, Step, next, stop, raised, return_if, or_raise, vetoed,
  ◌>>=◌, ◌>>◌,
}
use tio_indodax.Risk.Account.{check_account}
use tio_indodax.Risk.Sell.{evaluate_sell}
use tio_indodax.Risk.Buy.{evaluate_buy, member}

abbrev pub is_exit : Intent → Bool
is_exit Intent.exit = true
is_exit Intent.entry = false

abbrev pub is_halted : AgentStatus → Bool
is_halted AgentStatus.halted = true
is_halted _ = false

abbrev pub is_paused : AgentStatus → Bool
is_paused AgentStatus.paused = true
is_paused _ = false

unfoldable pub is_emergency : TradeProposal → Bool
is_emergency p = p.is_emergency_exit && (is_sell p.side && is_exit p.intent)

abbrev pub is_malformed : TradeProposal → Bool
is_malformed p =
    not (is_buy p.side || is_sell p.side) || leb_ℤ p.qty (pos 0) || leb_ℤ p.price (pos 0)

-- Section 1: the structural checks.
unfoldable pub check_structure :
    RiskManager → TradeProposal → RiskContext → MarketView → Bool → Bool → Step (Unit {0})
check_structure m p ctx mv halt daily = do
  let veto = λ (why : Reason). vetoed p halt daily (why ∷ [])
  return_if (not (member p.pair m.whitelist)) (veto not_whitelisted)
  return_if (not (str_eq mv.info.ticker_id p.pair)) (veto wrong_market)
  return_if (is_malformed p) (veto malformed)
  return_if (not (tradable mv.info)) (veto suspended)
  return_if (not ctx.reconciliation_ok) (veto not_reconciled)
  return_if (is_sell p.side && leb_ℤ (get_or ctx.position_qty p.pair (pos 0)) (pos 0))
      (veto no_position)
  return_if (p.is_emergency_exit && not (is_emergency p)) (veto bad_emergency_flag)

-- est.slippage_pct is None or est.slippage_pct > limit
abbrev pub slips : Option Decimal → Decimal → Bool
slips none most = true
slips (some s) most = ltb_ℤ most s

abbrev pub bad_exit : FillEstimate → Decimal → Bool
bad_exit est most = not est.fully_filled || slips est.slippage_pct most

-- A value, or the decision where it is `None`.
abbrev pub or_stop : {A : Type 0} → RiskDecision → Option A → Step A
or_stop d none = stop d
or_stop d (some a) = next a

-- Section 2: market orders only for emergency exits, and these within their slippage.
unfoldable pub check_market :
    RiskManager → TradeProposal → RiskContext → OrderBook → Bool → Bool → Step (Unit {0})
check_market m p ctx book halt daily = do
  let veto = λ (why : Reason). vetoed p halt daily (why ∷ [])
  return_if (not (is_emergency p)) (veto market_not_allowed)
  bid ← or_stop (veto no_bids) (best_bid book)
  let est_qty = min p.qty (get_or ctx.position_qty p.pair (pos 0))
  est ← or_raise (estimate_fill book sell (est_qty ⊗ bid))
  return_if (bad_exit est m.limits.emergency_exit_max_slippage_pct) (veto emergency_slippage)

abbrev pub by_type :
    RiskManager
    → TradeProposal
    → RiskContext
    → OrderBook
    → Bool
    → Bool
    → OrderType
    → Step (Unit {0})
by_type m p ctx book halt daily OrderType.market = check_market m p ctx book halt daily
by_type m p ctx book halt daily OrderType.limit = next tt
by_type m p ctx book halt daily OrderType.unknown = stop (vetoed p halt daily (bad_order_type ∷ []))

unfoldable pub check_order_type :
    RiskManager → TradeProposal → RiskContext → OrderBook → Bool → Bool → Step (Unit {0})
check_order_type m p ctx book halt daily = by_type m p ctx book halt daily p.order_type

-- Sections 3 and 4: the agent's status and the order counts.
unfoldable pub check_state :
    RiskManager → TradeProposal → RiskContext → Bool → Bool → Step (Unit {0})
check_state m p ctx halt daily = do
  let veto = λ (why : Reason). vetoed p halt daily (why ∷ [])
  return_if (is_halted ctx.status && not (is_emergency p)) (veto agent_halted)
  return_if (is_paused ctx.status && is_buy p.side) (veto agent_paused)
  return_if (not (is_emergency p) && leb m.limits.max_orders_per_hour ctx.orders_last_hour)
      (veto hourly_limit)
  return_if (not (is_emergency p) && leb m.limits.max_orders_per_day ctx.orders_today)
      (veto daily_limit)

unfoldable pub by_side :
    RiskManager
    → TradeProposal
    → RiskContext
    → MarketView
    → Bool
    → Bool
    → List Reason
    → Step RiskDecision
by_side m p ctx mv halt daily why =
    if is_sell p.side then evaluate_sell m p ctx mv (is_emergency p) halt daily else (do
      return_if halt (vetoed p halt daily why)
      return_if daily (vetoed p halt daily why)
      evaluate_buy m p ctx mv)

-- The chain of checks: `next` carries an approval, `stop` a veto.
unfoldable pub checks : RiskManager → TradeProposal → RiskContext → MarketView → Step RiskDecision
checks m p ctx mv =
    let (halt, daily, why) = check_account m.limits ctx in
    do
      check_structure m p ctx mv halt daily
      check_order_type m p ctx mv.orderbook halt daily
      check_state m p ctx halt daily
      by_side m p ctx mv halt daily why

-- The decision that `evaluate` returns; `none` where it raises.
abbrev pub returned : Step RiskDecision → Option RiskDecision
returned (next d) = some d
returned (stop d) = some d
returned raised = none

unfoldable pub evaluate :
    RiskManager → TradeProposal → RiskContext → MarketView → Option RiskDecision
evaluate m p ctx mv = returned (checks m p ctx mv)
