-- ===== src/Risk/Sell.antt =====
-- `_evaluate_sell`.
use tio_indodax.Prelude.{
  Bool, true, false, ◌&&◌, Option, none, some, List, [], ◌∷◌, if◌then◌else◌, pos, ltb_ℤ, leb_ℤ,
  eqb_ℤ,
}
use tio_indodax.Decimal.{Decimal, ◌⊖◌, ◌⊗◌, ◌⊘◌, whole, min}
use tio_indodax.Dict.{get_or}
use tio_indodax.Exchange.Models.{
  sell, Violation, PairInfo, OrderBook, best_bid, round_price, round_qty, min_order_violation,
}
use tio_indodax.Risk.Types.{
  RiskManager, RiskContext, MarketView, TradeProposal, RiskDecision, OrderType, Reason, approve,
  resize, no_position, sell_too_low, below_minimum, emergency_exit, exit_approved, qty_capped, Step,
  next, return_if, vetoed, ◌>>◌,
}

abbrev pub is_limit : OrderType → Bool
is_limit OrderType.limit = true
is_limit _ = false

-- 1 - pct / 100
abbrev pub less_pct : Decimal → Decimal
less_pct pct = whole 1 ⊖ pct ⊘ whole 100

-- The sell limit is under the floor below the best bid.
unfoldable pub too_low : RiskManager → OrderBook → Decimal → Bool
too_low m book price = elim (best_bid book) [
  | none ↦ false
  | some bid ↦ ltb_ℤ price (bid ⊗ less_pct m.market.max_slippage_pct)
]

-- Where a method returns a veto with the violation as its reason.
abbrev pub violated : Option Violation → Bool
violated none = false
violated (some _) = true

abbrev pub violation_reason : Option Violation → List Reason
violation_reason none = []
violation_reason (some v) = below_minimum v ∷ []

unfoldable pub sell_price : TradeProposal → PairInfo → Decimal
sell_price p info = if is_limit p.order_type then round_price info p.price sell else p.price

unfoldable pub sell_decision : TradeProposal → Bool → Bool → Bool → Decimal → Decimal → RiskDecision
sell_decision p emergency halt daily qty price =
    let same = eqb_ℤ qty p.qty in
    let first = if emergency then emergency_exit else exit_approved in
    record {
      verdict = if same then approve else resize;
      proposal = p;
      qty = qty;
      price = price;
      reasons = first ∷ (if same then [] else qty_capped ∷ []);
      trigger_halt = halt;
      trigger_daily_stop = daily;
    }

unfoldable pub evaluate_sell :
    RiskManager → TradeProposal → RiskContext → MarketView → Bool → Bool → Bool → Step RiskDecision
evaluate_sell m p ctx mv emergency halt daily = do
  let held = get_or ctx.position_qty p.pair (pos 0)
  let veto = vetoed p halt daily
  return_if (leb_ℤ held (pos 0)) (veto (no_position ∷ []))
  let qty = round_qty mv.info (min p.qty held)
  let price = sell_price p mv.info
  return_if (is_limit p.order_type && too_low m mv.orderbook price) (veto (sell_too_low ∷ []))
  let why = min_order_violation mv.info price qty
  return_if (violated why) (veto (violation_reason why))
  next (sell_decision p emergency halt daily qty price)
