-- ===== src/Risk/Verdicts.antt =====
-- agent/risk/risk_manager.py: what the decisions of `evaluate` are made from.
use tio_indodax.Prelude.{
  ◌≡◌, refl, Bool, true, false, Option, none, some, List, arith, Option-cases, inl, inr, ap,
  if_cases, ◌⊎◌,
}
use mathlib.Core.Path.{subst}
use tio_indodax.Decimal.{Decimal}
use tio_indodax.Exchange.Models.{best_bid, is_sell}
use tio_indodax.Risk.Types.{
  RiskManager, RiskContext, MarketView, TradeProposal, RiskDecision, Cap, Reason, OrderType,
  approved, Step, next, stop, raised, vetoed,
}
use tio_indodax.Risk.Chain.{
  IsVeto, StopsBy, StopsBy-bind, StopsBy-return_if, StopsBy-or_raise, IsApproval, PassesBy,
  PassesBy-bind,
}
use tio_indodax.Risk.Sell.{evaluate_sell, sell_decision}
use tio_indodax.Risk.Buy.{
  check_protection, check_exposure, check_price, caps, size, check_liquidity, check_edge,
  evaluate_buy, need, Quote, Size, buy_decision,
}
use tio_indodax.Risk.Evaluate.{
  check_structure, check_market, check_order_type, check_state, by_side, checks, evaluate, by_type,
  is_emergency, returned,
}

vetoed-IsVeto :
    (p : TradeProposal) (halt daily : Bool) (why : List Reason) → IsVeto (vetoed p halt daily why)
vetoed-IsVeto p halt daily why = record { vetoes = refl; nothing = refl; unpriced = refl }

module _ {A : Type 0} where
  StopsBy-need : (p : TradeProposal) (why : Reason) (o : Option A) → StopsBy IsVeto (need p why o)
  StopsBy-need p why none = vetoed-IsVeto p _ _ _
  StopsBy-need p why (some a) = tt

ruleset veto_rules =
    (vetoed-IsVeto, StopsBy-bind, StopsBy-return_if, StopsBy-or_raise, StopsBy-need)

sell_stops :
    (m : RiskManager) (p : TradeProposal) (ctx : RiskContext) (mv : MarketView) (e h d : Bool)
    → StopsBy IsVeto (evaluate_sell m p ctx mv e h d)
unfolding evaluate_sell
sell_stops m p ctx mv e h d = search veto_rules

module _ (m : RiskManager) (p : TradeProposal) (ctx : RiskContext) (mv : MarketView) where
  protection_stops : StopsBy IsVeto (check_protection m.limits p)
  unfolding check_protection
  protection_stops = search veto_rules depth 12

  exposure_stops : StopsBy IsVeto (check_exposure m.limits ctx p)
  unfolding check_exposure
  exposure_stops = search veto_rules depth 12

  price_stops : StopsBy IsVeto (check_price m p mv)
  unfolding check_price
  price_stops = search veto_rules depth 12

  caps_stops : StopsBy IsVeto (caps m ctx p mv.info)
  unfolding caps
  caps_stops = search veto_rules depth 12

  size_stops : (price : Decimal) (c : Cap × Decimal) → StopsBy IsVeto (size p mv.info price c)
  unfolding size
  size_stops price c = search veto_rules depth 12

  liquidity_stops : (n : Decimal) → StopsBy IsVeto (check_liquidity m p mv n)
  unfolding check_liquidity
  liquidity_stops n = search veto_rules depth 16

  edge_stops : (q : Quote) (a b c : Decimal) → StopsBy IsVeto (check_edge m p mv.info q a b c)
  unfolding check_edge
  edge_stops q a b c = search veto_rules depth 12

  buy_stops : StopsBy IsVeto (evaluate_buy m p ctx mv)
  unfolding evaluate_buy
  buy_stops =
      search
        (
          veto_rules, protection_stops, exposure_stops, price_stops, caps_stops, size_stops,
          liquidity_stops, edge_stops,
        )
        depth 20

  structure_stops : (h d : Bool) → StopsBy IsVeto (check_structure m p ctx mv h d)
  unfolding check_structure
  structure_stops h d = search veto_rules depth 20

  market_stops : (h d : Bool) → StopsBy IsVeto (check_market m p ctx mv.orderbook h d)
  unfolding check_market
  market_stops h d = elim (Option-cases (best_bid mv.orderbook)) [
    | inl empty ↦ rw empty (search veto_rules depth 12)
    | inr (bid, there) ↦ rw there (search veto_rules depth 12)
  ]

  order_type_stops : (h d : Bool) → StopsBy IsVeto (check_order_type m p ctx mv.orderbook h d)
  unfolding check_order_type
  order_type_stops h d =
      elim p.order_type as (λ t. StopsBy IsVeto (by_type m p ctx mv.orderbook h d t)) [
        | OrderType.market ↦ market_stops h d
        | OrderType.limit ↦ tt
        | OrderType.unknown ↦ vetoed-IsVeto p h d _
      ]

  state_stops : (h d : Bool) → StopsBy IsVeto (check_state m p ctx h d)
  unfolding check_state
  state_stops h d = search veto_rules depth 16

  by_side_stops : (h d : Bool) (why : List Reason) → StopsBy IsVeto (by_side m p ctx mv h d why)
  unfolding by_side
  by_side_stops h d why =
      if_cases (StopsBy IsVeto) (is_sell p.side) _ _
        (λ _. sell_stops m p ctx mv (is_emergency p) h d)
        (λ _. search (veto_rules, buy_stops) depth 12)

  checks_stop : StopsBy IsVeto (checks m p ctx mv)
  unfolding checks
  checks_stop =
      search (veto_rules, structure_stops, order_type_stops, state_stops, by_side_stops) depth 12

sell_decision-IsApproval :
    (p : TradeProposal) (e h d : Bool) (qty price : Decimal)
    → IsApproval (sell_decision p e h d qty price)
unfolding sell_decision approved
sell_decision-IsApproval p e h d qty price = ground arith

buy_decision-IsApproval :
    (p : TradeProposal) (price : Decimal) (s : Size) → IsApproval (buy_decision p price s)
unfolding buy_decision approved
buy_decision-IsApproval p price s = ground arith

ruleset pass_rules = (PassesBy-bind, sell_decision-IsApproval, buy_decision-IsApproval)

sell_passes :
    (m : RiskManager) (p : TradeProposal) (ctx : RiskContext) (mv : MarketView) (e h d : Bool)
    → PassesBy IsApproval (evaluate_sell m p ctx mv e h d)
unfolding evaluate_sell
sell_passes m p ctx mv e h d = search pass_rules depth 12

module _ (m : RiskManager) (p : TradeProposal) (ctx : RiskContext) (mv : MarketView) where
  buy_passes : PassesBy IsApproval (evaluate_buy m p ctx mv)
  unfolding evaluate_buy
  buy_passes = search pass_rules depth 20

  by_side_passes :
      (h d : Bool) (why : List Reason) → PassesBy IsApproval (by_side m p ctx mv h d why)
  unfolding by_side
  by_side_passes h d why =
      if_cases (PassesBy IsApproval) (is_sell p.side) _ _
        (λ _. sell_passes m p ctx mv (is_emergency p) h d)
        (λ _. search (pass_rules, buy_passes) depth 12)

  checks_pass : PassesBy IsApproval (checks m p ctx mv)
  unfolding checks
  checks_pass = search (pass_rules, by_side_passes) depth 12

-- What a chain that stops only by vetoes and passes only approvals returns.
returned_by :
    (s : Step RiskDecision) (d : RiskDecision)
    → StopsBy IsVeto s
    → PassesBy IsApproval s
    → returned s ≡ some d
    → ((s ≡ next d) × (approved d ≡ true)) ⊎ IsVeto d
returned_by (next a) d v w e = let same : a ≡ d = cc in inl (ap next same, subst IsApproval same w)
returned_by (stop a) d v w e = let same : a ≡ d = cc in inr (subst IsVeto same v)
returned_by raised d v w e = absurd (ground arith)

evaluated :
    (m : RiskManager) (p : TradeProposal) (ctx : RiskContext) (mv : MarketView) (d : RiskDecision)
    → evaluate m p ctx mv ≡ some d
    → ((checks m p ctx mv ≡ next d) × (approved d ≡ true)) ⊎ IsVeto d
unfolding evaluate
evaluated m p ctx mv d h =
    returned_by (checks m p ctx mv) d (checks_stop m p ctx mv) (checks_pass m p ctx mv) h

veto-not-approved : (d : RiskDecision) → IsVeto d → approved d ≡ false
unfolding approved
veto-not-approved d v = rw v.vetoes

-- A decision that is no veto is one that every check let through.
pub checks-approved :
    (m : RiskManager) (p : TradeProposal) (ctx : RiskContext) (mv : MarketView) (d : RiskDecision)
    → evaluate m p ctx mv ≡ some d
    → approved d ≡ true
    → checks m p ctx mv ≡ next d
checks-approved m p ctx mv d h good = elim (evaluated m p ctx mv d h) [
  | inl passed ↦ passed.0
  | inr v ↦ let bad : approved d ≡ false = veto-not-approved d v in cc
]
