-- ===== src/Risk/Subject.antt =====
-- The decision that `evaluate` approves is about the proposal that it was given.
use tio_indodax.Prelude.{◌≡◌, refl, Bool, true, some, List, if_cases}
use mathlib.Core.Path.{subst}
use tio_indodax.Decimal.{Decimal}
use tio_indodax.Exchange.Models.{is_sell}
use tio_indodax.Risk.Types.{
  RiskManager, RiskContext, MarketView, TradeProposal, RiskDecision, Reason, approved,
}
use tio_indodax.Risk.Chain.{PassesBy, PassesBy-bind}
use tio_indodax.Risk.Sell.{evaluate_sell, sell_decision}
use tio_indodax.Risk.Buy.{evaluate_buy, buy_decision, Size}
use tio_indodax.Risk.Evaluate.{by_side, checks, evaluate, is_emergency}
use tio_indodax.Risk.Verdicts.{checks-approved}

abbrev pub IsFor : TradeProposal → RiskDecision → Type 0
IsFor p d = d.proposal ≡ p

sell_decision-IsFor :
    (p : TradeProposal) (e h d : Bool) (qty price : Decimal)
    → IsFor p (sell_decision p e h d qty price)
unfolding sell_decision
sell_decision-IsFor p e h d qty price = refl

buy_decision-IsFor :
    (p : TradeProposal) (price : Decimal) (s : Size) → IsFor p (buy_decision p price s)
unfolding buy_decision
buy_decision-IsFor p price s = refl

ruleset subject_rules = (PassesBy-bind, sell_decision-IsFor, buy_decision-IsFor)

module _ (m : RiskManager) (p : TradeProposal) (ctx : RiskContext) (mv : MarketView) where
  sell_passes : (e h d : Bool) → PassesBy (IsFor p) (evaluate_sell m p ctx mv e h d)
  unfolding evaluate_sell
  sell_passes e h d = search subject_rules depth 12

  buy_passes : PassesBy (IsFor p) (evaluate_buy m p ctx mv)
  unfolding evaluate_buy
  buy_passes = search subject_rules depth 20

  by_side_passes :
      (h d : Bool) (why : List Reason) → PassesBy (IsFor p) (by_side m p ctx mv h d why)
  unfolding by_side
  by_side_passes h d why =
      if_cases (PassesBy (IsFor p)) (is_sell p.side) _ _ (λ _. sell_passes (is_emergency p) h d)
        (λ _. search (subject_rules, buy_passes) depth 12)

  checks_pass : PassesBy (IsFor p) (checks m p ctx mv)
  unfolding checks
  checks_pass = search (subject_rules, by_side_passes) depth 12

pub approved-IsFor :
    (m : RiskManager) (p : TradeProposal) (ctx : RiskContext) (mv : MarketView) (d : RiskDecision)
    → evaluate m p ctx mv ≡ some d
    → approved d ≡ true
    → d.proposal ≡ p
approved-IsFor m p ctx mv d e good =
    subst (PassesBy (IsFor p)) (checks-approved m p ctx mv d e good) (checks_pass m p ctx mv)
