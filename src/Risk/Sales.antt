-- ===== src/Risk/Sales.antt =====
-- What an approved sale is: never more than is held, near the best bid, above the exchange's minimum.
use tio_indodax.Prelude.{◌≡◌, ◌↔◌, Bool, true, Option, none, some, arith, pos, ◌<ℤ◌, ◌≤ℤ◌}
use tio_indodax.Decimal.{Decimal, ◌⊗◌, min}
use tio_indodax.Dict.{get_or}
use tio_indodax.Exchange.Models.{sell, best_bid, round_qty, min_order_violation, PairInfo, truthy}
use tio_indodax.Exchange.Rounding.{FitsOpt, round_qty-le}
use tio_indodax.Risk.Types.{
  RiskManager, RiskContext, MarketView, TradeProposal, RiskDecision, OrderType, approve, approved,
  next,
}
use tio_indodax.Risk.Account.{check_account}
use tio_indodax.Risk.Sell.{evaluate_sell, sell_decision, sell_price, too_low, less_pct}
use tio_indodax.Risk.Evaluate.{by_side, evaluate, is_emergency}
use tio_indodax.Risk.Gates.{Gated, approved-Gated}

abbrev pub AtLeast : Option Decimal → Decimal → Type 0
AtLeast none x = Unit
AtLeast (some m) x = m ≤ℤ x

-- The order meets the exchange's minimum.
pub record IsOrderable (info : PairInfo) (price qty : Decimal) : Type 0 where
  pub some_qty : pos 0 <ℤ qty
  pub some_price : pos 0 <ℤ price
  pub base_minimum : AtLeast info.min_base qty
  pub quote_minimum : AtLeast info.min_quote (price ⊗ qty)

pub violation-none :
    (info : PairInfo) (price qty : Decimal)
    → min_order_violation info price qty ≡ none
    → IsOrderable info price qty
unfolding min_order_violation
violation-none info price qty h = record {
  some_qty = ground arith;
  some_price = ground arith;
  base_minimum = ground arith;
  quote_minimum = ground arith;
}

module _ (m : RiskManager) (p : TradeProposal) (ctx : RiskContext) (mv : MarketView) where
  abbrev pub held : Decimal
  held = get_or ctx.position_qty p.pair (pos 0)

  -- The sale covers what is asked or all that is held, rounded down; a limit is not under the floor
  -- below the best bid; and the verdict is an approval exactly where nothing was cut off.
  pub record IsSale (d : RiskDecision) : Type 0 where
    pub quantity : d.qty ≡ round_qty mv.info (min p.qty held)
    pub priced : d.price ≡ sell_price p mv.info
    pub near_bid :
        (bid : Decimal)
        → p.order_type ≡ OrderType.limit
        → best_bid mv.orderbook ≡ some bid
        → bid ⊗ less_pct m.market.max_slippage_pct ≤ℤ d.price
    pub orderable : IsOrderable mv.info d.price d.qty
    pub whole_size : (d.verdict ≡ approve) ↔ (d.qty ≡ p.qty)

  sell-IsSale :
      (e h s : Bool) (d : RiskDecision) → evaluate_sell m p ctx mv e h s ≡ next d → IsSale d
  unfolding evaluate_sell sell_decision too_low
  sell-IsSale e h s d eq = record {
    quantity = ground arith;
    priced = ground arith;
    near_bid = ground arith;
    orderable = violation-none mv.info d.price d.qty (ground arith);
    whole_size = (ground arith, ground arith);
  }

  Gated-IsSale : (d : RiskDecision) → p.side ≡ sell → Gated m p ctx mv d → IsSale d
  unfolding by_side
  Gated-IsSale d side g =
      sell-IsSale (is_emergency p) (check_account m.limits ctx).0 (check_account m.limits ctx).1 d
        (ground (arith, g.by_method))

-- An approved sale is for what was asked or all that is held, whichever is less, rounded down to
-- the step; its price is no lower than the floor below the best bid if it is a limit order; it
-- meets the exchange's minimum; and its verdict is APPROVE exactly where nothing was cut off.
pub approved-IsSale :
    (m : RiskManager) (p : TradeProposal) (ctx : RiskContext) (mv : MarketView) (d : RiskDecision)
    → p.side ≡ sell
    → evaluate m p ctx mv ≡ some d
    → approved d ≡ true
    → IsSale m p ctx mv d
approved-IsSale m p ctx mv d side e good =
    Gated-IsSale m p ctx mv d side (approved-Gated m p ctx mv d e good)

-- No shorting: an approved sale is for no more than is held and no more than was proposed, where 28
-- digits hold the lesser of the two and its quotient by the quantity step.
pub approved_sale-le_held :
    (m : RiskManager) (p : TradeProposal) (ctx : RiskContext) (mv : MarketView) (d : RiskDecision)
    → p.side ≡ sell
    → FitsOpt (min p.qty (held m p ctx mv)) (truthy mv.info.qty_step)
    → evaluate m p ctx mv ≡ some d
    → approved d ≡ true
    → (d.qty ≤ℤ held m p ctx mv) × (d.qty ≤ℤ p.qty)
approved_sale-le_held m p ctx mv d side fits e good =
    let sale = approved-IsSale m p ctx mv d side e good in
    let down = round_qty-le mv.info (min p.qty (held m p ctx mv)) fits in
    (ground (arith, sale.quantity, down), ground (arith, sale.quantity, down))
