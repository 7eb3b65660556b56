-- ===== src/Risk/Gates.antt =====
-- What every approved order has passed: the structural checks, the order type, the agent's status
-- and the order counts.
use tio_indodax.Prelude.{
  ◌<◌, ◌≡◌, ◌⊎◌, Bool, true, false, some, arith, pos, ◌<ℤ◌, ◌≤ℤ◌, inl, inr, eq_iff, Option-cases,
}
use tio_indodax.Decimal.{Decimal, ◌⊗◌, min}
use tio_indodax.Dict.{get_or}
use tio_indodax.Exchange.Models.{buy, sell, tradable, FillEstimate, best_bid, estimate_fill}
use tio_indodax.Risk.Types.{
  RiskManager, RiskContext, MarketView, TradeProposal, RiskDecision, OrderType, AgentStatus,
  approved, next,
}
use tio_indodax.Risk.Account.{check_account}
use tio_indodax.Risk.Chain.{>>=-eq-next}
use tio_indodax.Risk.Buy.{member}
use tio_indodax.Risk.Evaluate.{
  is_emergency, check_structure, check_market, check_order_type, by_type, check_state, by_side,
  checks, evaluate, bad_exit,
}
use tio_indodax.Risk.Verdicts.{checks-approved}

module _ (m : RiskManager) (p : TradeProposal) (ctx : RiskContext) (mv : MarketView) where
  -- The pair is listed and its market open, the data is its own, the books agree, and what is to be
  -- sold is held.
  pub record IsSound : Type 0 where
    pub listed : member p.pair m.whitelist ≡ true
    pub own_market : mv.info.ticker_id ≡ p.pair
    pub sided : (p.side ≡ buy) ⊎ (p.side ≡ sell)
    pub some_qty : pos 0 <ℤ p.qty
    pub some_price : pos 0 <ℤ p.price
    pub open_market : tradable mv.info ≡ true
    pub reconciled : ctx.reconciliation_ok ≡ true
    pub covered : p.side ≡ sell → pos 0 <ℤ get_or ctx.position_qty p.pair (pos 0)
    pub flagged : p.is_emergency_exit ≡ true → is_emergency p ≡ true

  structure-IsSound : (h d : Bool) → check_structure m p ctx mv h d ≡ next tt → IsSound
  unfolding check_structure
  structure-IsSound h d e = record {
    listed = ground arith;
    own_market = ground (arith, eq_iff mv.info.ticker_id p.pair);
    sided = ground arith;
    some_qty = ground arith;
    some_price = ground arith;
    open_market = ground arith;
    reconciled = ground arith;
    covered = ground arith;
    flagged = ground arith;
  }

  -- Anything but an emergency exit is traded while the agent is not halted, below both order
  -- counts; a buy only while it is running.
  pub record IsTimely : Type 0 where
    pub not_halted :
        is_emergency p ≡ false
        → (ctx.status ≡ AgentStatus.running) ⊎ (ctx.status ≡ AgentStatus.paused)
    pub not_paused : p.side ≡ buy → ctx.status ≡ AgentStatus.running
    pub hourly : is_emergency p ≡ false → ctx.orders_last_hour < m.limits.max_orders_per_hour
    pub daily : is_emergency p ≡ false → ctx.orders_today < m.limits.max_orders_per_day

  state-IsTimely : (h d : Bool) → check_state m p ctx h d ≡ next tt → IsTimely
  unfolding check_state is_emergency
  state-IsTimely h d e = record {
    not_halted = ground arith;
    not_paused = ground arith;
    hourly = ground arith;
    daily = ground arith;
  }

  -- A market order is an emergency exit whose estimated fill, at the best bid, is complete and
  -- within the slippage cap.
  abbrev pub FillsWithin : Decimal → Type 0
  FillsWithin most =
      (bid : Decimal) × (est : FillEstimate) × (s : Decimal) × (best_bid mv.orderbook ≡ some bid)
      × (estimate_fill mv.orderbook sell (min p.qty (get_or ctx.position_qty p.pair (pos 0)) ⊗ bid)
          ≡ some est)
      × (est.fully_filled ≡ true)
      × (est.slippage_pct ≡ some s)
      × (s ≤ℤ most)

  abbrev pub IsPlaceable : OrderType → Type 0
  IsPlaceable OrderType.limit = Unit
  IsPlaceable OrderType.market =
      (is_emergency p ≡ true) × FillsWithin m.limits.emergency_exit_max_slippage_pct
  IsPlaceable OrderType.unknown = ⊥

  good_exit :
      (est : FillEstimate) (most : Decimal)
      → bad_exit est most ≡ false
      → (est.fully_filled ≡ true) × ((s : Decimal) × (est.slippage_pct ≡ some s) × (s ≤ℤ most))
  good_exit est most h = elim (Option-cases est.slippage_pct) [
    | inl missing ↦ absurd (ground arith)
    | inr (s, there) ↦ (ground arith, (s, there, ground arith))
  ]

  market-FillsWithin :
      (h d : Bool) → check_market m p ctx mv.orderbook h d ≡ next tt → IsPlaceable OrderType.market
  unfolding check_market
  market-FillsWithin h d e = elim (Option-cases (best_bid mv.orderbook)) [
    | inl empty ↦ absurd (ground arith)
    | inr (bid, there) ↦
        elim (Option-cases (
          estimate_fill mv.orderbook sell
            (min p.qty (get_or ctx.position_qty p.pair (pos 0)) ⊗ bid))) [
              | inl failed ↦ absurd (ground arith)
              | inr (est, filled) ↦
                  let (full, (s, slip, small)) =
                    good_exit est m.limits.emergency_exit_max_slippage_pct (ground arith) in
                  (ground arith, (bid, est, s, there, filled, full, slip, small))
            ]
  ]

  type-IsPlaceable :
      (t : OrderType) (h d : Bool) → by_type m p ctx mv.orderbook h d t ≡ next tt → IsPlaceable t
  type-IsPlaceable OrderType.limit h d e = tt
  type-IsPlaceable OrderType.market h d e = market-FillsWithin h d e
  type-IsPlaceable OrderType.unknown h d e = absurd (ground arith)

  -- What the side's own method was left with.
  pub record Gated (d : RiskDecision) : Type 0 where
    pub sound : IsSound
    pub timely : IsTimely
    pub placeable : IsPlaceable p.order_type
    pub by_method :
        by_side m p ctx mv
          (check_account m.limits ctx).0
          (check_account m.limits ctx).1
          (check_account m.limits ctx).2
        ≡ next d

  checks-Gated : (d : RiskDecision) → checks m p ctx mv ≡ next d → Gated d
  unfolding checks check_order_type
  checks-Gated d e =
      let (_, structure, more) = >>=-eq-next _ _ e in
      let (_, type, rest) = >>=-eq-next _ _ more in
      let (_, state, last) = >>=-eq-next _ _ rest in
      record {
        sound = structure-IsSound _ _ structure;
        timely = state-IsTimely _ _ state;
        placeable = type-IsPlaceable p.order_type _ _ type;
        by_method = last;
      }

  pub approved-Gated :
      (d : RiskDecision) → evaluate m p ctx mv ≡ some d → approved d ≡ true → Gated d
  approved-Gated d e good = checks-Gated d (checks-approved m p ctx mv d e good)

-- Every approved order passed all the gates: a whitelisted and open market with its own data, a
-- positive quantity and price, agreed books, something held if it sells; unless it is an emergency
-- exit an agent that is not halted and both order counts below their limits; for a buy an agent
-- that is running; and it is a limit order, or an emergency exit by market order whose estimated
-- fill is complete and within the slippage cap.
pub approved_gates :
    (m : RiskManager) (p : TradeProposal) (ctx : RiskContext) (mv : MarketView) (d : RiskDecision)
    → evaluate m p ctx mv ≡ some d
    → approved d ≡ true
    → IsSound m p ctx mv × IsTimely m p ctx mv × IsPlaceable m p ctx mv p.order_type
approved_gates m p ctx mv d e good =
    let g = approved-Gated m p ctx mv d e good in (g.sound, g.timely, g.placeable)
