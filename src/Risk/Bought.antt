-- ===== src/Risk/Bought.antt =====
-- The chain of `_evaluate_buy` put together: an approved purchase has passed every one of its checks.
use tio_indodax.Prelude.{◌≡◌, Bool, true, false, some, arith}
use tio_indodax.Decimal.{Decimal, ◌⊗◌}
use tio_indodax.Exchange.Models.{buy, truthy}
use tio_indodax.Risk.Types.{
  RiskManager, RiskContext, MarketView, TradeProposal, RiskDecision, Verdict, too_small_to_exit,
  return_if, approved, next,
}
use tio_indodax.Risk.Account.{check_account}
use tio_indodax.Risk.Chain.{>>=-eq-next}
use tio_indodax.Risk.Buy.{
  veto_if, check_protection, check_exposure, Quote, check_price, caps, Caps, binding_cap, Size,
  size, too_small, check_liquidity, check_edge, buy_decision, evaluate_buy,
}
use tio_indodax.Risk.Evaluate.{by_side, evaluate}
use tio_indodax.Risk.Gates.{Gated, approved-Gated}
use tio_indodax.Risk.Purchases.{
  UnderAll, UnderAll-le, binding_cap-UnderAll, IsProtected, protection-IsProtected, IsExposable,
  exposure-IsExposable, IsQuoted, price-IsQuoted, IsSized, size-IsSized, IsLiquid,
  liquidity-IsLiquid, HasEdge, edge-HasEdge, CanExit, small-CanExit,
}

returned_not : (test : Bool) (v : RiskDecision) → return_if test v ≡ next tt → test ≡ false
returned_not test v h = ground arith

next_injective : {a d : RiskDecision} → next a ≡ next d → d ≡ a
next_injective h = cc

module _ (m : RiskManager) (p : TradeProposal) (ctx : RiskContext) (mv : MarketView) where
  -- Everything that the checks of a purchase have established.
  pub record IsPurchase (d : RiskDecision) : Type 0 where
    pub ref : Decimal
    pub quote : Quote
    pub room : Caps
    pub sizing : Size
    pub spread : Decimal
    pub slip : Decimal
    pub protected : IsProtected m p ctx mv ref
    pub exposable : IsExposable m p ctx mv
    pub quoted : IsQuoted m p ctx mv quote
    pub room_of : caps m ctx p mv.info ≡ next room
    pub sized : IsSized m p ctx mv quote.price (binding_cap room).1 sizing
    pub capped : UnderAll (binding_cap room).1 room
    pub can_exit : CanExit m p ctx mv sizing.qty (truthy mv.info.min_quote) p.stop_loss
    pub liquid : IsLiquid m p ctx mv (sizing.qty ⊗ quote.price) spread slip
    pub edge : HasEdge m p ctx mv quote ref spread slip
    pub decided : d ≡ buy_decision p quote.price sizing

  assemble :
      (ref : Decimal) (q : Quote) (cs : Caps) (s : Size) (l : Decimal × Decimal) (d : RiskDecision)
      → check_protection m.limits p ≡ next ref
      → check_exposure m.limits ctx p ≡ next tt
      → check_price m p mv ≡ next q
      → caps m ctx p mv.info ≡ next cs
      → size p mv.info q.price (binding_cap cs) ≡ next s
      → veto_if p
          (too_small m.limits ctx p s.qty (truthy mv.info.min_quote) p.stop_loss)
          too_small_to_exit
        ≡ next tt
      → check_liquidity m p mv (s.qty ⊗ q.price) ≡ next l
      → check_edge m p mv.info q ref l.0 l.1 ≡ next tt
      → next (buy_decision p q.price s) ≡ next d
      → IsPurchase d
  assemble ref q cs s l d e1 e2 e3 e4 e5 e6 e7 e8 last = record {
    ref = ref;
    quote = q;
    room = cs;
    sizing = s;
    spread = l.0;
    slip = l.1;
    protected = protection-IsProtected m p ctx mv ref e1;
    exposable = exposure-IsExposable m p ctx mv e2;
    quoted = price-IsQuoted m p ctx mv q e3;
    room_of = e4;
    sized = size-IsSized m p ctx mv q.price (binding_cap cs) s e5;
    capped = binding_cap-UnderAll cs;
    can_exit =
        small-CanExit m p ctx mv s.qty (truthy mv.info.min_quote) p.stop_loss (
          returned_not (too_small m.limits ctx p s.qty (truthy mv.info.min_quote) p.stop_loss) _
            e6);
    liquid = liquidity-IsLiquid m p ctx mv (s.qty ⊗ q.price) l e7;
    edge = edge-HasEdge m p ctx mv q ref l.0 l.1 e8;
    decided = next_injective last;
  }

  buy-IsPurchase : (d : RiskDecision) → evaluate_buy m p ctx mv ≡ next d → IsPurchase d
  unfolding evaluate_buy
  buy-IsPurchase d e =
      let (ref, protection, e1) = >>=-eq-next _ _ e in
      let (_, exposure, e2) = >>=-eq-next _ _ e1 in
      let (q, price, e3) = >>=-eq-next _ _ e2 in
      let (cs, room, e4) = >>=-eq-next _ _ e3 in
      let (s, sizing, e5) = >>=-eq-next _ _ e4 in
      let (_, big, e6) = >>=-eq-next _ _ e5 in
      let (l, liquid, e7) = >>=-eq-next _ _ e6 in
      let (_, edge, last) = >>=-eq-next _ _ e7 in
      assemble ref q cs s l d protection exposure price room sizing big liquid edge last

  Gated-IsPurchase : (d : RiskDecision) → p.side ≡ buy → Gated m p ctx mv d → IsPurchase d
  unfolding by_side
  Gated-IsPurchase d side g = buy-IsPurchase d (ground (arith, g.by_method))

  Gated-untriggered :
      (d : RiskDecision)
      → p.side ≡ buy
      → Gated m p ctx mv d
      → ((check_account m.limits ctx).0 ≡ false) × ((check_account m.limits ctx).1 ≡ false)
  unfolding by_side
  Gated-untriggered d side g = (ground (arith, g.by_method), ground (arith, g.by_method))

-- An approved purchase has passed every check on a buy: no kill switch and no daily stop is
-- triggered; the stop-loss is set where demanded and below the entry, and the reference above it;
-- the pair is out of its cooldown and finds a place; the price is rounded down and near the best
-- ask; the size is positive, above the exchange's minimum, and as proposed where that is worth no
-- more than every cap leaves, else what the least cap buys; the position can be sold at its stop;
-- spread, volume and exit slippage are within the settings; and the expected move pays for the
-- costs. The decision carries that size and that price.
pub approved-IsPurchase :
    (m : RiskManager) (p : TradeProposal) (ctx : RiskContext) (mv : MarketView) (d : RiskDecision)
    → p.side ≡ buy
    → evaluate m p ctx mv ≡ some d
    → approved d ≡ true
    → IsPurchase m p ctx mv d
      × ((check_account m.limits ctx).0 ≡ false)
      × ((check_account m.limits ctx).1 ≡ false)
approved-IsPurchase m p ctx mv d side e good =
    let g = approved-Gated m p ctx mv d e good in
    let quiet = Gated-untriggered m p ctx mv d side g in
    (Gated-IsPurchase m p ctx mv d side g, quiet.0, quiet.1)

full_is_approved : (d : RiskDecision) → d.verdict ≡ Verdict.approve → approved d ≡ true
unfolding approved
full_is_approved d h = rw h

unresized :
    (p : TradeProposal) (price : Decimal) (s : Size) (d : RiskDecision)
    → d ≡ buy_decision p price s
    → d.verdict ≡ Verdict.approve
    → (s.resized ≡ false) × (d.qty ≡ s.qty) × (d.price ≡ price)
unfolding buy_decision
unresized p price s d e full = (ground arith, ground arith, ground arith)

-- An approved purchase that was not resized is worth no more than the least of the caps leaves, and
-- so no more than each of them: position, asset exposure, the agent's capital and cash, and the
-- exchange's free balance where it is known.
pub approved_purchase_room :
    (m : RiskManager) (p : TradeProposal) (ctx : RiskContext) (mv : MarketView) (d : RiskDecision)
    → p.side ≡ buy
    → evaluate m p ctx mv ≡ some d
    → d.verdict ≡ Verdict.approve
    → (room : Caps) × (caps m ctx p mv.info ≡ next room) × UnderAll (d.qty ⊗ d.price) room
approved_purchase_room m p ctx mv d side e full =
    let good = full_is_approved d full in
    let b = (approved-IsPurchase m p ctx mv d side e good).0 in
    let plain = unresized p b.quote.price b.sizing d b.decided full in
    let (kept, worth) = b.sized.kept plain.0 in
    (
      b.room,
      b.room_of,
      UnderAll-le (d.qty ⊗ d.price) (binding_cap b.room).1 b.room (rw (plain.1, plain.2) worth)
          b.capped,
    )
