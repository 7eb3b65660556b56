-- ===== src/Engine/Approved.antt =====
-- What an approval changes of the context.
use tio_indodax.Prelude.{◌≡◌, refl, some, arith, inl, inr, Bool-cases, Option-cases}
use mathlib.Core.Path.{subst}
use Prim.Native.Nat.{◌+◌}
use tio_indodax.Decimal.{◌⊗◌}
use tio_indodax.Dict.{Dict}
use tio_indodax.Costs.{FeeSettings}
use tio_indodax.Exchange.Models.{is_buy}
use tio_indodax.Risk.Types.{RiskContext, RiskDecision}
use tio_indodax.Engine.Context.{
  Market, after_approval, after_buy, with_buy, free_after, count_order, counted,
}

-- The status stays, and the order is counted unless it is an emergency exit.
pub record IsNext (d : RiskDecision) (ctx ctx' : RiskContext) : Type 0 where
  pub status : ctx'.status ≡ ctx.status
  pub reconciled : ctx'.reconciliation_ok ≡ ctx.reconciliation_ok
  pub last_hour : ctx'.orders_last_hour ≡ ctx.orders_last_hour + counted d
  pub today : ctx'.orders_today ≡ ctx.orders_today + counted d

-- What a buy leaves as it is.
abbrev IsSame : RiskContext → RiskContext → Type 0
IsSame ctx ctx' =
    (ctx'.status ≡ ctx.status)
    × (ctx'.reconciliation_ok ≡ ctx.reconciliation_ok)
    × (ctx'.orders_last_hour ≡ ctx.orders_last_hour)
    × (ctx'.orders_today ≡ ctx.orders_today)

module _ (fees : FeeSettings) (markets : Dict Market) (d : RiskDecision) (ctx : RiskContext) where
  after_buy-IsSame :
      (ctx' : RiskContext) → after_buy fees markets d ctx ≡ some ctx' → IsSame ctx ctx'
  after_buy-IsSame ctx' e =
      elim (Option-cases
        (free_after fees markets d.proposal.pair (d.qty ⊗ d.price) ctx.exchange_free_idr)) [
          | inl missing ↦ absurd (ground arith)
          | inr (free, there) ↦
              let same : with_buy d free ctx ≡ ctx' = ground arith in
              subst (IsSame ctx) same (refl, refl, refl, refl)
        ]

  counted-IsNext :
      (x ctx' : RiskContext) → IsSame ctx x → count_order d x ≡ ctx' → IsNext d ctx ctx'
  counted-IsNext x ctx' (s, r, h, t) e = subst (IsNext d ctx) e (record {
    status = s;
    reconciled = r;
    last_hour = omega (arith, h);
    today = omega (arith, t);
  })

  pub after_approval-IsNext :
      (ctx' : RiskContext) → after_approval fees markets d ctx ≡ some ctx' → IsNext d ctx ctx'
  unfolding after_approval
  after_approval-IsNext ctx' e = elim (Bool-cases (is_buy d.proposal.side)) [
    | inl bought ↦ elim (Option-cases (after_buy fees markets d ctx)) [
      | inl missing ↦ absurd (ground arith)
      | inr (x, there) ↦ counted-IsNext x ctx' (after_buy-IsSame x there) (ground arith)
    ]
    | inr sold ↦ counted-IsNext ctx ctx' (refl, refl, refl, refl) (ground arith)
  ]
