-- ===== src/Engine/Allowed.antt =====
-- What a cycle may approve under a status and a result of the reconciliation.
use tio_indodax.Prelude.{
  ℕ, ◌≡◌, ◌≢◌, Bool, true, false, some, List, [], ◌∷◌, ◌++◌, All, arith, inl, inr, ◌∙◌,
}
use mathlib.Core.Path.{subst}
use tio_indodax.Dict.{Dict}
use tio_indodax.Exchange.Models.{buy}
use tio_indodax.Storage.{Database}
use tio_indodax.Portfolio.{Portfolio}
use tio_indodax.Risk.Types.{
  RiskContext, RiskDecision, MarketView, TradeProposal, AgentStatus, approved,
}
use tio_indodax.Risk.Evaluate.{evaluate, is_emergency}
use tio_indodax.Risk.Gates.{approved_gates}
use tio_indodax.Risk.Subject.{approved-IsFor}
use tio_indodax.Runner.Days.{Books}
use tio_indodax.Engine.Context.{Market, CycleInputs}
use tio_indodax.Engine.Cycle.{DecisionEngine, CycleResult, Run, run_cycle}
use tio_indodax.Engine.Judged.{IsCarried}
use tio_indodax.Engine.Approved.{after_approval-IsNext}
use tio_indodax.Engine.Returns.{finished-Carried, cycle_ran}

All-append :
    {A : Type 0} (P : A → Type 0) (xs : List A) (x : A) → All P xs → P x → All P (xs ++ x ∷ [])
All-append P [] x h p = (p, tt)
All-append P (y ∷ xs) x (q, h) p = (q, All-append P xs x h p)

-- What may be approved under a status and a result of the reconciliation.
abbrev pub IsAllowed : AgentStatus → Bool → RiskDecision → Type 0
IsAllowed status reconciled d =
    approved d ≡ true
    → (reconciled ≡ true)
      × (d.proposal.side ≡ buy → status ≡ AgentStatus.running)
      × (is_emergency d.proposal ≡ false → status ≢ AgentStatus.halted)

abbrev pub AreAllowed : AgentStatus → Bool → RiskContext → List (ℕ × RiskDecision) → Type 0
AreAllowed status reconciled ctx ds =
    (ctx.status ≡ status)
    × (ctx.reconciliation_ok ≡ reconciled)
    × All (λ (x : ℕ × RiskDecision). IsAllowed status reconciled x.1) ds

module _ (e : DecisionEngine) (markets : Dict Market) where
  judged-IsAllowed :
      (p : TradeProposal) (ctx : RiskContext) (view : MarketView) (d : RiskDecision)
      → evaluate e.risk p ctx view ≡ some d
      → approved d ≡ true
      → IsAllowed ctx.status ctx.reconciliation_ok d
  judged-IsAllowed p ctx view d evaluated good _ =
      let (sound, timely, _) = approved_gates e.risk p ctx view d evaluated good in
      let same = approved-IsFor e.risk p ctx view d evaluated good in
      (
        sound.reconciled,
        λ side. timely.not_paused (subst (λ x. x.side ≡ buy) same side),
        λ calm halted_now.
            elim (timely.not_halted (subst (λ x. is_emergency x ≡ false) same calm)) [
              | inl running ↦ ground arith
              | inr paused ↦ ground arith
            ],
      )

  AreAllowed-IsCarried :
      (status : AgentStatus) (reconciled : Bool)
      → IsCarried e markets (AreAllowed status reconciled)
  AreAllowed-IsCarried status reconciled = record {
    vetoes = λ ctx ds n d bad q.
        let (s, r, all) = q in (s, r, All-append _ ds (n, d) all (λ good. absurd (ground arith)));
    approvals = λ ctx ctx' ds n p view d evaluated good next q.
        let (s, r, all) = q in
        let x = after_approval-IsNext e.risk.fees markets d ctx ctx' next in
        let allowed = judged-IsAllowed p ctx view d evaluated good in
        (
          x.status ∙ s,
          x.reconciled ∙ r,
          All-append _ ds (n, d) all
              (subst (λ y. IsAllowed y reconciled d) s
                (subst (λ y. IsAllowed ctx.status y d) r allowed)),
        );
  }

-- In a cycle that returns, nothing is approved while the reconciliation fails; a buy is approved only
-- while the agent is running; and while it is halted only an emergency exit is.
pub run_cycle-IsAllowed :
    (e : DecisionEngine) (c : CycleInputs) (markets : Dict Market) (db : Database)
    (books kept : Books) (pf : Portfolio) (b : Run) (r : CycleResult)
    → run_cycle e c markets db books pf ≡ some ((some r, b), kept)
    → All (λ (x : ℕ × RiskDecision). IsAllowed c.status c.reconciliation_ok x.1) r.decisions
run_cycle-IsAllowed e c markets db books kept pf b r done =
    let (ctx, built, ended) = cycle_ran e c markets db books kept pf b r done in
    let (_, _, all) =
      (finished-Carried e c markets (AreAllowed c.status c.reconciliation_ok) db pf ctx r
        (AreAllowed-IsCarried e markets c.status c.reconciliation_ok)
        (built.status, built.reconciled, tt) ended).1 in
    all
