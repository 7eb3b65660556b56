-- ===== src/Engine/Judged.antt =====
-- What a cycle makes of its context and its decisions, from what a veto and an approval make of them.
use tio_indodax.Prelude.{
  ℕ, String, ◌≡◌, refl, Bool, true, false, Option, none, some, List, [], ◌∷◌, ◌++◌, arith, inl, inr,
  Bool-cases, sym,
}
use mathlib.Core.Path.{subst}
use tio_indodax.Decimal.{Decimal}
use tio_indodax.Dict.{Dict, lookup}
use tio_indodax.Portfolio.{Position, Portfolio}
use tio_indodax.Risk.Types.{RiskContext, MarketView, TradeProposal, RiskDecision, approved, vetoed}
use tio_indodax.Risk.Evaluate.{evaluate}
use tio_indodax.Strategy.{Entry, proposed, declined, propose_entry, trail_stop}
use tio_indodax.Calls.{Call, then_, modify}
use tio_indodax.Calls.Yields.{
  Yields, yields, bind-Yields, next-Yields, return-Yields, read-Yields, if-Yields,
}
use tio_indodax.Engine.Context.{Market, CycleInputs, after_approval}
use tio_indodax.Engine.Cycle.{
  Run, Proposer, rules, allocation, DecisionEngine, given, written, record_one, judge, judge_exits,
  trail_stops, judge_entries, judge_allocation, decide, after_exits, is_taken, llm_veto, judge_exit,
  raised_to, judge_entry, entry_of, next_context,
}

-- A property of the context and the decisions that every decision carries on.
pub record IsCarried (e : DecisionEngine) (markets : Dict Market)
    (Q : RiskContext → List (ℕ × RiskDecision) → Type 0) : Type 0 where
  pub vetoes :
      (ctx : RiskContext) (ds : List (ℕ × RiskDecision)) (n : ℕ) (d : RiskDecision)
      → approved d ≡ false
      → Q ctx ds
      → Q ctx (ds ++ (n, d) ∷ [])
  pub approvals :
      (ctx ctx' : RiskContext) (ds : List (ℕ × RiskDecision)) (n : ℕ) (p : TradeProposal)
      (view : MarketView) (d : RiskDecision)
      → evaluate e.risk p ctx view ≡ some d
      → approved d ≡ true
      → after_approval e.risk.fees markets d ctx ≡ some ctx'
      → Q ctx ds
      → Q ctx' (ds ++ (n, d) ∷ [])

-- What comes after a value that is there.
given_then :
    {A B : Type 0} (o : Option A) (f : A → Call Run B) (b : Run) (x : B)
    → (then_ (given o b) f).0 ≡ some x
    → (a : A) × (o ≡ some a) × (then_ (given o b) f ≡ f a b)
given_then none f b x e = absurd (ground arith)
given_then (some a) f b x e = (a, refl, refl)

module _ (e : DecisionEngine) (c : CycleInputs) (markets : Dict Market)
    (Q : RiskContext → List (ℕ × RiskDecision) → Type 0) (k : IsCarried e markets Q) where
  abbrev P : Run → Type 0
  P b = Q b.ctx b.decisions

  given-Yields : {A : Type 0} (o : Option A) → Yields P (given o)
  given-Yields none = record { holds = λ b a p e. p }
  given-Yields (some x) = record { holds = λ b a p e. p }

  -- What a decision that is recorded makes of the context and the decisions.
  recorded :
      (d : RiskDecision) (b : Run) (x : Unit {0})
      → ((ctx' : RiskContext) (n : ℕ)
          → next_context e c markets d b.ctx ≡ some ctx'
          → Q ctx' (b.decisions ++ (n, d) ∷ []))
      → (record_one e c markets d b).0 ≡ some x
      → P (record_one e c markets d b).1
  unfolding record_one
  recorded d b x h done =
      let (ctx', there, rest) =
        given_then (next_context e c markets d b.ctx) _ (written e c markets d b) x done in
      subst (λ r. P r.1) (sym rest) (h ctx' _ there)

  record_veto : (d : RiskDecision) → approved d ≡ false → Yields P (record_one e c markets d)
  record_veto d vetoed = record {
    holds = λ b x q done.
        recorded d b x
          (λ ctx' n there.
            let same : b.ctx ≡ ctx' = ground arith in
            subst (λ y. Q y (b.decisions ++ (n, d) ∷ [])) same
              (k.vetoes b.ctx b.decisions n d vetoed q))
          done;
  }

  judge-Yields : (p : TradeProposal) (view : MarketView) → Yields P (judge e c markets p view)
  unfolding judge
  judge-Yields p view = record {
    holds = λ b x q done.
        let (d, evaluated, rest) =
          given_then (evaluate e.risk p b.ctx view) (record_one e c markets) b x done in
        subst (λ r. P r.1) (sym rest)
          (recorded d b x
            (λ ctx' n there. elim (Bool-cases (approved d)) [
              | inl good ↦
                  k.approvals b.ctx ctx' b.decisions n p view d evaluated good (rw good at there) q
              | inr bad ↦
                  let same : b.ctx ≡ ctx' = ground arith in
                  subst (λ y. Q y (b.decisions ++ (n, d) ∷ [])) same
                    (k.vetoes b.ctx b.decisions n d bad q)
            ])
            (subst (λ r. r.0 ≡ some x) rest done));
  }

  llm_veto-vetoed : (p : TradeProposal) → approved (llm_veto e c markets p) ≡ false
  unfolding approved
  llm_veto-vetoed p = refl

  ruleset judged = (yields, given-Yields, judge-Yields, record_veto, llm_veto-vetoed)

  judge_exit-Yields :
      (m : Market) (p : Option TradeProposal) → Yields P (judge_exit e c markets m p)
  judge_exit-Yields m none = return-Yields tt
  judge_exit-Yields m (some p) = judge-Yields p m.view

  judge_exits-Yields : (ps : Dict Position) → Yields P (judge_exits e c markets ps)
  unfolding judge_exits
  judge_exits-Yields [] = return-Yields tt
  judge_exits-Yields ((pair, held) ∷ rest) =
      bind-Yields _ _ (given-Yields (lookup pair markets))
        (λ m. next-Yields _ _ (judge_exit-Yields m _) (judge_exits-Yields rest))

  ledger-Yields : (pf : Portfolio) → Yields P (modify (λ b. record b { pf = pf }))
  ledger-Yields pf = record { holds = λ b x q done. q }

  raised_to-Yields :
      (pair : String) (new : Option Decimal) → Yields P (raised_to e c markets pair new)
  raised_to-Yields pair none = return-Yields tt
  raised_to-Yields pair (some new) = search (judged, ledger-Yields) depth 16

  trail_stops-Yields : (ps : Dict Position) → Yields P (trail_stops e c markets ps)
  unfolding trail_stops
  trail_stops-Yields [] = return-Yields tt
  trail_stops-Yields ((pair, held) ∷ rest) = bind-Yields _ _ read-Yields (λ b.
      next-Yields _ _
        (if-Yields _ _ _ (return-Yields tt) (
          bind-Yields _ _ (given-Yields (lookup pair markets))
            (λ m. raised_to-Yields pair (trail_stop e.strategy held m.features m.view.info))))
        (trail_stops-Yields rest))

  judge_entry-Yields :
      (vetoes : TradeProposal → Bool) (m : Market) (x : Entry)
      → Yields P (judge_entry e c markets vetoes m x)
  judge_entry-Yields vetoes m (declined note) = return-Yields tt
  judge_entry-Yields vetoes m (proposed p) =
      if-Yields (vetoes p) _ _ (record_veto (llm_veto e c markets p) (llm_veto-vetoed p))
        (judge-Yields p m.view)

  entry_of-Yields :
      (vetoes : TradeProposal → Bool) (pair : String) (m : Option Market)
      → Yields P (entry_of e c markets vetoes pair m)
  entry_of-Yields vetoes pair none = return-Yields tt
  entry_of-Yields vetoes pair (some m) = bind-Yields _ _ read-Yields (λ b.
      if-Yields (is_taken e c markets pair b) _ _ (return-Yields tt) (
        judge_entry-Yields vetoes m
          (propose_entry e.strategy pair m.view.info m.view.orderbook m.features)))

  judge_entries-Yields :
      (vetoes : TradeProposal → Bool) (pairs : List String)
      → Yields P (judge_entries e c markets vetoes pairs)
  unfolding judge_entries
  judge_entries-Yields vetoes [] = return-Yields tt
  judge_entries-Yields vetoes (pair ∷ rest) =
      next-Yields _ _ (entry_of-Yields vetoes pair (lookup pair markets))
        (judge_entries-Yields vetoes rest)

  judge_allocation-Yields : (ps : List TradeProposal) → Yields P (judge_allocation e c markets ps)
  unfolding judge_allocation
  judge_allocation-Yields [] = return-Yields tt
  judge_allocation-Yields (p ∷ rest) = bind-Yields _ _ read-Yields (λ b.
      next-Yields _ _
        (if-Yields _ _ _ (return-Yields tt)
          (bind-Yields _ _ (given-Yields (lookup p.pair markets)) (λ m. judge-Yields p m.view)))
        (judge_allocation-Yields rest))

  after_exits-Yields :
      (ps : Dict Position) (from : Proposer) → Yields P (after_exits e c markets ps from)
  after_exits-Yields ps (rules vetoes) =
      next-Yields _ _ (trail_stops-Yields ps) (judge_entries-Yields vetoes e.risk.market.whitelist)
  after_exits-Yields ps (allocation allocate) =
      bind-Yields _ _ read-Yields
        (λ b. judge_allocation-Yields (allocate b.pf b.ctx.pending_buy_idr))

  pub decide-Yields : Yields P (decide e c markets)
  unfolding decide
  decide-Yields = bind-Yields _ _ read-Yields (λ b.
      next-Yields _ _ (judge_exits-Yields b.pf.positions)
        (after_exits-Yields b.pf.positions e.proposer))
