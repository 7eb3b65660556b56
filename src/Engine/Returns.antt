-- ===== src/Engine/Returns.antt =====
-- A cycle that returns: the context that it starts from, and what holds at its end.
use tio_indodax.Prelude.{
  ℕ, ◌≡◌, refl, false, Option, none, some, List, [], arith, inl, inr, Bool-cases, Option-cases,
  every,
}
use mathlib.Core.Path.{subst}
use Prim.Native.Nat.{◌-◌}
use tio_indodax.Decimal.{Decimal}
use tio_indodax.Dict.{Dict, keys}
use tio_indodax.Storage.{Database, count_orders_since}
use tio_indodax.Portfolio.{Portfolio, equity}
use tio_indodax.Risk.Types.{RiskContext, RiskDecision}
use tio_indodax.Runner.Days.{Books, update}
use tio_indodax.Engine.Context.{Market, CycleInputs, marks, build_context, values, hour, context_of}
use tio_indodax.Engine.Cycle.{
  DecisionEngine, CycleResult, Run, run_cycle, decide, started, finished, has_price,
}
use tio_indodax.Engine.Judged.{IsCarried, decide-Yields}

-- What `build_context` takes over from the inputs and the database.
pub record IsContext (c : CycleInputs) (db : Database) (ctx : RiskContext) : Type 0 where
  pub status : ctx.status ≡ c.status
  pub reconciled : ctx.reconciliation_ok ≡ c.reconciliation_ok
  pub last_hour : ctx.orders_last_hour ≡ count_orders_since db (c.now - hour) c.mode false
  pub today : ctx.orders_today ≡ count_orders_since db c.midnight c.mode false

build_context-IsContext :
    (c : CycleInputs) (db : Database) (books kept : Books) (pf : Portfolio) (prices : Dict Decimal)
    (ctx : RiskContext)
    → build_context c db books pf prices ≡ some (ctx, kept)
    → IsContext c db ctx
unfolding build_context
build_context-IsContext c db books kept pf prices ctx e = elim (Option-cases (equity pf prices)) [
  | inl missing ↦ absurd (ground arith)
  | inr (eq, there) ↦ elim (Option-cases (values pf.positions prices)) [
    | inl missing ↦ absurd (ground arith)
    | inr (worth, priced) ↦
        let same : context_of c db pf eq worth (update eq c.today books).0 ≡ ctx = ground arith in
        subst (IsContext c db) same
          (record { status = refl; reconciled = refl; last_hour = refl; today = refl })
  ]
]

finished-decisions :
    (e : DecisionEngine) (ctx : RiskContext) (r : CycleResult) (x : Option (Unit {0}) × Run)
    → (finished e ctx x).0 ≡ some r
    → (u : Unit {0}) × (x.0 ≡ some u) × (x.1.decisions ≡ r.decisions)
finished-decisions e ctx r (none, b) h = absurd (ground arith)
finished-decisions e ctx r (some u, b) h = (u, refl, ground arith)

-- A property that every decision carries on holds at the end of a cycle that returns.
pub finished-Carried :
    (e : DecisionEngine) (c : CycleInputs) (markets : Dict Market)
    (Q : RiskContext → List (ℕ × RiskDecision) → Type 0) (db : Database) (pf : Portfolio)
    (ctx : RiskContext) (r : CycleResult)
    → IsCarried e markets Q
    → Q ctx []
    → (finished e ctx (decide e c markets (started db pf ctx))).0 ≡ some r
    → (ctx' : RiskContext) × Q ctx' r.decisions
finished-Carried e c markets Q db pf ctx r k q done =
    let (u, ends, same) =
      finished-decisions e ctx r (decide e c markets (started db pf ctx)) done in
    let last = (decide-Yields e c markets Q k).holds (started db pf ctx) u q ends in
    (_, subst (Q _) same last)

ended_with :
    (x : Option CycleResult × Run) (kept' kept : Books) (b : Run) (r : CycleResult)
    → ◌≡◌ {A = Option ((Option CycleResult × Run) × Books)}
        (some (x, kept'))
        (some ((some r, b), kept))
    → x.0 ≡ some r
ended_with x kept' kept b r h = ground arith

-- A cycle that returns had a context and decided from it.
pub cycle_ran :
    (e : DecisionEngine) (c : CycleInputs) (markets : Dict Market) (db : Database)
    (books kept : Books) (pf : Portfolio) (b : Run) (r : CycleResult)
    → run_cycle e c markets db books pf ≡ some ((some r, b), kept)
    → (ctx : RiskContext) × IsContext c db ctx
      × ((finished e ctx (decide e c markets (started db pf ctx))).0 ≡ some r)
unfolding run_cycle
cycle_ran e c markets db books kept pf b r done =
    let prices = marks markets in
    elim (Bool-cases (every (has_price prices) (keys pf.positions))) [
      | inl all ↦ elim (Option-cases (build_context c db books pf prices)) [
        | inl missing ↦ absurd (ground arith)
        | inr ((ctx, kept'), there) ↦
            let ended : (finished e ctx (decide e c markets (started db pf ctx))).0 ≡ some r =
              ended_with _ kept' kept b r (rw (all, there, run_cycle) at done) in
            (ctx, build_context-IsContext c db books kept' pf prices ctx there, ended)
      ]
      | inr some_missing ↦ absurd (ground arith)
    ]
