-- ===== src/Engine/Counted.antt =====
-- The orders of a cycle against the hourly and the daily limit.
use tio_indodax.Prelude.{
  ℕ, ◌≡◌, ◌⊎◌, ◌≤◌, refl, true, false, some, List, [], ◌∷◌, ◌++◌, arith, inl, inr, Bool-cases,
  if◌then◌else◌,
}
use mathlib.Core.Path.{subst}
use Prim.Native.Nat.{◌+◌, ◌-◌}
use tio_indodax.Dict.{Dict}
use tio_indodax.Storage.{Database, count_orders_since}
use tio_indodax.Portfolio.{Portfolio}
use tio_indodax.Risk.Types.{RiskContext, RiskDecision, MarketView, TradeProposal, approved}
use tio_indodax.Risk.Evaluate.{evaluate, is_emergency}
use tio_indodax.Risk.Gates.{approved_gates}
use tio_indodax.Risk.Subject.{approved-IsFor}
use tio_indodax.Runner.Days.{Books}
use tio_indodax.Engine.Context.{Market, CycleInputs, counted, hour}
use tio_indodax.Engine.Cycle.{DecisionEngine, CycleResult, Run, run_cycle}
use tio_indodax.Engine.Judged.{IsCarried}
use tio_indodax.Engine.Approved.{after_approval-IsNext}
use tio_indodax.Engine.Returns.{finished-Carried, cycle_ran}

-- The orders of the decisions that count against the limits.
unfoldable pub orders : List (ℕ × RiskDecision) → ℕ
orders [] = 0
orders ((n, d) ∷ ds) = (if approved d then counted d else 0) + orders ds

orders-append :
    (ds : List (ℕ × RiskDecision)) (n : ℕ) (d : RiskDecision)
    → orders (ds ++ (n, d) ∷ []) ≡ orders ds + (if approved d then counted d else 0)
unfolding orders
orders-append [] n d = omega arith
orders-append ((k, x) ∷ ds) n d = omega (arith, orders-append ds n d)

-- The counts of the context are those of the orders before the cycle and of its own, which stay
-- within the limits.
abbrev pub IsWithin : DecisionEngine → ℕ → ℕ → ℕ → Type 0
IsWithin e hourly daily count =
    (count ≡ 0)
    ⊎ (hourly + count ≤ e.risk.limits.max_orders_per_hour)
      × (daily + count ≤ e.risk.limits.max_orders_per_day)

abbrev pub AreWithin : DecisionEngine → ℕ → ℕ → RiskContext → List (ℕ × RiskDecision) → Type 0
AreWithin e hourly daily ctx ds =
    (ctx.orders_last_hour ≡ hourly + orders ds)
    × (ctx.orders_today ≡ daily + orders ds)
    × IsWithin e hourly daily (orders ds)

-- One more order, of which there is room, or which does not count.
IsWithin-more :
    (e : DecisionEngine) (hourly daily count more : ℕ)
    → IsWithin e hourly daily count
    → (more ≡ 0)
      ⊎ (hourly + count + more ≤ e.risk.limits.max_orders_per_hour)
        × (daily + count + more ≤ e.risk.limits.max_orders_per_day)
    → IsWithin e hourly daily (count + more)
IsWithin-more e hourly daily count more (inl z) (inl free) = inl (omega arith)
IsWithin-more e hourly daily count more (inr (a, b)) (inl free) = inr (omega arith, omega arith)
IsWithin-more e hourly daily count more w (inr (a, b)) = inr (omega arith, omega arith)

module _ (e : DecisionEngine) (markets : Dict Market) where
  abbrev HasRoom : RiskDecision → ℕ → ℕ → Type 0
  HasRoom d hourly daily =
      (counted d ≡ 0)
      ⊎ (hourly + counted d ≤ e.risk.limits.max_orders_per_hour)
        × (daily + counted d ≤ e.risk.limits.max_orders_per_day)

  -- An approval finds both counts below their limits, unless it does not count.
  room_for_one :
      (p : TradeProposal) (ctx : RiskContext) (view : MarketView) (d : RiskDecision)
      → evaluate e.risk p ctx view ≡ some d
      → approved d ≡ true
      → HasRoom d ctx.orders_last_hour ctx.orders_today
  unfolding is_emergency
  room_for_one p ctx view d evaluated good =
      let (sound, timely, _) = approved_gates e.risk p ctx view d evaluated good in
      let same = approved-IsFor e.risk p ctx view d evaluated good in
      elim (Bool-cases d.proposal.is_emergency_exit) [
        | inl urgent ↦ inl (rw urgent refl)
        | inr calm ↦
            let calm' : is_emergency p ≡ false =
              rw (subst (λ x. x.is_emergency_exit ≡ false) same calm) refl in
            inr (
              rw calm (omega (arith, timely.hourly calm')),
              rw calm (omega (arith, timely.daily calm')),
            )
      ]

  AreWithin-IsCarried : (hourly daily : ℕ) → IsCarried e markets (AreWithin e hourly daily)
  AreWithin-IsCarried hourly daily = record {
    vetoes = λ ctx ds n d bad q.
        let (h, t, w) = q in
        rw (orders-append ds n d, bad)
          (omega arith, omega arith, IsWithin-more e hourly daily (orders ds) 0 w (inl refl));
    approvals = λ ctx ctx' ds n p view d evaluated good next q.
        let (h, t, w) = q in
        let x = after_approval-IsNext e.risk.fees markets d ctx ctx' next in
        let room = subst (HasRoom d (hourly + orders ds)) t (
          subst (λ y. HasRoom d y ctx.orders_today) h (room_for_one p ctx view d evaluated good)) in
        rw (orders-append ds n d, good)
          (
            omega (arith, x.last_hour, h),
            omega (arith, x.today, t),
            IsWithin-more e hourly daily (orders ds) (counted d) w room,
          );
  }

no_orders :
    (e : DecisionEngine) (hourly daily : ℕ) (ctx : RiskContext)
    → ctx.orders_last_hour ≡ hourly
    → ctx.orders_today ≡ daily
    → AreWithin e hourly daily ctx []
unfolding orders
no_orders e hourly daily ctx h t = (omega (arith, h), omega (arith, t), inl refl)

-- In a cycle that returns, the orders that it approves, emergency exits aside, together with those of
-- the last hour and of the day that the database holds, are within the hourly and the daily limit,
-- unless it approves none.
pub run_cycle-IsWithin :
    (e : DecisionEngine) (c : CycleInputs) (markets : Dict Market) (db : Database)
    (books kept : Books) (pf : Portfolio) (b : Run) (r : CycleResult)
    → run_cycle e c markets db books pf ≡ some ((some r, b), kept)
    → IsWithin e
        (count_orders_since db (c.now - hour) c.mode false)
        (count_orders_since db c.midnight c.mode false)
        (orders r.decisions)
run_cycle-IsWithin e c markets db books kept pf b r done =
    let (ctx, built, ended) = cycle_ran e c markets db books kept pf b r done in
    let hourly = count_orders_since db (c.now - hour) c.mode false in
    let daily = count_orders_since db c.midnight c.mode false in
    let (_, _, within) =
      (finished-Carried e c markets (AreWithin e hourly daily) db pf ctx r
        (AreWithin-IsCarried e markets hourly daily)
        (no_orders e hourly daily ctx built.last_hour built.today) ended).1 in
    within
