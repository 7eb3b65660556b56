-- ===== src/LiveGate/Backed.antt =====
-- What a cleared preflight says of the ledger and of the database.
use tio_indodax.Prelude.{
  String, ◌≡◌, sym, ap, ◌∙◌, Bool, true, Option, none, some, List, [], ◌∷◌, ◌++◌, All, arith,
  str_eq, inl, inr, Bool-cases, Option-cases, eq_iff,
}
use mathlib.Core.Path.{subst}
use tio_indodax.Dict.{keys}
use tio_indodax.Storage.{Database, OrderId, open_orders}
use tio_indodax.Portfolio.{Portfolio}
use tio_indodax.Deadman.{DeadmanSwitch}
use tio_indodax.Reconcile.{
  Balances, OpenOrder, ReconResult, check_positions, check_pairs, no_issues, reconcile,
}
use tio_indodax.Reconcile.Sound.{IsBacked, AreKnown, reconcile-IsBacked}
use tio_indodax.LiveGate.{
  GateSettings, Facts, without, distinct, gate_pairs, live_preflight, gate_ok,
}
use tio_indodax.LiveGate.Sound.{gate_ok-IsCleared}

-- What holds of the distinct keys holds of all of them.
module _ (P : String → Type 0) where
  without-All : (k : String) (js : List String) → P k → All P (without k js) → All P js
  unfolding without
  without-All k [] here rest = tt
  without-All k (j ∷ js) here rest = elim (Bool-cases (str_eq j k)) [
    | inl same ↦
        let one : j ≡ k = ground (arith, eq_iff j k) in
        (subst P (sym one) here, without-All k js here (rw same at rest))
    | inr other ↦ let (first, later) = rw other at rest in (first, without-All k js here later)
  ]

  distinct-All : (ks : List String) → All P (distinct ks) → All P ks
  unfolding distinct
  distinct-All [] all = tt
  distinct-All (k ∷ ks) (here, rest) =
      (here, distinct-All ks (without-All k (distinct ks) here rest))

  All-append : (xs ys : List String) → All P (xs ++ ys) → All P xs × All P ys
  All-append [] ys all = (tt, all)
  All-append (x ∷ xs) ys (here, rest) =
      let (left, right) = All-append xs ys rest in ((here, left), right)

reconcile_ok :
    (is_ours : OrderId → Bool) (answer : Option Balances)
    (orders_of : String → Option (List OpenOrder)) (db : Database) (mode : String) (pf : Portfolio)
    (pairs : List String) (res : ReconResult)
    → reconcile is_ours answer orders_of db mode pf pairs ≡ some res
    → res.issues ≡ []
    → res.ok ≡ true
unfolding reconcile
reconcile_ok is_ours none orders_of db mode pf pairs res e empty = absurd (ground arith)
reconcile_ok is_ours (some bal) orders_of db mode pf pairs res e empty =
    elim (Option-cases (check_positions bal pf.positions)) [
      | inl failed ↦ absurd (ground arith)
      | inr (short, found) ↦
          let seen = (check_pairs is_ours (open_orders db mode) orders_of pairs).0 in
          let judged : res.ok ≡ no_issues (short ++ seen) = ground arith in
          let listed : res.issues ≡ short ++ seen = ground arith in
          judged ∙ ap no_issues (sym listed ∙ empty)
    ]

-- If the preflight lists no problem, the exchange has answered with balances that hold every position
-- of the ledger by itself, up to dust, and with the open orders of every pair of the whitelist and of
-- every pair held; each of these orders that is the agent's stands open in the database. (Positions of
-- two pairs with one base asset are not added up: the same coins may stand behind both.)
pub gate_ok-IsBacked :
    (s : GateSettings) (is_ours : OrderId → Bool) (db : Database) (pf : Portfolio) (facts : Facts)
    (deadman : DeadmanSwitch)
    → gate_ok (live_preflight s is_ours db pf facts deadman).0 ≡ true
    → (bal : Balances) × (facts.balances ≡ some bal)
      × All (IsBacked bal) pf.positions
      × All (AreKnown is_ours (open_orders db "live") facts.orders_of) s.whitelist
      × All (AreKnown is_ours (open_orders db "live") facts.orders_of) (keys pf.positions)
gate_ok-IsBacked s is_ours db pf facts deadman h =
    let (report, asked, cleared) = (gate_ok-IsCleared s is_ours db pf facts deadman).0 h in
    let (res, done, clean) = cleared.reconciled in
    let ok =
      reconcile_ok is_ours facts.balances facts.orders_of db "live" pf (gate_pairs s pf) res done
        clean in
    let (bal, answer, backed, known) =
      reconcile-IsBacked is_ours facts.balances facts.orders_of db "live" pf (gate_pairs s pf) res
        done ok in
    let Known = AreKnown is_ours (open_orders db "live") facts.orders_of in
    let (listed, held) =
      All-append Known s.whitelist (keys pf.positions)
        (distinct-All Known (s.whitelist ++ keys pf.positions) known) in
    (bal, answer, backed, listed, held)
