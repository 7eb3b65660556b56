-- ===== src/Reconcile/Sound.antt =====
-- What a clean reconciliation says of the exchange.
use tio_indodax.Prelude.{
  String, ◌≡◌, refl, ap, ◌∙◌, Bool, true, Option, none, some, List, [], ◌∷◌, ◌++◌, All, arith,
  ltb_ℤ, ◌≤ℤ◌, inl, inr, Bool-cases, Option-cases,
}
use tio_indodax.Decimal.{◌⊕◌}
use tio_indodax.Dict.{Dict}
use tio_indodax.Exchange.Pairs.{Text, codes, base_asset}
use tio_indodax.Storage.{Database, Order, OrderId, open_orders}
use tio_indodax.Portfolio.{Position, Portfolio}
use tio_indodax.Reconcile.{
  Balances, OpenOrder, Issue, ReconResult, dust, total, check_positions, known_id,
  check_pair_orders, pair_orders, check_pairs, no_issues, reconcile,
}

-- The exchange holds as much of the asset as the position says, up to dust.
abbrev pub IsBacked : Balances → String × Position → Type 0
IsBacked bal (k, p) =
    (asset : Text) × (base_asset (codes k) ≡ some asset) × (p.qty ≤ℤ total bal asset ⊕ dust)

-- The open orders of the pair are there, and those that are the agent's stand in the database.
abbrev pub AreKnown :
    (OrderId → Bool) → List Order → (String → Option (List OpenOrder)) → String → Type 0
AreKnown is_ours db_open orders_of k =
    (os : List OpenOrder) × (orders_of k ≡ some os)
    × All
        (λ (o : OpenOrder).
          is_ours o.client_order_id ≡ true → known_id db_open o.client_order_id ≡ true)
        os

positions-IsBacked :
    (bal : Balances) (ps : Dict Position) → check_positions bal ps ≡ some [] → All (IsBacked bal) ps
unfolding check_positions
positions-IsBacked bal [] e = tt
positions-IsBacked bal ((k, p) ∷ ps) e = elim (Option-cases (base_asset (codes k))) [
  | inl bad ↦ absurd (ground arith)
  | inr (asset, named) ↦ elim (Option-cases (check_positions bal ps)) [
    | inl bad ↦ absurd (ground arith)
    | inr (rest, later) ↦ elim (Bool-cases (ltb_ℤ (total bal asset ⊕ dust) p.qty)) [
      | inl short ↦ absurd (ground arith)
      | inr enough ↦ ((asset, named, ground arith), positions-IsBacked bal ps (ground arith))
    ]
  ]
]

both_empty : (xs ys : List Issue) → xs ++ ys ≡ [] → (xs ≡ []) × (ys ≡ [])
both_empty [] ys e = (refl, e)
both_empty (x ∷ xs) ys e = absurd (ground arith)

none_found : (is : List Issue) → no_issues is ≡ true → is ≡ []
none_found [] e = refl
none_found (x ∷ xs) e = absurd (ground arith)

module _ (is_ours : OrderId → Bool) (db_open : List Order) where
  orders_known :
      (k : String) (os : List OpenOrder)
      → (check_pair_orders is_ours db_open k os).0 ≡ []
      → All
          (λ (o : OpenOrder).
            is_ours o.client_order_id ≡ true → known_id db_open o.client_order_id ≡ true)
          os
  unfolding check_pair_orders
  orders_known k [] e = tt
  orders_known k (o ∷ os) e = elim (Bool-cases (is_ours o.client_order_id)) [
    | inl ours ↦ elim (Bool-cases (known_id db_open o.client_order_id)) [
      | inl known ↦ ((λ _. known), orders_known k os (rw (ours, known) at e))
      | inr unknown ↦ absurd (ground arith)
    ]
    | inr foreign ↦ ((λ ours. absurd (ground arith)), orders_known k os (rw foreign at e))
  ]

  pair-AreKnown :
      (orders_of : String → Option (List OpenOrder)) (k : String)
      → (pair_orders is_ours db_open k (orders_of k)).0 ≡ []
      → AreKnown is_ours db_open orders_of k
  pair-AreKnown orders_of k e = elim (Option-cases (orders_of k)) [
    | inl failed ↦ absurd (ground arith)
    | inr (os, there) ↦ (os, there, orders_known k os (rw there at e))
  ]

  pairs-AreKnown :
      (orders_of : String → Option (List OpenOrder)) (ks : List String)
      → (check_pairs is_ours db_open orders_of ks).0 ≡ []
      → All (AreKnown is_ours db_open orders_of) ks
  unfolding check_pairs
  pairs-AreKnown orders_of [] e = tt
  pairs-AreKnown orders_of (k ∷ ks) e =
      let (here, rest) = both_empty _ _ e in
      (pair-AreKnown orders_of k here, pairs-AreKnown orders_of ks rest)

clean :
    (is_ours : OrderId → Bool) (bal : Balances) (orders_of : String → Option (List OpenOrder))
    (db : Database) (mode : String) (pf : Portfolio) (pairs : List String) (res : ReconResult)
    → reconcile is_ours (some bal) orders_of db mode pf pairs ≡ some res
    → res.ok ≡ true
    → (check_positions bal pf.positions ≡ some [])
      × ((check_pairs is_ours (open_orders db mode) orders_of pairs).0 ≡ [])
unfolding reconcile
clean is_ours bal orders_of db mode pf pairs res e good =
    elim (Option-cases (check_positions bal pf.positions)) [
      | inl failed ↦ absurd (ground arith)
      | inr (short, found) ↦
          let seen = (check_pairs is_ours (open_orders db mode) orders_of pairs).0 in
          let ok_here : no_issues (short ++ seen) ≡ true = ground arith in
          let (no_short, no_seen) = both_empty short seen (none_found _ ok_here) in
          (found ∙ ap some no_short, no_seen)
    ]

-- If a reconciliation is clean, the exchange has answered with balances that hold every position of
-- the ledger by itself, up to dust, and with the open orders of every pair that was asked for; each of
-- these that is the agent's stands open in the database under the mode. (Positions of two pairs with
-- one base asset are not added up: the same coins may stand behind both.)
pub reconcile-IsBacked :
    (is_ours : OrderId → Bool) (answer : Option Balances)
    (orders_of : String → Option (List OpenOrder)) (db : Database) (mode : String) (pf : Portfolio)
    (pairs : List String) (res : ReconResult)
    → reconcile is_ours answer orders_of db mode pf pairs ≡ some res
    → res.ok ≡ true
    → (bal : Balances) × (answer ≡ some bal)
      × All (IsBacked bal) pf.positions
      × All (AreKnown is_ours (open_orders db mode) orders_of) pairs
unfolding reconcile
reconcile-IsBacked is_ours none orders_of db mode pf pairs res e good = absurd (ground arith)
reconcile-IsBacked is_ours (some bal) orders_of db mode pf pairs res e good =
    let (backed, known) = clean is_ours bal orders_of db mode pf pairs res e good in
    (
      bal,
      refl,
      positions-IsBacked bal pf.positions backed,
      pairs-AreKnown is_ours (open_orders db mode) orders_of pairs known,
    )
