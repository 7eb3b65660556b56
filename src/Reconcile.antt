-- ===== src/Reconcile.antt =====
-- agent/execution/reconcile.py. What the exchange answers is an argument: the balances and the open
-- orders of a pair, or `none` for an error.
pub mod Sound
mod Tests
use tio_indodax.Prelude.{
  String, Bool, true, false, not, Option, none, some, List, [], ◌∷◌, ◌++◌, if◌then◌else◌, pos,
  ltb_ℤ, some_of,
}
use tio_indodax.Decimal.{Decimal, ◌⊕◌, fraction}
use tio_indodax.Dict.{Dict}
use tio_indodax.Exchange.Pairs.{Text, codes, text_eq, base_asset}
use tio_indodax.Exchange.Models.{◌>>=◌}
use tio_indodax.Storage.{Database, Order, OrderId, same_id, open_orders}
use tio_indodax.Portfolio.{Position, Portfolio}

-- DUST
unfoldable pub dust : Decimal
dust = fraction 1 10000000

-- Amounts by the name of the asset, in lower case.
pub record Balances : Type 0 where
  pub free : List (Text × Decimal)
  pub locked : List (Text × Decimal)

unfoldable pub amount_of : List (Text × Decimal) → Text → Decimal
amount_of [] asset = pos 0
amount_of ((a, v) ∷ rest) asset = if text_eq a asset then v else amount_of rest asset

pub record OpenOrder : Type 0 where
  pub order_id : String
  pub client_order_id : OrderId

pub data Issue : Type 0 where
  balances_unavailable : Issue
  missing : Text → Decimal → Decimal → Issue
  orders_unavailable : String → Issue
  unknown_order : OrderId → Issue

-- `warnings` holds the order and the pair of each order that is not the agent's.
pub record ReconResult : Type 0 where
  pub ok : Bool
  pub issues : List Issue
  pub warnings : List (String × String)
  pub exchange_free_idr : Option Decimal

abbrev pub total : Balances → Text → Decimal
total bal asset = amount_of bal.free asset ⊕ amount_of bal.locked asset

-- `none` is the ValueError of `base_asset`.
unfoldable pub check_positions : Balances → Dict Position → Option (List Issue)
check_positions bal [] = some []
check_positions bal ((k, p) ∷ ps) = do
  asset ← base_asset (codes k)
  rest ← check_positions bal ps
  let held = total bal asset
  some (if ltb_ℤ (held ⊕ dust) p.qty then missing asset held p.qty ∷ rest else rest)

abbrev pub known_id : List Order → OrderId → Bool
known_id db_open coid = some_of (λ (o : Order). same_id o.client_order_id coid) db_open

-- The issues and the warnings for the orders of one pair.
unfoldable pub check_pair_orders :
    (OrderId → Bool) → List Order → String → List OpenOrder → List Issue × List (String × String)
check_pair_orders is_ours db_open pair [] = ([], [])
check_pair_orders is_ours db_open pair (o ∷ os) =
    let (issues, warnings) = check_pair_orders is_ours db_open pair os in
    if is_ours o.client_order_id
    then (
      (if known_id db_open o.client_order_id
          then issues
          else unknown_order o.client_order_id ∷ issues),
      warnings,
    )
    else (issues, (o.order_id, pair) ∷ warnings)

abbrev pub pair_orders :
    (OrderId → Bool)
    → List Order
    → String
    → Option (List OpenOrder)
    → List Issue × List (String × String)
pair_orders is_ours db_open pair none = (orders_unavailable pair ∷ [], [])
pair_orders is_ours db_open pair (some os) = check_pair_orders is_ours db_open pair os

unfoldable pub check_pairs :
    (OrderId → Bool)
    → List Order
    → (String → Option (List OpenOrder))
    → List String
    → List Issue × List (String × String)
check_pairs is_ours db_open orders_of [] = ([], [])
check_pairs is_ours db_open orders_of (k ∷ ks) =
    let here = pair_orders is_ours db_open k (orders_of k) in
    let rest = check_pairs is_ours db_open orders_of ks in (here.0 ++ rest.0, here.1 ++ rest.1)

abbrev pub no_issues : List Issue → Bool
no_issues [] = true
no_issues (i ∷ is) = false

unfoldable pub reconcile :
    (OrderId → Bool)
    → Option Balances
    → (String → Option (List OpenOrder))
    → Database
    → String
    → Portfolio
    → List String
    → Option ReconResult
reconcile is_ours none orders_of db mode pf pairs = some (record {
  ok = false;
  issues = balances_unavailable ∷ [];
  warnings = [];
  exchange_free_idr = none;
})
reconcile is_ours (some bal) orders_of db mode pf pairs = do
  short ← check_positions bal pf.positions
  let seen = check_pairs is_ours (open_orders db mode) orders_of pairs
  some (record {
    ok = no_issues (short ++ seen.0);
    issues = short ++ seen.0;
    warnings = seen.1;
    exchange_free_idr = some (amount_of bal.free (codes "idr"));
  })
