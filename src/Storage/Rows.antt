-- ===== src/Storage/Rows.antt =====
-- The rows of `orders`: an order is found again after an insertion and after an update.
use tio_indodax.Prelude.{
  ℕ, ◌≡◌, refl, Bool, true, false, none, some, List, [], ◌∷◌, ◌++◌, arith, if◌then◌else◌, inl, inr,
  Bool-cases, ap,
}
use tio_indodax.Storage.{Order, OrderId, same_id, Update, updated, update_rows, find_order}

updated_id :
    (test : Bool) (u : Update) (ts : ℕ) (o : Order)
    → (if test then updated u ts o else o).client_order_id ≡ o.client_order_id
unfolding updated
updated_id true u ts o = refl
updated_id false u ts o = refl

pub find_updated :
    (coid c : OrderId) (u : Update) (ts : ℕ) (os : List Order) (o : Order)
    → find_order coid os ≡ some o
    → (o' : Order) × (find_order coid (update_rows c u ts os) ≡ some o')
unfolding find_order update_rows
find_updated coid c u ts [] o e = absurd (ground arith)
find_updated coid c u ts (x ∷ os) o e = elim (Bool-cases (same_id x.client_order_id coid)) [
  | inl found ↦
      let y = if same_id x.client_order_id c then updated u ts x else x in
      (y, rw (updated_id (same_id x.client_order_id c) u ts x, found) refl)
  | inr further ↦
      rw (updated_id (same_id x.client_order_id c) u ts x, further)
        (find_updated coid c u ts os o (rw further at e))
]

pub find_append :
    (coid : OrderId) (os : List Order) (o x : Order)
    → find_order coid os ≡ some o
    → find_order coid (os ++ x ∷ []) ≡ some o
unfolding find_order
find_append coid [] o x e = absurd (ground arith)
find_append coid (y ∷ os) o x e = elim (Bool-cases (same_id y.client_order_id coid)) [
  | inl found ↦ rw found (rw found at e)
  | inr further ↦ rw further (find_append coid os o x (rw further at e))
]

pub find_new :
    (coid : OrderId) (os : List Order) (x : Order)
    → find_order coid os ≡ none
    → same_id x.client_order_id coid ≡ true
    → find_order coid (os ++ x ∷ []) ≡ some x
unfolding find_order
find_new coid [] x e h = rw h refl
find_new coid (y ∷ os) x e h = elim (Bool-cases (same_id y.client_order_id coid)) [
  | inl found ↦ absurd (ground arith)
  | inr further ↦ rw further (find_new coid os x (rw further at e) h)
]

-- An order is found as it was updated.
pub find_same :
    (coid : OrderId) (u : Update) (ts : ℕ) (os : List Order) (o : Order)
    → find_order coid os ≡ some o
    → find_order coid (update_rows coid u ts os) ≡ some (updated u ts o)
unfolding find_order update_rows updated
find_same coid u ts [] o e = absurd (ground arith)
find_same coid u ts (x ∷ os) o e = elim (Bool-cases (same_id x.client_order_id coid)) [
  | inl found ↦
      let here : x ≡ o = ground arith in rw (found, found) (ap (λ y. some (updated u ts y)) here)
  | inr further ↦ rw (further, further) (find_same coid u ts os o (rw further at e))
]
