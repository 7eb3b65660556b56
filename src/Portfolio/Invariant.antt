-- ===== src/Portfolio/Invariant.antt =====
-- What `apply_fill` keeps of the ledger, and what it does not touch.
use tio_indodax.Prelude.{
  String, ◌≡◌, ◌≢◌, ◌↔◌, refl, Bool, true, false, ◌&&◌, Option, none, some, arith, if◌then◌else◌,
  pos, ltb_ℤ, eqb_ℤ, ◌≤ℤ◌, ◌<ℤ◌, inl, inr, Option-cases, if_cases,
}
use tio_indodax.Decimal.{Decimal, ◌⊕◌, ◌⊖◌, ◌⊗◌}
use tio_indodax.Decimal.Laws.{⊕_nonneg, ⊕_pos, ⊖_nonneg}
use tio_indodax.Dict.{
  lookup, insert, IsDict, AllValues, lookup-AllValues, insert-AllValues, erase-AllValues,
  insert-IsDict, erase-IsDict, lookup-insert_ne, lookup-erase_ne,
}
use tio_indodax.Exchange.Models.{Side, buy, sell, other}
use tio_indodax.Portfolio.{
  Position, Portfolio, Fill, FillResult, Outcome, ok, raised, LedgerError, bad_fill, bought,
  apply_buy, sold, apply_sell, apply_fill, by_side, charge, is_bad,
}

abbrev pub IsLong : Position → Type 0
IsLong p = pos 0 <ℤ p.qty

-- Every pair is held once, and in a positive quantity.
pub record IsSpot (pf : Portfolio) : Type 0 where
  pub unique : IsDict pf.positions
  pub long : AllValues IsLong pf.positions

pub IsBad :
    (f : Fill) → is_bad f ≡ false → (pos 0 <ℤ f.qty) × (pos 0 <ℤ f.price) × (pos 0 ≤ℤ f.fee_idr)
IsBad f h = ground arith

bought-IsLong :
    (f : Fill) (cost : Decimal) (held : Option Position)
    → pos 0 <ℤ f.qty
    → ((p : Position) → held ≡ some p → IsLong p)
    → IsLong (bought f cost held)
unfolding bought
bought-IsLong f cost none h old = h
bought-IsLong f cost (some p) h old = ⊕_pos p.qty f.qty (old p refl) (omega arith)

pub put-IsSpot :
    (pf pf' : Portfolio) (k : String) (p : Position)
    → IsSpot pf
    → IsLong p
    → pf'.positions ≡ insert k p pf.positions
    → IsSpot pf'
put-IsSpot pf pf' k p s h e = record {
  unique = rw e (insert-IsDict k p pf.positions s.unique);
  long = rw e (insert-AllValues IsLong k p pf.positions s.long h);
}

apply_buy-IsSpot :
    (pf : Portfolio) (f : Fill) (strict : Bool)
    → IsSpot pf
    → pos 0 <ℤ f.qty
    → IsSpot (apply_buy pf f strict).1
unfolding apply_buy
apply_buy-IsSpot pf f strict s h =
    if_cases (λ (r : Outcome). IsSpot r.1)
      (ltb_ℤ pf.cash_idr (f.qty ⊗ f.price ⊕ f.fee_idr) && strict) _ _ (λ _. s)
      (λ _.
        put-IsSpot pf _ f.pair (bought f _ (lookup f.pair pf.positions)) s
          (bought-IsLong f _ _ h (λ p. lookup-AllValues IsLong f.pair pf.positions s.long)) refl)

sold-IsSpot :
    (pf : Portfolio) (f : Fill) (p : Position) → IsSpot pf → f.qty ≤ℤ p.qty → IsSpot (sold pf f p).1
unfolding sold
sold-IsSpot pf f p s h =
    if_cases (λ (r : Outcome). IsSpot r.1) (eqb_ℤ (p.qty ⊖ f.qty) (pos 0)) _ _
      (λ _. record {
        unique = erase-IsDict f.pair pf.positions s.unique;
        long = erase-AllValues IsLong f.pair pf.positions s.long;
      })
      (λ more.
        put-IsSpot pf _ f.pair (record p { qty = p.qty ⊖ f.qty }) s
          (ground (arith, ⊖_nonneg p.qty f.qty)) refl)

apply_sell-IsSpot :
    (pf : Portfolio) (f : Fill) (held : Option Position)
    → IsSpot pf
    → IsSpot (apply_sell pf f held).1
unfolding apply_sell
apply_sell-IsSpot pf f none s = s
apply_sell-IsSpot pf f (some p) s =
    if_cases (λ (r : Outcome). IsSpot r.1) (ltb_ℤ p.qty f.qty) _ _ (λ _. s)
      (λ covered. sold-IsSpot pf f p s (ground arith))

by_side-IsSpot :
    (side : Side) (pf : Portfolio) (f : Fill) (strict : Bool)
    → IsSpot pf
    → pos 0 <ℤ f.qty
    → IsSpot (by_side side pf f strict).1
by_side-IsSpot buy pf f strict s h = apply_buy-IsSpot pf f strict s h
by_side-IsSpot sell pf f strict s h = apply_sell-IsSpot pf f (lookup f.pair pf.positions) s
by_side-IsSpot other pf f strict s h = s

-- Whatever the fill, strict or not, and also where it raises, every pair is still held at most
-- once and in a positive quantity: there is no short position.
pub apply_fill-IsSpot :
    (pf : Portfolio) (f : Fill) (strict : Bool) → IsSpot pf → IsSpot (apply_fill pf f strict).1
unfolding apply_fill
apply_fill-IsSpot pf f strict s =
    if_cases (λ (r : Outcome). IsSpot r.1) (is_bad f) _ _ (λ _. s)
      (λ good.
        by_side-IsSpot f.side (charge pf f) f strict (record { unique = s.unique; long = s.long })
          (IsBad f good).0)

-- A strict fill keeps the cash at 0 or more, also where it raises: a buy always, and a sale that is
-- charged no more than it is worth.
pub apply_fill_cash :
    (pf : Portfolio) (f : Fill)
    → pos 0 ≤ℤ pf.cash_idr
    → (f.side ≡ sell → f.fee_idr ≤ℤ f.qty ⊗ f.price)
    → pos 0 ≤ℤ (apply_fill pf f true).1.cash_idr
unfolding apply_fill apply_buy apply_sell sold
apply_fill_cash pf f h worth =
    let cost = f.qty ⊗ f.price ⊕ f.fee_idr in
    let proceeds = f.qty ⊗ f.price ⊖ f.fee_idr in
    ground (
      arith,
      ⊖_nonneg pf.cash_idr cost,
      ⊕_nonneg pf.cash_idr proceeds,
      ⊖_nonneg (f.qty ⊗ f.price) f.fee_idr,
    )

-- A sale is refused unless the pair is held in at least that quantity.
pub apply_fill_covered :
    (pf : Portfolio) (f : Fill) (strict : Bool) (r : FillResult)
    → f.side ≡ sell
    → (apply_fill pf f strict).0 ≡ ok r
    → (p : Position) × (lookup f.pair pf.positions ≡ some p) × (f.qty ≤ℤ p.qty)
unfolding apply_fill apply_sell sold
apply_fill_covered pf f strict r e done = elim (Option-cases (lookup f.pair pf.positions)) [
  | inl missing ↦ absurd (ground arith)
  | inr (p, held) ↦ (p, held, ground arith)
]

-- A fill of one pair leaves every other pair's position as it was.
pub apply_fill_others :
    (pf : Portfolio) (f : Fill) (strict : Bool) (k : String)
    → f.pair ≢ k
    → lookup k (apply_fill pf f strict).1.positions ≡ lookup k pf.positions
unfolding apply_fill apply_buy apply_sell sold
apply_fill_others pf f strict k ne = grind (arith, lookup-insert_ne, lookup-erase_ne)

-- A fill that raises has moved no cash, no position and no realized result. The fee is the
-- exception: it has been added to `fees_paid` unless the arguments themselves were bad.
pub apply_fill_raised :
    (pf : Portfolio) (f : Fill) (strict : Bool) (e : LedgerError)
    → (apply_fill pf f strict).0 ≡ raised e
    → ((apply_fill pf f strict).1 ≡ (if is_bad f then pf else charge pf f))
      × ((is_bad f ≡ true) ↔ (e ≡ bad_fill))
unfolding apply_fill apply_buy apply_sell sold
apply_fill_raised pf f strict e h = (ground arith, (ground arith, ground arith))
