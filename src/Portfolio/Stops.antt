-- ===== src/Portfolio/Stops.antt =====
-- A stop-loss is never loosened: by a fill, by `raise_stop`, and over any run of both.
use tio_indodax.Prelude.{
  String, ◌≡◌, ◌≢◌, refl, Bool, false, Option, none, some, List, [], ◌∷◌, arith, ◌≤ℤ◌, inl, inr,
  Bool-cases, Option-cases, eq_iff, str_eq, if_cases, ltb_ℤ, eqb_ℤ, ◌&&◌, pos,
}
use mathlib.Core.Path.{subst}
use tio_indodax.Decimal.{Decimal, ◌⊕◌, ◌⊖◌, ◌⊗◌}
use tio_indodax.Dict.{
  Dict, lookup, insert, lookup-insert, lookup-erase_self, lookup-insert_self, lookup-AllValues,
}
use tio_indodax.Exchange.Models.{Side, buy, sell, other}
use tio_indodax.Portfolio.{
  Position, Portfolio, Fill, Outcome, by_side, charge, is_bad, apply_fill, apply_buy, apply_sell,
  sold, bought, raise_stop, merge_stop, moved, not_above,
}
use tio_indodax.Portfolio.Invariant.{
  IsLong, IsSpot, apply_fill-IsSpot, apply_fill_others, put-IsSpot,
}

-- A stop that was set is still set, at the same level or higher.
abbrev pub Tighter : Option Decimal → Option Decimal → Type 0
Tighter none new = Unit
Tighter (some old) none = ⊥
Tighter (some old) (some new) = old ≤ℤ new

Tighter-refl : (s : Option Decimal) → Tighter s s
Tighter-refl none = tt
Tighter-refl (some s) = omega arith

Tighter-trans : (a b c : Option Decimal) → Tighter a b → Tighter b c → Tighter a c
Tighter-trans none b c h k = tt
Tighter-trans (some a) (some b) (some c) h k = omega arith
Tighter-trans (some a) (some b) none h k = k
Tighter-trans (some a) none c h k = absurd h

Tighter-merge : (new old : Option Decimal) → Tighter old (merge_stop new old)
Tighter-merge none old = Tighter-refl old
Tighter-merge (some new) none = tt
Tighter-merge (some new) (some old) = ground arith

-- If the pair is held before and after, its stop is no looser after.
abbrev Kept : Option Position → Option Position → Type 0
Kept (some p) (some q) = Tighter p.stop_loss q.stop_loss
Kept _ _ = Unit

Kept-refl : (o : Option Position) → Kept o o
Kept-refl none = tt
Kept-refl (some p) = Tighter-refl p.stop_loss

Kept-none : (o : Option Position) → Kept o none
Kept-none none = tt
Kept-none (some p) = tt

Kept-insert :
    (k : String) (p : Position) (d : Dict Position) (o : Option Position)
    → Kept o (some p)
    → Kept o (lookup k (insert k p d))
Kept-insert k p d o h = rw (lookup-insert_self k p d) h

bought-Kept : (f : Fill) (cost : Decimal) (o : Option Position) → Kept o (some (bought f cost o))
unfolding bought
bought-Kept f cost none = tt
bought-Kept f cost (some p) = Tighter-merge f.stop_loss p.stop_loss

-- The pair of the fill, before and after.
abbrev Fills : Portfolio → Fill → Outcome → Type 0
Fills pf f r = Kept (lookup f.pair pf.positions) (lookup f.pair r.1.positions)

buy-Kept : (pf : Portfolio) (f : Fill) (strict : Bool) → Fills pf f (apply_buy pf f strict)
unfolding apply_buy
buy-Kept pf f strict =
    if_cases (Fills pf f) (ltb_ℤ pf.cash_idr (f.qty ⊗ f.price ⊕ f.fee_idr) && strict) _ _
      (λ _. Kept-refl _) (λ _. Kept-insert f.pair _ pf.positions _ (bought-Kept f _ _))

sell-Kept :
    (pf : Portfolio) (f : Fill) (o : Option Position)
    → IsSpot pf
    → lookup f.pair pf.positions ≡ o
    → Fills pf f (apply_sell pf f o)
unfolding apply_sell sold
sell-Kept pf f none s e = Kept-refl _
sell-Kept pf f (some p) s e =
    if_cases (Fills pf f) (ltb_ℤ p.qty f.qty) _ _ (λ _. Kept-refl _)
      (λ _.
        if_cases (Fills pf f) (eqb_ℤ (p.qty ⊖ f.qty) (pos 0)) _ _
          (λ _. rw (lookup-erase_self f.pair pf.positions s.unique) (Kept-none _))
          (λ _. Kept-insert f.pair _ pf.positions _ (rw e (Tighter-refl p.stop_loss))))

by_side-Kept :
    (side : Side) (pf : Portfolio) (f : Fill) (strict : Bool)
    → IsSpot pf
    → Fills pf f (by_side side pf f strict)
by_side-Kept buy pf f strict s = buy-Kept pf f strict
by_side-Kept sell pf f strict s = sell-Kept pf f _ s refl
by_side-Kept other pf f strict s = Kept-refl _

fill-Kept :
    (pf : Portfolio) (f : Fill) (strict : Bool) → IsSpot pf → Fills pf f (apply_fill pf f strict)
unfolding apply_fill
fill-Kept pf f strict s =
    if_cases (Fills pf f) (is_bad f) _ _ (λ _. Kept-refl _)
      (λ _.
        by_side-Kept f.side (charge pf f) f strict (record { unique = s.unique; long = s.long }))

-- The calls that the program makes on a ledger.
pub data Op : Type 0 where
  fill : Fill → Bool → Op
  raise : String → Decimal → Op

-- The ledger after a call that raised is what the call left.
unfoldable pub apply : Portfolio → Op → Portfolio
apply pf (fill f strict) = (apply_fill pf f strict).1
apply pf (raise k stop) = elim (raise_stop pf k stop) [ none ↦ pf | some r ↦ r.1 ]

unfoldable pub run : Portfolio → List Op → Portfolio
run pf [] = pf
run pf (o ∷ os) = run (apply pf o) os

-- What a call of `raise_stop` can leave: the ledger as it was, or the stop moved up.
pub apply-raise :
    (P : Portfolio → Type 0) (pf : Portfolio) (j : String) (stop : Decimal)
    → P pf
    → ((p : Position)
        → lookup j pf.positions ≡ some p
        → not_above stop p.stop_loss ≡ false
        → P (moved pf j stop p))
    → P (apply pf (raise j stop))
unfolding apply raise_stop
apply-raise P pf j stop same moves = elim (Option-cases (lookup j pf.positions)) [
  | inl missing ↦ rw (missing, apply, raise_stop) same
  | inr (p, held) ↦ elim (Bool-cases (not_above stop p.stop_loss)) [
    | inl low ↦ rw (held, low, apply, raise_stop) same
    | inr above ↦ rw (held, above, apply, raise_stop) (moves p held above)
  ]
]

Tighter-above :
    (new : Decimal) (old : Option Decimal) → not_above new old ≡ false → Tighter old (some new)
Tighter-above new none h = tt
Tighter-above new (some old) h = ground arith

apply-Kept :
    (pf : Portfolio) (o : Op) (k : String)
    → IsSpot pf
    → Kept (lookup k pf.positions) (lookup k (apply pf o).positions)
unfolding apply
apply-Kept pf (fill f strict) k s = elim (Bool-cases (str_eq f.pair k)) [
  | inl same ↦
      let here : f.pair ≡ k = (eq_iff f.pair k).0 same in
      subst (λ j. Kept (lookup j pf.positions) (lookup j (apply_fill pf f strict).1.positions)) here
        (fill-Kept pf f strict s)
  | inr different ↦
      let there : f.pair ≢ k = ground (arith, eq_iff f.pair k) in
      rw (apply_fill_others pf f strict k there) (Kept-refl _)
]
apply-Kept pf (raise j stop) k s =
    apply-raise (λ r. Kept (lookup k pf.positions) (lookup k r.positions)) pf j stop (Kept-refl _)
      (λ p held above. rw lookup-insert (
        if_cases (Kept (lookup k pf.positions)) (str_eq j k) _ _
          (λ same. rw (← (eq_iff j k).0 same, held) (Tighter-above stop p.stop_loss above))
          (λ _. Kept-refl _)))

pub apply-IsSpot : (pf : Portfolio) (o : Op) → IsSpot pf → IsSpot (apply pf o)
unfolding apply
apply-IsSpot pf (fill f strict) s = apply_fill-IsSpot pf f strict s
apply-IsSpot pf (raise j stop) s =
    apply-raise IsSpot pf j stop s
      (λ p held _. put-IsSpot pf _ j _ s (lookup-AllValues IsLong j pf.positions s.long held) refl)

-- The pair is held after every call of the run.
abbrev pub StaysHeld : String → Portfolio → List Op → Type 0
StaysHeld k pf [] = Unit
StaysHeld k pf (o ∷ os) = (lookup k (apply pf o).positions ≢ none) × StaysHeld k (apply pf o) os

-- Over any run of fills and stop moves through which a pair stays held, from a ledger that holds
-- each pair once and long, the pair's stop-loss never falls and is never taken away.
pub run_stop :
    (pf : Portfolio) (os : List Op) (k : String) (p q : Position)
    → IsSpot pf
    → StaysHeld k pf os
    → lookup k pf.positions ≡ some p
    → lookup k (run pf os).positions ≡ some q
    → Tighter p.stop_loss q.stop_loss
unfolding run
run_stop pf [] k p q s held before after =
    let same : p ≡ q = ground arith in rw same (Tighter-refl q.stop_loss)
run_stop pf (o ∷ os) k p q s held before after =
    elim (Option-cases (lookup k (apply pf o).positions)) [
      | inl gone ↦ absurd (held.0 gone)
      | inr (m, there) ↦
          let first : Kept (some p) (some m) = rw (before, there) at (apply-Kept pf o k s) in
          Tighter-trans p.stop_loss m.stop_loss q.stop_loss first
            (run_stop (apply pf o) os k m q (apply-IsSpot pf o s) held.1 there after)
    ]

-- After any run the ledger still holds every pair at most once, in a positive quantity.
pub run-IsSpot : (pf : Portfolio) (os : List Op) → IsSpot pf → IsSpot (run pf os)
unfolding run
run-IsSpot pf [] s = s
run-IsSpot pf (o ∷ os) s = run-IsSpot (apply pf o) os (apply-IsSpot pf o s)
