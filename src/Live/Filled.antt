-- ===== src/Live/Filled.antt =====
-- agent/exchange/trade_client.py: the coin of a partly filled order grows as less remains.
use tio_indodax.Prelude.{
  ◌≡◌, Option, some, none, arith, inl, inr, pos, ◌≤ℤ◌, leb_ℤ, eqb_ℤ, Bool-cases,
}
use tio_indodax.Decimal.{Decimal, ◌⊖◌, ◌⊗◌, ◌⊘◌, min, max, whole}
use tio_indodax.Decimal.Laws.{⊖_mono, ⊘_mono, ⊗_mono, ⊗_nonneg}
use tio_indodax.Exchange.Models.{truthy}
use tio_indodax.Exchange.Rounding.{floor_to_step_mono}
use tio_indodax.Live.Remote.{OrderState, filled_fraction, to_step, partial_fill}

-- A step is not negative.
abbrev pub IsStep : Option Decimal → Type 0
IsStep none = Unit
IsStep (some s) = pos 0 ≤ℤ s

clamp_mono :
    (x y top : Decimal)
    → pos 0 ≤ℤ top
    → x ≤ℤ y
    → (pos 0 ≤ℤ min (max x (pos 0)) top) × (min (max x (pos 0)) top ≤ℤ min (max y (pos 0)) top)
clamp_mono x y top h g = (ground arith, ground arith)

fraction_mono :
    (old new : OrderState)
    → new.orig_qty ≡ old.orig_qty
    → new.remaining_qty ≤ℤ old.remaining_qty
    → (pos 0 ≤ℤ filled_fraction old) × (filled_fraction old ≤ℤ filled_fraction new)
unfolding filled_fraction
fraction_mono old new same h = elim (Bool-cases (leb_ℤ old.orig_qty (pos 0))) [
  | inl empty ↦ rw (same, empty, filled_fraction) (omega arith, omega arith)
  | inr full ↦
      let size = old.orig_qty in
      let rise =
        ⊘_mono (size ⊖ old.remaining_qty) (size ⊖ new.remaining_qty) size (ground arith)
          (⊖_mono size old.remaining_qty size new.remaining_qty (omega arith) h) in
      rw (same, full, filled_fraction)
        (clamp_mono ((size ⊖ old.remaining_qty) ⊘ size) ((size ⊖ new.remaining_qty) ⊘ size)
          (whole 1) (omega arith) rise)
]

to_step_mono :
    (step : Option Decimal) (v w : Decimal)
    → IsStep step
    → pos 0 ≤ℤ v
    → v ≤ℤ w
    → to_step (truthy step) v ≤ℤ to_step (truthy step) w
to_step_mono none v w h p q = q
to_step_mono (some s) v w h p q = elim (Bool-cases (eqb_ℤ s (pos 0))) [
  | inl zero_step ↦ rw zero_step q
  | inr some_step ↦ rw some_step (floor_to_step_mono v w s p (ground arith) q)
]

pub partial_fill_mono :
    (old new : OrderState) (qty : Decimal) (step : Option Decimal)
    → pos 0 ≤ℤ qty
    → IsStep step
    → new.orig_qty ≡ old.orig_qty
    → new.remaining_qty ≤ℤ old.remaining_qty
    → partial_fill old qty step ≤ℤ partial_fill new qty step
unfolding partial_fill
partial_fill_mono old new qty step h g same less =
    let (start, rise) = fraction_mono old new same less in
    to_step_mono step (qty ⊗ filled_fraction old) (qty ⊗ filled_fraction new) g
      (⊗_nonneg qty (filled_fraction old) h start)
      (⊗_mono qty (filled_fraction old) qty (filled_fraction new) h start (omega arith) rise)
