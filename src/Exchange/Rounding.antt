-- ===== src/Exchange/Rounding.antt =====
-- `_floor_to_step` and `_ceil_to_step` of agent/exchange/models.py, where 28 digits hold the value and
-- its quotient by the step. (They do where the step is a power of ten, as those of the exchange are: the
-- quotient has the digits of the value.)
use Prim.Native.Nat.{◌+◌, ◌-◌, ◌*◌, ◌/◌}
use native.Mathlib.Nat.{
  mul-le-mul, le_refl, le_trans, div-mul-le_self, le-div_iff_mul-le, mul-div_cancel, div-add-mod',
  mod-lt,
}
use tio_indodax.Prelude.{
  ℕ, zero, suc, ◌≤◌, ◌≡◌, arith, ◌≤ℤ◌, ◌<ℤ◌, pos, negsuc, Option, none, some, inl, inr,
  Option-cases,
}
use tio_indodax.Decimal.{Decimal, unit, ◌⊗◌, ◌⊘◌, floor, ceiling}
use tio_indodax.Decimal.Rounding.{IsShort}
use tio_indodax.Decimal.Laws.{
  unit-pos, rounded_exact, rounded_le, rounded_ge, ⊘_mono, ⊘_nonneg, ⊗_mono,
}
use tio_indodax.Exchange.Models.{PairInfo, floor_to_step, ceil_to_step, truthy, round_qty}

-- The value and its quotient by the step are exact in 28 digits.
abbrev pub FitsStep : Decimal → Decimal → Type 0
FitsStep (pos n) (pos (suc m)) = IsShort n × ((c : ℕ) × IsShort c × (n * unit ≡ c * suc m))
FitsStep _ _ = ⊥

pub exact_quotient : (n m c : ℕ) → IsShort c → n * unit ≡ c * suc m → pos n ⊘ pos (suc m) ≡ pos c
unfolding ◌⊘◌
exact_quotient n m c short h =
    rounded_exact (n * unit) (0 * unit) (suc m) c (omega arith) short (omega arith)

floor_to_step-le_pos :
    (n m c : ℕ)
    → IsShort n
    → IsShort c
    → n * unit ≡ c * suc m
    → floor_to_step (pos n) (pos (suc m)) ≤ℤ pos n
unfolding floor_to_step floor ◌⊗◌
floor_to_step-le_pos n m c short short' h = rw (exact_quotient n m c short' h) (
    let product : c / unit * unit * suc m ≤ c * suc m =
      mul-le-mul (div-mul-le_self c unit) (le_refl (suc m)) in
    rounded_le _ _ unit n unit-pos short (omega arith))

-- Rounding down does not pass the value.
pub floor_to_step-le : (v s : Decimal) → FitsStep v s → floor_to_step v s ≤ℤ v
floor_to_step-le (pos n) (pos (suc m)) (short, (c, short', h)) =
    floor_to_step-le_pos n m c short short' h
floor_to_step-le (pos n) (pos zero) h = elim h [ ]
floor_to_step-le (pos n) (negsuc m) h = elim h [ ]
floor_to_step-le (negsuc n) s h = elim h [ ]

floor_mono : (v w : Decimal) → pos 0 ≤ℤ v → v ≤ℤ w → floor v ≤ℤ floor w
unfolding floor
floor_mono (pos n) (pos m) p h =
    let below : n / unit * unit ≤ m = le_trans (div-mul-le_self n unit) (omega arith) in
    let quotients : n / unit ≤ m / unit = (le-div_iff_mul-le {x = n / unit} unit-pos).1 below in
    let grows : n / unit * unit ≤ m / unit * unit = mul-le-mul quotients (le_refl unit) in
    omega arith
floor_mono _ _ p h = absurd (omega arith)

floor_nonneg : (v : Decimal) → pos 0 ≤ℤ v → pos 0 ≤ℤ floor v
unfolding floor
floor_nonneg (pos n) p = omega arith
floor_nonneg (negsuc n) p = absurd (omega arith)

pub floor_to_step_mono :
    (v w s : Decimal) → pos 0 ≤ℤ v → pos 0 <ℤ s → v ≤ℤ w → floor_to_step v s ≤ℤ floor_to_step w s
unfolding floor_to_step
floor_to_step_mono v w s p q h =
    let start : pos 0 ≤ℤ v ⊘ s = ⊘_nonneg v s p q in
    ⊗_mono (floor (v ⊘ s)) s (floor (w ⊘ s)) s (floor_nonneg (v ⊘ s) start) (omega arith)
      (floor_mono (v ⊘ s) (w ⊘ s) start (⊘_mono v w s q h)) (omega arith)

-- k times the step.
pub multiple_exact :
    (k m : ℕ) → IsShort (k * suc m) → pos (k * unit) ⊗ pos (suc m) ≡ pos (k * suc m)
unfolding ◌⊗◌
multiple_exact k m short = rounded_exact _ _ unit (k * suc m) unit-pos short (grind arith)

floor_whole : (k : ℕ) → floor (pos (k * unit)) ≡ pos (k * unit)
unfolding floor
floor_whole k = rw (mul-div_cancel k unit-pos)

-- A multiple of the step stays where it is.
pub floor_to_step_multiple :
    (k m : ℕ)
    → IsShort (k * suc m)
    → IsShort (k * unit)
    → floor_to_step (pos (k * suc m)) (pos (suc m)) ≡ pos (k * suc m)
unfolding floor_to_step
floor_to_step_multiple k m short short' =
    rw (exact_quotient (k * suc m) m (k * unit) short' (grind arith), floor_whole k)
      (multiple_exact k m short)

ceil_to_step-ge_pos :
    (n m c : ℕ)
    → IsShort n
    → IsShort c
    → n * unit ≡ c * suc m
    → pos n ≤ℤ ceil_to_step (pos n) (pos (suc m))
unfolding ceil_to_step ceiling ◌⊗◌
ceil_to_step-ge_pos n m c short short' h = rw (exact_quotient n m c short' h) (
    let enough : c ≤ (c + unit - 1) / unit * unit =
      omega (arith, unit-pos, div-add-mod' (c + unit - 1) unit, mod-lt (c + unit - 1) unit-pos) in
    let product : c * suc m ≤ (c + unit - 1) / unit * unit * suc m =
      mul-le-mul enough (le_refl (suc m)) in
    rounded_ge _ _ unit n unit-pos short (omega arith))

-- Rounding up does not fall below the value.
pub ceil_to_step-ge : (v s : Decimal) → FitsStep v s → v ≤ℤ ceil_to_step v s
ceil_to_step-ge (pos n) (pos (suc m)) (short, (c, short', h)) =
    ceil_to_step-ge_pos n m c short short' h
ceil_to_step-ge (pos n) (pos zero) h = elim h [ ]
ceil_to_step-ge (pos n) (negsuc m) h = elim h [ ]
ceil_to_step-ge (negsuc n) s h = elim h [ ]

-- The value fits the step that is in force, if there is one.
abbrev pub FitsOpt : Decimal → Option Decimal → Type 0
FitsOpt v none = Unit
FitsOpt v (some s) = FitsStep v s

-- A quantity is never rounded up.
pub round_qty-le :
    (info : PairInfo) (qty : Decimal)
    → FitsOpt qty (truthy info.qty_step)
    → round_qty info qty ≤ℤ qty
unfolding round_qty
round_qty-le info qty fits = elim (Option-cases (truthy info.qty_step)) [
  | inl missing ↦ rw (missing, round_qty) (omega arith)
  | inr (s, there) ↦ rw (there, round_qty) (floor_to_step-le qty s (rw there at fits))
]
