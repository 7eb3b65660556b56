-- ===== src/Decimal/Tests.antt =====
-- Values that Python's `decimal` gives, run through the model.
use Prim.Native.Nat.{◌*◌, ◌^◌}
use tio_indodax.Prelude.{◌≡◌, refl, pos, none}
use tio_indodax.Decimal.{whole, fraction, divide, ◌⊕◌, ◌⊘◌, ◌⊗◌, ◌⊖◌, floor, ceiling, arithmetic}

third_times_three :
    (whole 1 ⊘ whole 3) ⊗ whole 3 ≡ pos (9_999_999_999_999_999_999_999_999_999 * 10 ^ 32)
unfolding arithmetic
third_times_three = refl

tenths : fraction 1 10 ⊕ fraction 2 10 ≡ fraction 3 10
unfolding arithmetic
tenths = refl

floor-ceiling :
    (floor (fraction 27 10) ≡ whole 2)
    × (ceiling (fraction 27 10) ≡ whole 3)
    × (floor (pos 0 ⊖ fraction 27 10) ≡ pos 0 ⊖ whole 3)
    × (ceiling (pos 0 ⊖ fraction 27 10) ≡ pos 0 ⊖ whole 2)
unfolding arithmetic
floor-ceiling = (refl, refl, refl, refl)

by_zero : divide (whole 1) (whole 0) ≡ none
unfolding arithmetic
by_zero = refl
