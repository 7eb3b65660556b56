-- ===== src/Decimal.antt =====
-- `decimal.Decimal` of Python's standard library under its default context, as far as the program
-- uses it: finite values, exact operations followed by one rounding to 28 significant digits, half
-- to even. A value is counted in units of 10 ** -60, so equal values are equal integers whatever
-- their exponents. (The context's own grid is 10 ** -1000026. Nothing that the program computes
-- with comes near either.)
pub mod Rounding
pub mod Laws
mod Tests
use Prim.Native.Nat.{◌+◌, ◌-◌, ◌*◌, ◌/◌, ◌^◌}
use tio_indodax.Prelude.{
  ℕ, zero, suc, Bool, Option, none, some, List, [], ◌∷◌, ◌==◌, if◌then◌else◌, ℤ, pos, negsuc,
  pos_part, neg_part, sub_ℕ, ltb_ℤ, eqb_ℤ,
}
use tio_indodax.Decimal.Rounding.{round_quot}

abbrev pub Decimal : Type 0
Decimal = ℤ

-- The units in 1.
unfoldable pub unit : ℕ
unit = 10 ^ 60

-- (x - y) / d, rounded.
unfoldable pub rounded : ℕ → ℕ → ℕ → Decimal
rounded x y d = sub_ℕ (round_quot (x - y) (x - y) d) (round_quot (y - x) (y - x) d)

-- The rounded operations, `+ - * /` of the source.
infixl 65 ◌⊕◌ ◌⊖◌
infixl 70 ◌⊗◌ ◌⊘◌
unfoldable pub ◌⊕◌ : Decimal → Decimal → Decimal
a ⊕ b = rounded (pos_part a + pos_part b) (neg_part a + neg_part b) 1

unfoldable pub ◌⊖◌ : Decimal → Decimal → Decimal
a ⊖ b = rounded (pos_part a + neg_part b) (neg_part a + pos_part b) 1

unfoldable pub ◌⊗◌ : Decimal → Decimal → Decimal
a ⊗ b =
    rounded (pos_part a * pos_part b + neg_part a * neg_part b)
      (pos_part a * neg_part b + neg_part a * pos_part b) unit

-- Division where the divisor is known not to be 0.
unfoldable pub ◌⊘◌ : Decimal → Decimal → Decimal
a ⊘ (pos n) = rounded (pos_part a * unit) (neg_part a * unit) n
a ⊘ (negsuc n) = rounded (neg_part a * unit) (pos_part a * unit) (suc n)

-- Division in general: by 0 it raises `DivisionByZero` or `InvalidOperation`, here `none`.
unfoldable pub divide : Decimal → Decimal → Option Decimal
divide a b = if eqb_ℤ b (pos 0) then none else some (a ⊘ b)

-- Decimal(n) and Decimal of n / m, where the units are divisible by m.
abbrev pub whole : ℕ → Decimal
whole n = pos (n * unit)

abbrev pub fraction : ℕ → ℕ → Decimal
fraction n m = pos (n * (unit / m))

-- `to_integral_value`, which does not round to 28 digits.
unfoldable pub floor : Decimal → Decimal
floor (pos n) = pos (n / unit * unit)
floor (negsuc n) = sub_ℕ 0 ((n / unit + 1) * unit)

unfoldable pub ceiling : Decimal → Decimal
ceiling (pos n) = pos ((n + unit - 1) / unit * unit)
ceiling (negsuc n) = sub_ℕ 0 (suc n / unit * unit)

abbrev pub max : Decimal → Decimal → Decimal
max a b = if ltb_ℤ a b then b else a

abbrev pub min : Decimal → Decimal → Decimal
min a b = if ltb_ℤ b a then b else a

-- `sum(xs, ZERO)` adds from the left.
pub sum_from : Decimal → List Decimal → Decimal
sum_from acc [] = acc
sum_from acc (x ∷ xs) = sum_from (acc ⊕ x) xs

unfoldable pub sum : List Decimal → Decimal
unfolding sum_from
sum = sum_from (pos 0)

-- The whole arithmetic, for the tests to unfold.
unfoldable pub arithmetic : ℕ
unfolding rounded round_quot ◌⊕◌ ◌⊖◌ ◌⊗◌ ◌⊘◌ divide floor ceiling sum unit
arithmetic = 0
