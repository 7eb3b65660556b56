-- ===== src/Decimal/Laws.antt =====
-- What the rounded operations keep: signs, the order, and values of at most 28 digits.
use Prim.Native.Nat.{◌+◌, ◌-◌, ◌*◌}
use native.Mathlib.Nat.{mul-le-mul, le_refl}
use tio_indodax.Prelude.{ℕ, suc, ◌≤◌, ◌<◌, ◌≡◌, arith, ◌≤ℤ◌, ◌<ℤ◌, pos, negsuc}
use tio_indodax.Decimal.{Decimal, unit, rounded, ◌⊕◌, ◌⊖◌, ◌⊗◌, ◌⊘◌}
use tio_indodax.Decimal.Rounding.{
  round_quot, IsShort, round_quot-le, round_quot-ge, round_quot-zero, round_quot_mono,
  round_quot-pos, round_quot-exact,
}

pub unit-pos : 0 < unit
unfolding unit
unit-pos = omega arith

-- `round_quot` with the fuel that `rounded` gives it.
abbrev part : ℕ → ℕ → ℕ
part n d = round_quot n n d

part_mono : (n m d : ℕ) → 0 < d → n ≤ m → part n d ≤ part m d
part_mono n m d p h = round_quot_mono n m n m d p (grind arith) (grind arith) h

pub rounded_nonneg : (x y d : ℕ) → 0 < d → y ≤ x → pos 0 ≤ℤ rounded x y d
unfolding rounded
rounded_nonneg x y d p h = ground (arith, part_mono (y - x) (x - y) d p)

pub rounded_pos : (x y d : ℕ) → 0 < d → y + d ≤ x → pos 0 <ℤ rounded x y d
unfolding rounded
rounded_pos x y d p h =
    let none_below : y - x ≡ 0 = omega arith in
    rw none_below
      (ground (arith, round_quot-pos (x - y) (x - y) d p (omega arith), round_quot-zero 0 d p))

pub rounded_mono : (x y x' y' d : ℕ) → 0 < d → x + y' ≤ x' + y → rounded x y d ≤ℤ rounded x' y' d
unfolding rounded
rounded_mono x y x' y' d p h = ground (
  arith,
  part_mono (x - y) (x' - y') d p (omega arith),
  part_mono (y' - x') (y - x) d p (omega arith),
)

-- Values of at most 28 digits come out unchanged.
pub rounded_exact : (x y d c : ℕ) → 0 < d → IsShort c → x ≡ y + c * d → rounded x y d ≡ pos c
unfolding rounded
rounded_exact x y d c p small h =
    let none_below : y - x ≡ 0 = omega arith in
    rw none_below (
      ground
        (arith, round_quot-exact (x - y) (x - y) d c p small (omega arith), round_quot-zero 0 d p))

-- A short bound of the exact value bounds the rounded one.
pub rounded_le : (x y d c : ℕ) → 0 < d → IsShort c → x ≤ y + c * d → rounded x y d ≤ℤ pos c
unfolding rounded
rounded_le x y d c p small h =
    ground (arith, round_quot-le (x - y) (x - y) d c p small (omega arith))

module _ (a b : Decimal) where
  pub ⊕_nonneg : pos 0 ≤ℤ a → pos 0 ≤ℤ b → pos 0 ≤ℤ a ⊕ b
  unfolding ◌⊕◌
  ⊕_nonneg p q = rounded_nonneg _ _ 1 (omega arith) (omega arith)

  pub ⊕_pos : pos 0 <ℤ a → pos 0 ≤ℤ b → pos 0 <ℤ a ⊕ b
  unfolding ◌⊕◌
  ⊕_pos p q = rounded_pos _ _ 1 (omega arith) (omega arith)

  pub ⊖_nonneg : b ≤ℤ a → pos 0 ≤ℤ a ⊖ b
  unfolding ◌⊖◌
  ⊖_nonneg p = rounded_nonneg _ _ 1 (omega arith) (omega arith)

  pub ⊖_pos : b <ℤ a → pos 0 <ℤ a ⊖ b
  unfolding ◌⊖◌
  ⊖_pos p = rounded_pos _ _ 1 (omega arith) (omega arith)

  pub ⊗_nonneg : pos 0 ≤ℤ a → pos 0 ≤ℤ b → pos 0 ≤ℤ a ⊗ b
  unfolding ◌⊗◌
  ⊗_nonneg p q = rounded_nonneg _ _ unit unit-pos (ground arith)

pub ⊘_nonneg : (a b : Decimal) → pos 0 ≤ℤ a → pos 0 <ℤ b → pos 0 ≤ℤ a ⊘ b
unfolding ◌⊘◌
⊘_nonneg (pos n) (pos (suc m)) p q = rounded_nonneg _ _ (suc m) (omega arith) (omega arith)
⊘_nonneg _ _ p q = absurd (omega arith)

module _ (a b c d : Decimal) where
  pub ⊕_mono : a ≤ℤ c → b ≤ℤ d → a ⊕ b ≤ℤ c ⊕ d
  unfolding ◌⊕◌
  ⊕_mono p q = rounded_mono _ _ _ _ 1 (omega arith) (omega arith)

  pub ⊖_mono : a ≤ℤ c → d ≤ℤ b → a ⊖ b ≤ℤ c ⊖ d
  unfolding ◌⊖◌
  ⊖_mono p q = rounded_mono _ _ _ _ 1 (omega arith) (omega arith)

pub ⊗_mono : (a b c d : Decimal) → pos 0 ≤ℤ a → pos 0 ≤ℤ b → a ≤ℤ c → b ≤ℤ d → a ⊗ b ≤ℤ c ⊗ d
unfolding ◌⊗◌
⊗_mono (pos a) (pos b) (pos c) (pos d) p q r s =
    rounded_mono _ _ _ _ unit unit-pos
      (grind (arith, mul-le-mul {n₁ = a} {m₁ = c} {n₂ = b} {m₂ = d}))
⊗_mono _ _ _ _ p q r s = absurd (omega arith)

pub rounded_ge : (x y d c : ℕ) → 0 < d → IsShort c → y + c * d ≤ x → pos c ≤ℤ rounded x y d
unfolding rounded
rounded_ge x y d c p small h =
    let none_below : y - x ≡ 0 = omega arith in
    rw none_below (
      ground
        (arith, round_quot-ge (x - y) (x - y) d c p small (omega arith), round_quot-zero 0 d p))

pub ⊘_mono : (a c b : Decimal) → pos 0 <ℤ b → a ≤ℤ c → a ⊘ b ≤ℤ c ⊘ b
unfolding ◌⊘◌
⊘_mono (pos a) (pos c) (pos (suc b)) p h =
    let below : a ≤ c = omega arith in
    let grows : a * unit ≤ c * unit = mul-le-mul below (le_refl unit) in
    rounded_mono (a * unit) (0 * unit) (c * unit) (0 * unit) (suc b) (omega arith) (omega arith)
⊘_mono (negsuc a) (pos c) (pos (suc b)) p h =
    rounded_mono (0 * unit) (suc a * unit) (c * unit) (0 * unit) (suc b) (omega arith) (omega arith)
⊘_mono (negsuc a) (negsuc c) (pos (suc b)) p h =
    let below : suc c ≤ suc a = omega arith in
    let grows : suc c * unit ≤ suc a * unit = mul-le-mul below (le_refl unit) in
    rounded_mono (0 * unit) (suc a * unit) (0 * unit) (suc c * unit) (suc b) (omega arith)
      (omega arith)
⊘_mono _ _ _ p h = absurd (omega arith)
