-- ===== src/Exchange/Snaps.antt =====
-- `round_price` and `round_qty` of agent/exchange/models.py: which multiple of the step they give.
use Prim.Native.Nat.{◌+◌, ◌-◌, ◌*◌, ◌/◌}
use native.Mathlib.Nat.{
  mul-lt-mul_of_pos_right, mul-le-mul, le_refl, div-mul-le_self, div-add-mod', mod-lt,
}
use tio_indodax.Prelude.{ℕ, zero, suc, ◌≤◌, ◌<◌, ◌≡◌, arith, ◌≤ℤ◌, pos, negsuc, some}
use tio_indodax.Decimal.{Decimal, unit, floor, ceiling}
use tio_indodax.Decimal.Rounding.{IsShort}
use tio_indodax.Decimal.Laws.{unit-pos}
use tio_indodax.Exchange.Models.{
  buy, sell, PairInfo, floor_to_step, ceil_to_step, truthy, round_price, round_qty,
}
use tio_indodax.Exchange.Rounding.{
  FitsStep, exact_quotient, multiple_exact, floor_to_step-le, floor_to_step_mono,
  floor_to_step_multiple, ceil_to_step-ge,
}

-- The k-th multiple of the step is the last at or below the value; the result is it, if 28 digits hold
-- it, and is not above the value in any case.
abbrev pub IsFloor : Decimal → Decimal → Decimal → Type 0
IsFloor (pos n) (pos s) r =
    (r ≤ℤ pos n) × ((k : ℕ) × (k * s ≤ n) × (n < k * s + s) × (IsShort (k * s) → r ≡ pos (k * s)))
IsFloor _ _ _ = ⊥

-- The k-th multiple is the first at or above the value.
abbrev pub IsCeiling : Decimal → Decimal → Decimal → Type 0
IsCeiling (pos n) (pos s) r =
    (pos n ≤ℤ r) × ((k : ℕ) × (n ≤ k * s) × (k * s < n + s) × (IsShort (k * s) → r ≡ pos (k * s)))
IsCeiling _ _ _ = ⊥

unscaled_le : (a b : ℕ) → a * unit ≤ b * unit → a ≤ b
unfolding unit
unscaled_le a b h = omega (arith, h)

unscaled_lt : (a b : ℕ) → a * unit < b * unit → a < b
unfolding unit
unscaled_lt a b h = omega (arith, h)

-- The quotient by the step, taken down.
floor_pos :
    (n m c : ℕ)
    → IsShort c
    → n * unit ≡ c * suc m
    → let k = c / unit in
      (k * suc m ≤ n)
      × (n < k * suc m + suc m)
      × (IsShort (k * suc m) → floor_to_step (pos n) (pos (suc m)) ≡ pos (k * suc m))
unfolding floor_to_step floor
floor_pos n m c short h =
    let k = c / unit in
    let low : k * unit * suc m ≤ c * suc m =
      mul-le-mul (div-mul-le_self c unit) (le_refl (suc m)) in
    let next : c < k * unit + unit = omega (arith, div-add-mod' c unit, mod-lt c unit-pos) in
    let high : c * suc m < (k * unit + unit) * suc m = mul-lt-mul_of_pos_right next (omega arith) in
    (
      unscaled_le (k * suc m) n (omega (arith, low, h)),
      unscaled_lt n (k * suc m + suc m) (omega (arith, high, h)),
      λ exact. rw (exact_quotient n m c short h) (multiple_exact k m exact),
    )

-- The quotient by the step, taken up.
ceiling_pos :
    (n m c : ℕ)
    → IsShort c
    → n * unit ≡ c * suc m
    → let k = (c + unit - 1) / unit in
      (n ≤ k * suc m)
      × (k * suc m < n + suc m)
      × (IsShort (k * suc m) → ceil_to_step (pos n) (pos (suc m)) ≡ pos (k * suc m))
unfolding ceil_to_step ceiling
ceiling_pos n m c short h =
    let k = (c + unit - 1) / unit in
    let enough : c ≤ k * unit =
      omega (arith, unit-pos, div-add-mod' (c + unit - 1) unit, mod-lt (c + unit - 1) unit-pos) in
    let near : k * unit < c + unit = omega (arith, unit-pos, div-mul-le_self (c + unit - 1) unit) in
    let low : c * suc m ≤ k * unit * suc m = mul-le-mul enough (le_refl (suc m)) in
    let high : k * unit * suc m < (c + unit) * suc m = mul-lt-mul_of_pos_right near (omega arith) in
    (
      unscaled_le n (k * suc m) (omega (arith, low, h)),
      unscaled_lt (k * suc m) (n + suc m) (omega (arith, high, h)),
      λ exact. rw (exact_quotient n m c short h) (multiple_exact k m exact),
    )

floor_to_step-IsFloor : (v s : Decimal) → FitsStep v s → IsFloor v s (floor_to_step v s)
floor_to_step-IsFloor (pos n) (pos (suc m)) (short, (c, short', h)) =
    (let (low, next, exact) = floor_pos n m c short' h in
      (
        floor_to_step-le (pos n) (pos (suc m)) (short, (c, short', h)),
        (c / unit, low, next, exact),
      ))
floor_to_step-IsFloor (pos n) (pos zero) h = elim h [ ]
floor_to_step-IsFloor (pos n) (negsuc m) h = elim h [ ]
floor_to_step-IsFloor (negsuc n) s h = elim h [ ]

ceil_to_step-IsCeiling : (v s : Decimal) → FitsStep v s → IsCeiling v s (ceil_to_step v s)
ceil_to_step-IsCeiling (pos n) (pos (suc m)) (short, (c, short', h)) =
    let (low, near, exact) = ceiling_pos n m c short' h in
    (
      ceil_to_step-ge (pos n) (pos (suc m)) (short, (c, short', h)),
      ((c + unit - 1) / unit, low, near, exact),
    )
ceil_to_step-IsCeiling (pos n) (pos zero) h = elim h [ ]
ceil_to_step-IsCeiling (pos n) (negsuc m) h = elim h [ ]
ceil_to_step-IsCeiling (negsuc n) s h = elim h [ ]

-- Let the value and its quotient by the tick in force be exact in 28 digits and not negative. The
-- price of a buy is at most the value, and it is the last multiple of the tick that is; the price of a
-- sale is at least the value, and it is the first multiple that is. (That the price is the multiple
-- holds where 28 digits hold the multiple.)
pub round_price_conservative :
    (info : PairInfo) (price tick : Decimal)
    → truthy info.price_tick ≡ some tick
    → FitsStep price tick
    → IsFloor price tick (round_price info price buy)
      × IsCeiling price tick (round_price info price sell)
unfolding round_price
round_price_conservative info price tick there fits =
    rw (there, round_price)
      (floor_to_step-IsFloor price tick fits, ceil_to_step-IsCeiling price tick fits)

-- Let a quantity and its quotient by the step in force be exact in 28 digits and not negative. It is
-- rounded to the last multiple of the step that is at most the quantity, where 28 digits hold that
-- multiple, and in any case to no more than the quantity and to no less than any multiple that 28
-- digits hold with its quotient and that is at most the quantity.
pub round_qty_greatest :
    (info : PairInfo) (n m : ℕ)
    → truthy info.qty_step ≡ some (pos (suc m))
    → FitsStep (pos n) (pos (suc m))
    → IsFloor (pos n) (pos (suc m)) (round_qty info (pos n))
      × ((k : ℕ)
          → IsShort (k * suc m)
          → IsShort (k * unit)
          → k * suc m ≤ n
          → pos (k * suc m) ≤ℤ round_qty info (pos n))
unfolding round_qty
round_qty_greatest info n m there fits =
    rw (there, round_qty)
      (
        floor_to_step-IsFloor (pos n) (pos (suc m)) fits,
        λ k short short' below. rw (floor_to_step_multiple k m short short') at (
            floor_to_step_mono (pos (k * suc m)) (pos n) (pos (suc m)) (omega arith) (omega arith)
              (omega arith)),
      )
