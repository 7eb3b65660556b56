-- ===== src/Decimal/Rounding.antt =====
-- Rounding to 28 significant digits, half to even: what the default context of `decimal` does to
-- the exact result of an operation.
use Prim.Native.Nat.{◌+◌, ◌*◌, ◌/◌, ◌%◌}
use native.Mathlib.Nat.{
  mul-le-mul, div-add-mod', le-div_iff_mul-le, le_refl, le_trans, le_of_mul-le-mul_right,
}
use tio_indodax.Prelude.{
  ℕ, zero, suc, ◌≤◌, ◌<◌, ◌≡◌, refl, ap, arith, ltb, ltb→lt, lt→ltb, ◌==◌, if◌then◌else◌, inl, inr,
  Bool-cases,
}

-- 10 ** 28: a coefficient has at most 28 digits.
abbrev pub limit : ℕ
limit = 10_000_000_000_000_000_000_000_000_000

-- n / m to the nearest integer, a tie to the even one.
pub half_even : ℕ → ℕ → ℕ
half_even n m =
    if ltb (2 * (n % m)) m
    then n / m
    else if ltb m (2 * (n % m))
    then n / m + 1
    else if n / m % 2 == 0
    then n / m
    else n / m + 1

-- n / d to 28 significant digits: a coefficient that would have more is taken at the next power of
-- ten. Each round drops a digit, so `n` rounds are enough fuel.
unfoldable pub round_quot : ℕ → ℕ → ℕ → ℕ
unfolding half_even
round_quot zero n d = half_even n d
round_quot (suc f) n d =
    let coarser = round_quot f n (d * 10) * 10 in
    if ltb n (d * limit) then half_even n d else coarser

half_even-between : (n d : ℕ) → (n / d ≤ half_even n d) × (half_even n d ≤ n / d + 1)
unfolding half_even
half_even-between n d = ground arith

half_even-ge : (n d c : ℕ) → 0 < d → c * d ≤ n → c ≤ half_even n d
half_even-ge n d c p h = omega (arith, half_even-between n d, (le-div_iff_mul-le {x = c} p).1 h)

-- With the same quotient, the remainder decides.
half_even-same : (n m d : ℕ) → n / d ≡ m / d → n % d ≤ m % d → half_even n d ≤ half_even m d
unfolding half_even
half_even-same n m d e h = ground arith

half_even-exact : (n d : ℕ) → 0 < d → n % d ≡ 0 → half_even n d ≡ n / d
unfolding half_even
half_even-exact n d p h = ground arith

half_even-le : (n d c : ℕ) → 0 < d → n ≤ c * d → half_even n d ≤ c
half_even-le n d c p h = elim (Bool-cases (ltb (n / d) c)) [
  | inl below ↦ omega (arith, half_even-between n d, ltb→lt _ _ below)
  | inr above ↦
      let low : c ≤ n / d = ground arith in
      let product : c * d ≤ n / d * d = mul-le-mul low (le_refl d) in
      let exact : n % d ≡ 0 = omega (arith, div-add-mod' n d) in
      let same : n / d * d ≤ c * d = omega (arith, div-add-mod' n d) in
      rw (half_even-exact n d p exact) (le_of_mul-le-mul_right same p)
]

half_even_mono : (n m d : ℕ) → 0 < d → n ≤ m → half_even n d ≤ half_even m d
half_even_mono n m d p h = elim (Bool-cases (ltb (n / d) (m / d))) [
  | inl below ↦ omega (arith, half_even-between n d, half_even-between m d, ltb→lt _ _ below)
  | inr above ↦
      let grows : n / d ≤ m / d =
        (le-div_iff_mul-le {x = n / d} p).1 (omega (arith, div-add-mod' n d)) in
      let same : n / d ≡ m / d = ground arith in
      let parts : n / d * d ≡ m / d * d = ap (λ (t : ℕ). t * d) same in
      half_even-same n m d same (omega (arith, div-add-mod' n d, div-add-mod' m d))
]

-- k * 10 ** e: with k up to 10 ** 28, a value that 28 digits hold.
abbrev pub shift : ℕ → ℕ → ℕ
shift zero k = k
shift (suc e) k = shift e k * 10

abbrev pub IsShort : ℕ → Type 0
IsShort c = (e : ℕ) × (k : ℕ) × (k ≤ limit) × (c ≡ shift e k)

-- 10 ** 27
abbrev tenth : ℕ
tenth = 1_000_000_000_000_000_000_000_000_000

-- A short value below the exact quotient is below the rounded one.
round_quot-ge_shift :
    (f n d e k : ℕ) → 0 < d → k ≤ limit → shift e k * d ≤ n → shift e k ≤ round_quot f n d
unfolding round_quot
round_quot-ge_shift zero n d e k p small h = half_even-ge n d (shift e k) p h
round_quot-ge_shift (suc f) n d zero k p small h = elim (Bool-cases (ltb n (d * limit))) [
  | inl fits ↦ rw fits (half_even-ge n d k p h)
  | inr more ↦ rw more (
      omega (
        arith,
        round_quot-ge_shift f n (d * 10) 0 tenth (omega arith) (omega arith) (ground arith),
      ))
]
round_quot-ge_shift (suc f) n d (suc e) k p small h = elim (Bool-cases (ltb n (d * limit))) [
  | inl fits ↦ rw fits (half_even-ge n d (shift (suc e) k) p h)
  | inr more ↦
      rw more
        (omega (arith, round_quot-ge_shift f n (d * 10) e k (omega arith) small (omega arith)))
]

-- And one above the exact quotient is above the rounded one.
round_quot-le_shift :
    (f n d e k : ℕ) → 0 < d → k ≤ limit → n ≤ shift e k * d → round_quot f n d ≤ shift e k
unfolding round_quot
round_quot-le_shift zero n d e k p small h = half_even-le n d (shift e k) p h
round_quot-le_shift (suc f) n d zero k p small h = elim (Bool-cases (ltb n (d * limit))) [
  | inl fits ↦ rw fits (half_even-le n d k p h)
  | inr more ↦
      let top : limit * d ≤ k * d = ground arith in
      let full : limit ≤ k = le_of_mul-le-mul_right top p in
      let squeezed : k * d ≤ limit * d = mul-le-mul small (le_refl d) in
      rw more (
        omega (
          arith,
          round_quot-le_shift f n (d * 10) 0 tenth (omega arith) (omega arith) (ground arith),
        ))
]
round_quot-le_shift (suc f) n d (suc e) k p small h = elim (Bool-cases (ltb n (d * limit))) [
  | inl fits ↦ rw fits (half_even-le n d (shift (suc e) k) p h)
  | inr more ↦
      rw more
        (omega (arith, round_quot-le_shift f n (d * 10) e k (omega arith) small (omega arith)))
]

module _ (f n d c : ℕ) (p : 0 < d) (short : IsShort c) where
  pub round_quot-ge : c * d ≤ n → c ≤ round_quot f n d
  round_quot-ge h =
      let (e, k, small, same) = short in
      rw same (round_quot-ge_shift f n d e k p small (rw same at h))

  pub round_quot-le : n ≤ c * d → round_quot f n d ≤ c
  round_quot-le h =
      let (e, k, small, same) = short in
      rw same (round_quot-le_shift f n d e k p small (rw same at h))

  -- What 28 digits hold exactly is not changed.
  pub round_quot-exact : n ≡ c * d → round_quot f n d ≡ c
  round_quot-exact h = omega (arith, round_quot-ge (omega arith), round_quot-le (omega arith))

-- A coefficient of up to 28 digits is short.
pub IsShort-small : (k : ℕ) → k ≤ limit → IsShort k
IsShort-small k h = (0, k, h, refl)

round_quot-fits : (f n d : ℕ) → n < d * limit → round_quot f n d ≡ half_even n d
unfolding round_quot
round_quot-fits zero n d h = refl
round_quot-fits (suc f) n d h = rw (lt→ltb _ _ h)

-- Past what fits, a round drops a digit.
round_quot-more :
    (f n d : ℕ) → d * limit ≤ n → round_quot (suc f) n d ≡ round_quot f n (d * 10) * 10
unfolding round_quot
round_quot-more f n d h = ground arith

half_even-below : (g n m d : ℕ) → 0 < d → n < d * limit → n ≤ m → half_even n d ≤ round_quot g m d
half_even-below g n m d p fits h = elim (Bool-cases (ltb m (d * limit))) [
  | inl fits' ↦ rw (round_quot-fits g m d (ltb→lt _ _ fits')) (half_even_mono n m d p h)
  | inr more ↦
      le_trans (half_even-le n d limit p (omega arith))
        (round_quot-ge g m d limit p (IsShort-small limit (le_refl limit)) (ground arith))
]

-- Rounding keeps the order, with enough fuel on both sides.
pub round_quot_mono :
    (f g n m d : ℕ)
    → 0 < d
    → n < d * (f + 1)
    → m < d * (g + 1)
    → n ≤ m
    → round_quot f n d ≤ round_quot g m d
round_quot_mono zero g n m d p hn hm h =
    rw (round_quot-fits zero n d (omega arith)) (half_even-below g n m d p (omega arith) h)
round_quot_mono (suc f) zero n m d p hn hm h =
    rw (round_quot-fits (suc f) n d (omega arith)) (half_even-below zero n m d p (omega arith) h)
round_quot_mono (suc f) (suc g) n m d p hn hm h = elim (Bool-cases (ltb n (d * limit))) [
  | inl fits ↦
      rw (round_quot-fits (suc f) n d (ltb→lt _ _ fits))
        (half_even-below (suc g) n m d p (ltb→lt _ _ fits) h)
  | inr more ↦
      let large : d * limit ≤ n = ground arith in
      let large' : d * limit ≤ m = omega arith in
      rw (round_quot-more f n d large, round_quot-more g m d large')
        (mul-le-mul (round_quot_mono f g n m (d * 10) (omega arith) (omega arith) (omega arith) h)
          (le_refl 10))
]

-- A quotient of one unit or more does not vanish.
pub round_quot-pos : (f n d : ℕ) → 0 < d → d ≤ n → 0 < round_quot f n d
round_quot-pos f n d p h = round_quot-ge f n d 1 p (IsShort-small 1 (omega arith)) (omega arith)

pub round_quot-zero : (f d : ℕ) → 0 < d → round_quot f 0 d ≡ 0
round_quot-zero f d p =
    omega (arith, round_quot-le f 0 d 0 p (IsShort-small 0 (omega arith)) (omega arith))
