-- ===== src/RateLimiter.antt =====
-- agent/exchange/rate_limiter.py. Times are readings of the clock, in the units of the period; they
-- are whole numbers, whose sums and differences are exact, and floats in the source, where a sleep may
-- end short of the period by a rounding. A call
-- of `acquire` holds the lock from its first reading to the one at which it is granted.
pub mod Window
pub mod Returns
mod Tests
use Prim.Native.Nat.{◌+◌, ◌-◌}
use tio_indodax.Prelude.{
  ℕ, Bool, true, false, ◌||◌, Option, none, some, List, [], ◌∷◌, ◌++◌, ltb, leb, ◌==◌,
  if◌then◌else◌, length,
}

pub record AsyncRateLimiter : Type 0 where
  pub max_calls : ℕ
  pub period_s : ℕ
  pub calls : List ℕ

-- `__init__`; `none` is its ValueError.
unfoldable pub open_limiter : ℕ → ℕ → Option AsyncRateLimiter
open_limiter max_calls period_s =
    if max_calls == 0 || period_s == 0
    then none
    else some (record { max_calls = max_calls; period_s = period_s; calls = [] })

-- The inner `while`: now - calls[0] >= period_s
unfoldable pub prune : ℕ → ℕ → List ℕ → List ℕ
prune period_s now [] = []
prune period_s now (c ∷ cs) =
    let rest = prune period_s now cs in if leb (c + period_s) now then rest else c ∷ cs

-- One round of the outer `while`: granted, or told how long to sleep.
pub data Attempt : Type 0 where
  granted : Attempt
  wait : ℕ → Attempt

abbrev pub oldest : List ℕ → ℕ → ℕ
oldest [] now = now
oldest (c ∷ cs) now = c

unfoldable pub attempt : AsyncRateLimiter → ℕ → Attempt × AsyncRateLimiter
unfolding prune
attempt l now =
    let recent = prune l.period_s now l.calls in
    if ltb (length recent) l.max_calls
    then (granted, record l { calls = recent ++ now ∷ [] })
    else (wait (l.period_s - (now - oldest recent now)), record l { calls = recent })

-- `acquire` over the readings that the clock will give: what is left of them when it returns, or
-- `none` if it is still waiting at the last one.
unfoldable pub acquire : AsyncRateLimiter → List ℕ → Option (AsyncRateLimiter × List ℕ)
acquire l [] = none
acquire l (now ∷ later) =
    let rest = acquire (attempt l now).1 later in
    elim (attempt l now).0 [ granted ↦ some ((attempt l now).1, later) | wait _ ↦ rest ]
