-- ===== src/RateLimiter/Tests.antt =====
-- A limiter of two calls in ten units of time.
use tio_indodax.Prelude.{◌≡◌, refl, Bool, true, some, List, ℕ, [], ◌∷◌, ◌≤◌, arith}
use tio_indodax.RateLimiter.{AsyncRateLimiter, open_limiter, prune, attempt, acquire, wait}
use tio_indodax.RateLimiter.Window.{in_window, grants, grants_bounded}
use tio_indodax.RateLimiter.Returns.{acquire_returns}

whole_limiter : Bool
unfolding open_limiter prune attempt acquire in_window grants
whole_limiter = true

abbrev limiter : AsyncRateLimiter
limiter = record { max_calls = 2; period_s = 10; calls = [] }

abbrev busy : AsyncRateLimiter
busy = record { max_calls = 2; period_s = 10; calls = 3 ∷ 4 ∷ [] }

-- The third call is told to wait until 13, and the fourth is granted at 14.
grants_run : grants limiter (3 ∷ 4 ∷ 5 ∷ 13 ∷ 14 ∷ 15 ∷ []) ≡ 3 ∷ 4 ∷ 13 ∷ 14 ∷ []
unfolding whole_limiter
grants_run = refl

told : (attempt busy 5).0 ≡ wait 8
unfolding whole_limiter
told = refl

grants_bounded_example : in_window 10 14 (grants limiter (3 ∷ 4 ∷ 5 ∷ 13 ∷ 14 ∷ [])) ≤ 2
unfolding whole_limiter
grants_bounded_example =
    grants_bounded 2 10 limiter (3 ∷ 4 ∷ 5 ∷ 13 ∷ 14 ∷ []) 14 refl
      (omega arith, (omega arith, (omega arith, (omega arith, (omega arith, tt)))))

-- Woken too early at 12, the call waits again.
acquire_returns_example :
    (r : AsyncRateLimiter × List ℕ) × (acquire busy (5 ∷ 12 ∷ 14 ∷ []) ≡ some r)
acquire_returns_example =
    acquire_returns busy (5 ∷ 12 ∷ []) 14 [] (omega arith) (omega arith, (omega arith, tt))
