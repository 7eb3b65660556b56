-- ===== src/RateLimiter/Window.antt =====
-- agent/exchange/rate_limiter.py: the bound that the limiter keeps.
use Prim.Native.Nat.{◌+◌, ◌-◌}
use tio_indodax.Prelude.{
  ℕ, ◌≤◌, ◌≡◌, refl, ap, true, false, some, List, [], ◌∷◌, ◌++◌, ltb, if◌then◌else◌, length,
  length-append, All, arith, inl, inr, Bool-cases,
}
use mathlib.Core.Path.{subst}
use tio_indodax.RateLimiter.{
  AsyncRateLimiter, open_limiter, prune, Attempt, granted, wait, attempt, oldest,
}

-- How many of the times lie less than a period before `now`.
unfoldable pub in_window : ℕ → ℕ → List ℕ → ℕ
in_window period_s now [] = 0
in_window period_s now (t ∷ ts) =
    (if ltb now (t + period_s) then 1 else 0) + in_window period_s now ts

-- The grants of a run of attempts at the given readings, the earlier first.
unfoldable pub grants : AsyncRateLimiter → List ℕ → List ℕ
grants l [] = []
grants l (now ∷ later) =
    let rest = grants (attempt l now).1 later in
    elim (attempt l now).0 [ granted ↦ now ∷ rest | wait _ ↦ rest ]

in_window-append :
    (p now : ℕ) (xs ys : List ℕ)
    → in_window p now (xs ++ ys) ≡ in_window p now xs + in_window p now ys
unfolding in_window
in_window-append p now [] ys = omega arith
in_window-append p now (x ∷ xs) ys = ground (arith, in_window-append p now xs ys)

in_window_le : (p now : ℕ) (ts : List ℕ) → in_window p now ts ≤ length ts
unfolding in_window
in_window_le p now [] = omega arith
in_window_le p now (t ∷ ts) = ground (arith, in_window_le p now ts)

-- What `prune` drops has left the window for good.
in_window-prune :
    (p now later : ℕ) (ts : List ℕ)
    → now ≤ later
    → in_window p later ts ≡ in_window p later (prune p now ts)
unfolding in_window prune
in_window-prune p now later [] h = refl
in_window-prune p now later (t ∷ ts) h = ground (arith, in_window-prune p now later ts h)

length-prune : (p now : ℕ) (ts : List ℕ) → length (prune p now ts) ≤ length ts
unfolding prune
length-prune p now [] = omega arith
length-prune p now (t ∷ ts) = ground (arith, length-prune p now ts)

-- The limiter holds no more calls than it allows.
abbrev pub Fits : AsyncRateLimiter → Type 0
Fits l = length l.calls ≤ l.max_calls

abbrev pub with_calls : AsyncRateLimiter → List ℕ → AsyncRateLimiter
with_calls l cs = record l { calls = cs }

-- The calls after an attempt that is granted.
abbrev pub extended : AsyncRateLimiter → ℕ → List ℕ
extended l now = prune l.period_s now l.calls ++ now ∷ []

pub attempt_room :
    (l : AsyncRateLimiter) (now : ℕ)
    → ltb (length (prune l.period_s now l.calls)) l.max_calls ≡ true
    → attempt l now ≡ (granted, with_calls l (extended l now))
unfolding attempt
attempt_room l now room = rw room refl

pub attempt_full :
    (l : AsyncRateLimiter) (now : ℕ)
    → ltb (length (prune l.period_s now l.calls)) l.max_calls ≡ false
    → attempt l now ≡ (
      wait (l.period_s - (now - oldest (prune l.period_s now l.calls) now)),
      with_calls l (prune l.period_s now l.calls),
    )
unfolding attempt
attempt_full l now full = rw full refl

grants_by :
    (l : AsyncRateLimiter) (now : ℕ) (later : List ℕ) (r : Attempt × AsyncRateLimiter)
    → attempt l now ≡ r
    → grants l (now ∷ later)
      ≡ (elim r.0 [ granted ↦ now ∷ grants r.1 later | wait _ ↦ grants r.1 later ])
unfolding grants
grants_by l now later r e =
    ap
      (λ (x : Attempt × AsyncRateLimiter). elim x.0 [
        | granted ↦ now ∷ grants x.1 later
        | wait _ ↦ grants x.1 later
      ])
      e

module _ (w : ℕ) where
  abbrev Within : AsyncRateLimiter → List ℕ → Type 0
  Within l ts = in_window l.period_s w l.calls + in_window l.period_s w ts ≤ l.max_calls

  Within-room :
      (l : AsyncRateLimiter) (now : ℕ) (ts : List ℕ)
      → now ≤ w
      → Within (with_calls l (extended l now)) ts
      → Within l (now ∷ ts)
  unfolding in_window
  Within-room l now ts h k = ground (
    arith,
    in_window-prune l.period_s now w l.calls h,
    in_window-append l.period_s w (prune l.period_s now l.calls) (now ∷ []),
  )

  Within-full :
      (l : AsyncRateLimiter) (now : ℕ) (ts : List ℕ)
      → now ≤ w
      → Within (with_calls l (prune l.period_s now l.calls)) ts
      → Within l ts
  Within-full l now ts h k = rw (in_window-prune l.period_s now w l.calls h) k

  grants-Within :
      (ts : List ℕ) (l : AsyncRateLimiter) → All (λ t. t ≤ w) ts → Fits l → Within l (grants l ts)
  unfolding grants in_window
  grants-Within [] l h fits = omega (arith, in_window_le l.period_s w l.calls)
  grants-Within (now ∷ later) l h fits =
      let recent = prune l.period_s now l.calls in
      let shorter = length-prune l.period_s now l.calls in
      elim (Bool-cases (ltb (length recent) l.max_calls)) [
        | inl room ↦ rw (grants_by l now later _ (attempt_room l now room)) (
            Within-room l now _ h.0 (
              grants-Within later (with_calls l (extended l now)) h.1
                (ground (arith, length-append recent (now ∷ [])))))
        | inr full ↦
            rw (grants_by l now later _ (attempt_full l now full)) (
              Within-full l now _ h.0 (grants-Within later (with_calls l recent) h.1 (omega arith)))
      ]

opened_limiter :
    (max_calls period_s : ℕ) (l : AsyncRateLimiter)
    → open_limiter max_calls period_s ≡ some l
    → (l.calls ≡ []) × (l.max_calls ≡ max_calls) × (l.period_s ≡ period_s)
unfolding open_limiter
opened_limiter m p l e = (ground arith, ground arith, ground arith)

-- However often callers try, and at whatever readings of the clock, at most `max_calls` of the calls
-- that were granted lie within one period before any moment that no reading is past.
pub grants_bounded :
    (max_calls period_s : ℕ) (l : AsyncRateLimiter) (ts : List ℕ) (now : ℕ)
    → open_limiter max_calls period_s ≡ some l
    → All (λ t. t ≤ now) ts
    → in_window period_s now (grants l ts) ≤ max_calls
unfolding in_window
grants_bounded m p l ts now e h =
    let (empty, limit, period) = opened_limiter m p l e in
    let fits : Fits l = ground arith in
    let bound = grants-Within now ts l h fits in
    let weaker : in_window l.period_s now (grants l ts) ≤ l.max_calls = omega (arith, bound) in
    subst (λ q. in_window q now (grants l ts) ≤ m) period
      (subst (λ k. in_window l.period_s now (grants l ts) ≤ k) limit weaker)
