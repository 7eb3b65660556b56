-- ===== src/RateLimiter/Returns.antt =====
-- agent/exchange/rate_limiter.py: when `acquire` returns.
use Prim.Native.Nat.{◌+◌}
use tio_indodax.Prelude.{
  ℕ, ◌≤◌, ◌<◌, ◌≡◌, refl, ap, ◌∙◌, true, some, List, [], ◌∷◌, ◌++◌, ltb, leb, length, All, arith,
  inl, inr, Bool-cases,
}
use tio_indodax.RateLimiter.{AsyncRateLimiter, prune, Attempt, granted, wait, attempt, acquire}
use tio_indodax.RateLimiter.Window.{with_calls, attempt_room, attempt_full}

acquire_by :
    (l : AsyncRateLimiter) (now : ℕ) (later : List ℕ) (r : Attempt × AsyncRateLimiter)
    → attempt l now ≡ r
    → acquire l (now ∷ later)
      ≡ (elim r.0 [ granted ↦ some (r.1, later) | wait _ ↦ acquire r.1 later ])
unfolding acquire
acquire_by l now later r e =
    ap
      (λ (x : Attempt × AsyncRateLimiter). elim x.0 [
        | granted ↦ some (x.1, later)
        | wait _ ↦ acquire x.1 later
      ])
      e

-- The call is a period old at the reading.
abbrev pub IsPast : ℕ → ℕ → ℕ → Type 0
IsPast period_s now c = c + period_s ≤ now

prune-All : (P : ℕ → Type 0) (p now : ℕ) (ts : List ℕ) → All P ts → All P (prune p now ts)
unfolding prune
prune-All P p now [] h = tt
prune-All P p now (t ∷ ts) (h, hs) = elim (Bool-cases (leb (t + p) now)) [
  | inl old ↦ rw old (prune-All P p now ts hs)
  | inr recent ↦ rw recent (h, hs)
]

prune_past : (p now : ℕ) (ts : List ℕ) → All (IsPast p now) ts → prune p now ts ≡ []
unfolding prune
prune_past p now [] h = refl
prune_past p now (t ∷ ts) (h, hs) =
    let old : leb (t + p) now ≡ true = ground arith in rw old (prune_past p now ts hs)

-- `acquire` does not wait on: whatever the readings of the clock before, it has returned by the first
-- one at which every call that the limiter held at the start is a period old, for a limiter that allows
-- some calls. (Whether the sleep that it asks for leads to such a reading is a matter of the clock.)
pub acquire_returns :
    (l : AsyncRateLimiter) (earlier : List ℕ) (now : ℕ) (later : List ℕ)
    → 0 < l.max_calls
    → All (IsPast l.period_s now) l.calls
    → (r : AsyncRateLimiter × List ℕ) × (acquire l (earlier ++ now ∷ later) ≡ some r)
acquire_returns l [] now later allowed past =
    let empty = prune_past l.period_s now l.calls past in
    let room : ltb (length (prune l.period_s now l.calls)) l.max_calls ≡ true =
      rw empty (ground arith) in
    (_, acquire_by l now later _ (attempt_room l now room))
acquire_returns l (first ∷ earlier) now later allowed past =
    elim (Bool-cases (ltb (length (prune l.period_s first l.calls)) l.max_calls)) [
      | inl room ↦ (_, acquire_by l first (earlier ++ now ∷ later) _ (attempt_room l first room))
      | inr full ↦
          let kept = prune-All (IsPast l.period_s now) l.period_s first l.calls past in
          let (r, done) =
            acquire_returns (with_calls l (prune l.period_s first l.calls)) earlier now later
              allowed kept in
          (r, acquire_by l first (earlier ++ now ∷ later) _ (attempt_full l first full) ∙ done)
    ]
