-- ===== src/Calls/Yields.antt =====
-- What a call makes of the object where it returns.
use tio_indodax.Prelude.{◌≡◌, refl, Bool, true, false, Option, none, some, if◌then◌else◌, arith}
use tio_indodax.Calls.{Call, return, ◌>>=◌, ◌>>◌, then_, read}

pub record Yields {S : Type 0} (P : S → Type 0) {A : Type 0} (m : Call S A) : Type 0 where
  pub holds : (b : S) (a : A) → P b → (m b).0 ≡ some a → P (m b).1

module _ {S : Type 0} (P : S → Type 0) where
  then-Yields :
      {A B : Type 0} (r : Option A × S) (f : A → Call S B) (x : B)
      → ((a : A) → r.0 ≡ some a → P r.1)
      → ((a : A) → Yields P (f a))
      → (then_ r f).0 ≡ some x
      → P (then_ r f).1
  then-Yields (none, b) f x h k e = absurd (ground arith)
  then-Yields (some a, b) f x h k e = (k a).holds b x (h a refl) e

module _ {S : Type 0} {P : S → Type 0} where
  pub bind-Yields :
      {A B : Type 0} (m : Call S A) (f : A → Call S B)
      → Yields P m
      → ((a : A) → Yields P (f a))
      → Yields P (m >>= f)
  bind-Yields m f h k = record {
    holds = λ b x p e. then-Yields P (m b) f x (λ a e'. h.holds b a p e') k e;
  }

  pub next-Yields :
      {A B : Type 0} (m : Call S A) (k : Call S B) → Yields P m → Yields P k → Yields P (m >> k)
  next-Yields m k h j = bind-Yields m (λ _. k) h (λ _. j)

  pub return-Yields : {A : Type 0} (a : A) → Yields P (return a)
  return-Yields a = record { holds = λ b x p e. p }

  pub read-Yields : Yields P read
  read-Yields = record { holds = λ b x p e. p }

  pub if-Yields :
      {A : Type 0} (test : Bool) (m k : Call S A)
      → Yields P m
      → Yields P k
      → Yields P (if test then m else k)
  if-Yields true m k h j = h
  if-Yields false m k h j = j

pub ruleset yields = (bind-Yields, next-Yields, return-Yields, read-Yields, if-Yields)
