-- ===== src/Calls/Keeps.antt =====
-- What a call keeps of the object, whether it returns or raises.
use tio_indodax.Prelude.{Bool, true, false, Option, none, some, if◌then◌else◌}
use tio_indodax.Calls.{Call, return, ◌>>=◌, ◌>>◌, then_, read}

pub record Keeps {S : Type 0} (P : S → Type 0) {A : Type 0} (m : Call S A) : Type 0 where
  pub holds : (b : S) → P b → P (m b).1

module _ {S : Type 0} (P : S → Type 0) where
  pub then-Keeps :
      {A B : Type 0} (r : Option A × S) (f : A → Call S B)
      → P r.1
      → ((a : A) → Keeps P (f a))
      → P (then_ r f).1
  then-Keeps (none, b) f h k = h
  then-Keeps (some a, b) f h k = (k a).holds b h

module _ {S : Type 0} {P : S → Type 0} where
  pub bind-Keeps :
      {A B : Type 0} (m : Call S A) (f : A → Call S B)
      → Keeps P m
      → ((a : A) → Keeps P (f a))
      → Keeps P (m >>= f)
  bind-Keeps m f h k = record { holds = λ b p. then-Keeps P (m b) f (h.holds b p) k }

  pub next-Keeps :
      {A B : Type 0} (m : Call S A) (k : Call S B) → Keeps P m → Keeps P k → Keeps P (m >> k)
  next-Keeps m k h j = bind-Keeps m (λ _. k) h (λ _. j)

  pub return-Keeps : {A : Type 0} (a : A) → Keeps P (return a)
  return-Keeps a = record { holds = λ b p. p }

  pub read-Keeps : Keeps P read
  read-Keeps = record { holds = λ b p. p }

  pub if-Keeps :
      {A : Type 0} (test : Bool) (m k : Call S A)
      → Keeps P m
      → Keeps P k
      → Keeps P (if test then m else k)
  if-Keeps true m k h j = h
  if-Keeps false m k h j = j

pub ruleset keeps = (bind-Keeps, next-Keeps, return-Keeps, read-Keeps, if-Keeps)
