-- ===== src/Calls.antt =====
-- Calls on an object: a call returns a value or raises, and leaves the object as it then stands.
pub mod Keeps
pub mod Yields
use tio_indodax.Prelude.{Option, none, some}

abbrev pub Call : Type 0 → Type 0 → Type 0
Call S A = S → Option A × S

module _ {S : Type 0} where
  abbrev pub return : {A : Type 0} → A → Call S A
  return a s = (some a, s)

  -- An exception.
  abbrev pub fail : {A : Type 0} → Call S A
  fail s = (none, s)

  abbrev pub then_ : {A B : Type 0} → Option A × S → (A → Call S B) → Option B × S
  then_ (none, s) f = (none, s)
  then_ (some a, s) f = f a s

  infixl 5 ◌>>=◌ ◌>>◌
  abbrev pub ◌>>=◌ : {A B : Type 0} → Call S A → (A → Call S B) → Call S B
  (m >>= f) s = then_ (m s) f

  abbrev pub ◌>>◌ : {A B : Type 0} → Call S A → Call S B → Call S B
  m >> k = m >>= λ _. k

  abbrev pub read : Call S S
  read s = (some s, s)

  abbrev pub modify : (S → S) → Call S (Unit {0})
  modify f s = (some tt, f s)
