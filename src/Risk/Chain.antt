-- ===== src/Risk/Chain.antt =====
-- Early returns: what a chain of checks that went through says of each check, and what a chain that
-- stopped returns.
use tio_indodax.Prelude.{◌≡◌, refl, Bool, true, false, Option, none, some, pos}
use tio_indodax.Risk.Types.{
  RiskDecision, veto, approved, Step, next, stop, raised, return_if, or_raise, ◌>>=◌,
}

module _ {A B : Type 0} where
  pub >>=-eq-next :
      (m : Step A) (f : A → Step B) {b : B}
      → (m >>= f) ≡ next b
      → (a : A) × (m ≡ next a) × (f a ≡ next b)
  >>=-eq-next (next a) f h = (a, refl, h)
  >>=-eq-next (stop d) f h = cc
  >>=-eq-next raised f h = cc

-- A veto: no quantity, at the price of its proposal.
pub record IsVeto (d : RiskDecision) : Type 0 where
  pub vetoes : d.verdict ≡ veto
  pub nothing : d.qty ≡ pos 0
  pub unpriced : d.price ≡ d.proposal.price

abbrev pub StopsBy : {A : Type 0} → (RiskDecision → Type 0) → Step A → Type 0
StopsBy P (next a) = Unit
StopsBy P (stop d) = P d
StopsBy P raised = Unit

module _ {A B : Type 0} (P : RiskDecision → Type 0) where
  pub StopsBy-bind :
      (m : Step A) (f : A → Step B)
      → StopsBy P m
      → ((a : A) → StopsBy P (f a))
      → StopsBy P (m >>= f)
  StopsBy-bind (next a) f h k = k a
  StopsBy-bind (stop d) f h k = h
  StopsBy-bind raised f h k = tt

module _ (P : RiskDecision → Type 0) where
  pub StopsBy-return_if : (test : Bool) (d : RiskDecision) → P d → StopsBy P (return_if test d)
  StopsBy-return_if true d h = h
  StopsBy-return_if false d h = tt

  pub StopsBy-or_raise : {A : Type 0} (o : Option A) → StopsBy P (or_raise o)
  StopsBy-or_raise none = tt
  StopsBy-or_raise (some a) = tt

-- A decision that lets the order through.
abbrev pub IsApproval : RiskDecision → Type 0
IsApproval d = approved d ≡ true

abbrev pub PassesBy : (RiskDecision → Type 0) → Step RiskDecision → Type 0
PassesBy P (next d) = P d
PassesBy P (stop d) = Unit
PassesBy P raised = Unit

module _ {A : Type 0} (P : RiskDecision → Type 0) where
  pub PassesBy-bind :
      (m : Step A) (f : A → Step RiskDecision) → ((a : A) → PassesBy P (f a)) → PassesBy P (m >>= f)
  PassesBy-bind (next a) f k = k a
  PassesBy-bind (stop d) f k = tt
  PassesBy-bind raised f k = tt
