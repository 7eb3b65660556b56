-- ===== src/Watchdog/Told.antt =====
-- agent/ops/watchdog.py: what `decide` sends and remembers of one key.
use tio_indodax.Prelude.{
  ℕ, String, ◌≡◌, refl, sym, ap, ◌∙◌, Bool, true, false, ◌&&◌, ◌||◌, none, some, List, [], ◌∷◌,
  ◌++◌, arith, str_eq, eq_iff, some_of, inl, inr, Bool-cases, if◌then◌else◌,
}
use mathlib.Core.Path.{subst}
use tio_indodax.Dict.{
  Dict, IsDict, lookup, insert, lookup-insert, lookup-insert_self, lookup-insert_ne, insert-IsDict,
}
use tio_indodax.Watchdog.{
  WatchdogSettings, Problem, Message, alert, recovery, current_of, is_due, stamp, alerts,
  recoveries, decide, is_missing,
}

abbrev pub has_problem : String → List Problem → Bool
has_problem k ps = some_of (λ (p : Problem). str_eq p.key k) ps

abbrev pub is_alert : String → Message → Bool
is_alert k (alert j p) = str_eq j k
is_alert k (recovery j) = false

abbrev pub is_about : String → Message → Bool
is_about k (alert j p) = str_eq j k
is_about k (recovery j) = str_eq j k

pub some_of-append :
    (f : Message → Bool) (xs ys : List Message)
    → some_of f (xs ++ ys) ≡ some_of f xs || some_of f ys
some_of-append f [] ys = refl
some_of-append f (x ∷ xs) ys = rw (some_of-append f xs ys) (ground arith)

-- The problems of a round by their keys.
current_of-IsDict : (ps : List Problem) (d : Dict Problem) → IsDict d → IsDict (current_of ps d)
unfolding current_of
current_of-IsDict [] d h = h
current_of-IsDict (p ∷ ps) d h = current_of-IsDict ps (insert p.key p d) (insert-IsDict p.key p d h)

current_of_kept :
    (k : String) (ps : List Problem) (d : Dict Problem) (q : Problem)
    → lookup k d ≡ some q
    → (p : Problem) × (lookup k (current_of ps d) ≡ some p)
unfolding current_of
current_of_kept k [] d q h = (q, h)
current_of_kept k (p ∷ ps) d q h = elim (Bool-cases (str_eq p.key k)) [
  | inl same ↦ current_of_kept k ps (insert p.key p d) p (lookup-insert p.key k p d ∙ rw same refl)
  | inr other ↦ current_of_kept k ps (insert p.key p d) q (lookup-insert p.key k p d ∙ rw other h)
]

current_of_found :
    (k : String) (ps : List Problem) (d : Dict Problem)
    → has_problem k ps ≡ true
    → (p : Problem) × (lookup k (current_of ps d) ≡ some p)
unfolding current_of
current_of_found k [] d h = absurd (ground arith)
current_of_found k (p ∷ ps) d h = elim (Bool-cases (str_eq p.key k)) [
  | inl same ↦ current_of_kept k ps (insert p.key p d) p (lookup-insert p.key k p d ∙ rw same refl)
  | inr other ↦ current_of_found k ps (insert p.key p d) (ground arith)
]

some_of_if :
    (f : Message → Bool) (b : Bool) (m : Message) (xs : List Message)
    → some_of f (if b then m ∷ xs else xs) ≡ (b && f m) || some_of f xs
some_of_if f true m xs = refl
some_of_if f false m xs = refl

-- Messages about one key, of one kind or of both.
module _ (k : String) (f : Message → Bool)
    (of_alert : (j : String) (p : Problem) → f (alert j p) ≡ str_eq j k)
    (of_recovery : (j : String) → str_eq j k ≡ false → f (recovery j) ≡ false)
    (w : WatchdogSettings) (now : ℕ) (state : Dict ℕ) where
  -- A key that is not a problem.
  alerts_other :
      (ps : Dict Problem) (d : Dict ℕ)
      → lookup k ps ≡ none
      → (some_of f (alerts w now state ps d).0 ≡ false)
        × (lookup k (alerts w now state ps d).1 ≡ lookup k d)
  unfolding alerts lookup
  alerts_other [] d h = (refl, refl)
  alerts_other ((j, p) ∷ ps) d h = elim (Bool-cases (str_eq j k)) [
    | inl same ↦ absurd (ground arith)
    | inr other ↦
        let at_j = stamp w now (lookup j state) in
        let (silent, kept) = alerts_other ps (insert j at_j d) (rw other at h) in
        let due = is_due w now (lookup j state) in
        let later = (alerts w now state ps (insert j at_j d)).0 in
        let foreign : f (alert j p) ≡ false = of_alert j p ∙ other in
        (
          some_of_if f due (alert j p) later ∙ ground arith,
          kept ∙ lookup-insert_ne j k at_j d (ground (arith, eq_iff j k)),
        )
  ]

  -- A key that is a problem.
  IsTold : Dict Problem → Dict ℕ → Type 0
  IsTold ps d =
      (some_of f (alerts w now state ps d).0 ≡ is_due w now (lookup k state))
      × (lookup k (alerts w now state ps d).1 ≡ some (stamp w now (lookup k state)))

  alerts_own :
      (ps : Dict Problem) (d : Dict ℕ) (q : Problem)
      → IsDict ps
      → lookup k ps ≡ some q
      → IsTold ps d
  unfolding alerts lookup IsTold
  alerts_own [] d q unique h = absurd (ground arith)
  alerts_own ((j, p) ∷ ps) d q (new, unique) h = elim (Bool-cases (str_eq j k)) [
    | inl same ↦
        let one : j ≡ k = ground (arith, eq_iff j k) in
        let at_j = stamp w now (lookup j state) in
        let (silent, kept) =
          alerts_other ps (insert j at_j d) (subst (λ (i : String). lookup i ps ≡ none) one new) in
        let due = is_due w now (lookup j state) in
        let later = (alerts w now state ps (insert j at_j d)).0 in
        let own : f (alert j p) ≡ true = of_alert j p ∙ same in
        let told : some_of f (if due then alert j p ∷ later else later) ≡ due =
          some_of_if f due (alert j p) later ∙ ground arith in
        (
          told ∙ ap (λ (i : String). is_due w now (lookup i state)) one,
          kept
              ∙ ap (λ (i : String). lookup i (insert j at_j d)) (sym one)
              ∙ lookup-insert_self j at_j d
              ∙ ap (λ (i : String). some (stamp w now (lookup i state))) one,
        )
    | inr other ↦
        let at_j = stamp w now (lookup j state) in
        let (told, kept) = alerts_own ps (insert j at_j d) q unique (rw other at h) in
        let due = is_due w now (lookup j state) in
        let later = (alerts w now state ps (insert j at_j d)).0 in
        let foreign : f (alert j p) ≡ false = of_alert j p ∙ other in
        (some_of_if f due (alert j p) later ∙ ground arith, kept)
  ]

  recoveries_other :
      (current : Dict Problem) (q : Problem) (old : Dict ℕ)
      → lookup k current ≡ some q
      → some_of f (recoveries current old) ≡ false
  unfolding recoveries
  recoveries_other current q [] h = refl
  recoveries_other current q ((j, t) ∷ old) h = elim (Bool-cases (str_eq j k)) [
    | inl same ↦
        let one : j ≡ k = ground (arith, eq_iff j k) in
        let there : lookup j current ≡ some q = ap (λ (i : String). lookup i current) one ∙ h in
        let here : is_missing (lookup j current) ≡ false = rw there refl in
        some_of_if f (is_missing (lookup j current)) (recovery j) (recoveries current old)
        ∙ rw (here, recoveries_other current q old h) refl
    | inr other ↦
        some_of_if f (is_missing (lookup j current)) (recovery j) (recoveries current old)
        ∙ rw (of_recovery j other, recoveries_other current q old h) (ground arith)
  ]

  pub decide_own :
      (ps : List Problem)
      → has_problem k ps ≡ true
      → (some_of f (decide ps state now w).0 ≡ is_due w now (lookup k state))
        × (lookup k (decide ps state now w).1 ≡ some (stamp w now (lookup k state)))
  unfolding decide IsTold
  decide_own ps h =
      let (q, there) = current_of_found k ps [] h in
      let (told, kept) = alerts_own (current_of ps []) [] q (current_of-IsDict ps [] tt) there in
      (
        some_of-append f (alerts w now state (current_of ps []) []).0
              (recoveries (current_of ps []) state)
            ∙ rw (told, recoveries_other (current_of ps []) q state there) (ground arith),
        kept,
      )
