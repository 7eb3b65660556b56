-- ===== src/Dict.antt =====
-- A Python `dict` with text keys, in insertion order, as an association list.
use mathlib.Core.Path.{subst}
use tio_indodax.Prelude.{
  String, ◌≡◌, ◌≢◌, refl, ap, Bool, true, false, Option, none, some, List, [], ◌∷◌, arith, str_eq,
  eq_iff, if◌then◌else◌, inl, inr, Bool-cases,
}

abbrev pub Dict {ℓ} : Type ℓ → Type ℓ
Dict V = List (String × V)

module _ {ℓ} {V : Type ℓ} where
  -- d.get(k)
  unfoldable pub lookup : String → Dict V → Option V
  lookup k [] = none
  lookup k ((j, v) ∷ d) = if str_eq j k then some v else lookup k d

  -- d.get(k, default)
  unfoldable pub get_or : Dict V → String → V → V
  unfolding lookup
  get_or d k v = elim (lookup k d) [ none ↦ v | some w ↦ w ]

  -- k in d
  unfoldable pub contains : String → Dict V → Bool
  unfolding lookup
  contains k d = elim (lookup k d) [ none ↦ false | some _ ↦ true ]

  -- d[k] = v
  unfoldable pub insert : String → V → Dict V → Dict V
  insert k v [] = (k, v) ∷ []
  insert k v ((j, w) ∷ d) = if str_eq j k then (j, v) ∷ d else (j, w) ∷ insert k v d

  -- del d[k]
  unfoldable pub erase : String → Dict V → Dict V
  erase k [] = []
  erase k ((j, w) ∷ d) = if str_eq j k then d else (j, w) ∷ erase k d

  -- d.keys(), d.values()
  unfoldable pub keys : Dict V → List String
  keys [] = []
  keys ((j, w) ∷ d) = j ∷ keys d

  unfoldable pub values : Dict V → List V
  values [] = []
  values ((j, w) ∷ d) = w ∷ values d

  -- No key stands twice.
  abbrev pub IsDict : Dict V → Type ℓ
  IsDict [] = Unit
  IsDict ((j, w) ∷ d) = (lookup j d ≡ none) × IsDict d

  abbrev pub AllValues {κ} : (V → Type κ) → Dict V → Type κ
  AllValues P [] = Unit
  AllValues P ((j, w) ∷ d) = P w × AllValues P d

module _ {ℓ} {V : Type ℓ} where
  pub lookup-insert :
      (k j : String) (v : V) (d : Dict V)
      → lookup j (insert k v d) ≡ (if str_eq k j then some v else lookup j d)
  unfolding lookup insert
  lookup-insert k j v [] = refl
  lookup-insert k j v ((i, w) ∷ d) =
      ground (arith, eq_iff k j, eq_iff i k, eq_iff i j, lookup-insert k j v d)

  pub lookup-insert_self : (k : String) (v : V) (d : Dict V) → lookup k (insert k v d) ≡ some v
  lookup-insert_self k v d = rw lookup-insert (ground (arith, eq_iff k k))

  pub get_or-insert : (k : String) (v w : V) (d : Dict V) → get_or (insert k v d) k w ≡ v
  unfolding get_or
  get_or-insert k v w d =
      ap (λ (o : Option V). elim o [ none ↦ w | some x ↦ x ]) (lookup-insert_self k v d)

  pub lookup-insert_ne :
      (k j : String) (v : V) (d : Dict V) → k ≢ j → lookup j (insert k v d) ≡ lookup j d
  lookup-insert_ne k j v d h = rw lookup-insert (ground (arith, eq_iff k j))

  pub lookup-erase_ne : (k j : String) (d : Dict V) → k ≢ j → lookup j (erase k d) ≡ lookup j d
  unfolding lookup erase
  lookup-erase_ne k j [] h = refl
  lookup-erase_ne k j ((i, w) ∷ d) h =
      ground (arith, eq_iff k j, eq_iff i k, eq_iff i j, lookup-erase_ne k j d h)

  pub lookup-erase_self : (k : String) (d : Dict V) → IsDict d → lookup k (erase k d) ≡ none
  unfolding lookup erase
  lookup-erase_self k [] h = refl
  lookup-erase_self k ((i, w) ∷ d) h = ground (arith, eq_iff i k, lookup-erase_self k d h.1)

  pub insert-IsDict : (k : String) (v : V) (d : Dict V) → IsDict d → IsDict (insert k v d)
  unfolding insert lookup
  insert-IsDict k v [] h = (refl, tt)
  insert-IsDict k v ((i, w) ∷ d) h = elim (Bool-cases (str_eq i k)) [
    | inl same ↦ rw same h
    | inr other ↦
        rw other
          (rw (lookup-insert_ne k i v d (ground (arith, eq_iff i k))) h.0, insert-IsDict k v d h.1)
  ]

  pub erase-IsDict : (k : String) (d : Dict V) → IsDict d → IsDict (erase k d)
  unfolding erase
  erase-IsDict k [] h = tt
  erase-IsDict k ((i, w) ∷ d) h = elim (Bool-cases (str_eq i k)) [
    | inl same ↦ rw same h.1
    | inr other ↦
        rw other (rw (lookup-erase_ne k i d (ground (arith, eq_iff i k))) h.0, erase-IsDict k d h.1)
  ]

module _ {ℓ κ} {V : Type ℓ} (P : V → Type κ) where
  pub lookup-AllValues :
      (k : String) (d : Dict V) {v : V} → AllValues P d → lookup k d ≡ some v → P v
  unfolding lookup
  lookup-AllValues k [] h e = cc
  lookup-AllValues k ((i, w) ∷ d) {v} h e = elim (Bool-cases (str_eq i k)) [
    | inl same ↦ let found : w ≡ v = ground arith in subst P found h.0
    | inr other ↦ lookup-AllValues k d h.1 (rw other at e)
  ]

  pub insert-AllValues :
      (k : String) (v : V) (d : Dict V) → AllValues P d → P v → AllValues P (insert k v d)
  unfolding insert
  insert-AllValues k v [] h p = (p, tt)
  insert-AllValues k v ((i, w) ∷ d) h p = elim (Bool-cases (str_eq i k)) [
    | inl same ↦ rw same (p, h.1)
    | inr other ↦ rw other (h.0, insert-AllValues k v d h.1 p)
  ]

  pub erase-AllValues : (k : String) (d : Dict V) → AllValues P d → AllValues P (erase k d)
  unfolding erase
  erase-AllValues k [] h = tt
  erase-AllValues k ((i, w) ∷ d) h = elim (Bool-cases (str_eq i k)) [
    | inl same ↦ rw same h.1
    | inr other ↦ rw other (h.0, erase-AllValues k d h.1)
  ]
