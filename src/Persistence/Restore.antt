-- ===== src/Persistence/Restore.antt =====
-- Putting the saved stops back on replayed positions.
use tio_indodax.Prelude.{
  String, ◌≡◌, ◌≢◌, refl, true, false, Option, none, some, [], ◌∷◌, arith, str_eq, eq_iff, inl, inr,
  Bool-cases, Option-cases,
}
use tio_indodax.Decimal.{Decimal}
use tio_indodax.Dict.{Dict, lookup, contains, IsDict, lookup-insert}
use tio_indodax.Portfolio.{Position, Portfolio, raise_stop, moved}
use tio_indodax.Persistence.{stops, restore}

abbrev pub stop_of : Option Position → Option Decimal
stop_of none = none
stop_of (some p) = p.stop_loss

pub lookup-stops :
    (k : String) (d : Dict Position) → IsDict d → lookup k (stops d) ≡ stop_of (lookup k d)
unfolding lookup stops
lookup-stops k [] h = refl
lookup-stops k ((j, p) ∷ d) h = elim (Bool-cases (str_eq j k)) [
  | inl same ↦
      let gone : lookup k d ≡ none = rw (← (eq_iff j k).0 same) h.0 in
      elim (Option-cases p.stop_loss) [
        | inl e ↦ rw (same, e, lookup-stops k d h.1, gone) refl
        | inr (s, e) ↦ rw (same, e, lookup, same) refl
      ]
  | inr different ↦ elim (Option-cases p.stop_loss) [
    | inl e ↦ rw (different, e) (lookup-stops k d h.1)
    | inr (s, e) ↦ rw (different, e, lookup, different) (lookup-stops k d h.1)
  ]
]

pub stops-IsDict : (d : Dict Position) → IsDict d → IsDict (stops d)
unfolding stops
stops-IsDict [] h = tt
stops-IsDict ((j, p) ∷ d) h = elim (Option-cases p.stop_loss) [
  | inl e ↦ rw e (stops-IsDict d h.1)
  | inr (s, e) ↦ rw e (rw (lookup-stops j d h.1, h.0) refl, stops-IsDict d h.1)
]

-- A saved stop, put on a position.
abbrev pub set_stop : Option Decimal → Option Position → Option Position
set_stop none o = o
set_stop (some s) none = none
set_stop (some s) (some p) = some (record p { stop_loss = some s })

-- The pairs with a saved stop are held without one.
abbrev pub Unset : Dict Decimal → Portfolio → Type 0
Unset saved q =
    (k : String) (p : Position)
    → lookup k q.positions ≡ some p
    → lookup k saved ≢ none
    → p.stop_loss ≡ none

pub record IsRestored (saved : Dict Decimal) (q q' : Portfolio) : Type 0 where
  pub cash : q'.cash_idr ≡ q.cash_idr
  pub gains : q'.realized_pnl ≡ q.realized_pnl
  pub held : (k : String) → lookup k q'.positions ≡ set_stop (lookup k saved) (lookup k q.positions)

held_missing :
    (k j : String) (s : Decimal) (rest : Dict Decimal) (q q' : Portfolio)
    → lookup k q.positions ≡ none
    → lookup j q'.positions ≡ set_stop (lookup j rest) (lookup j q.positions)
    → lookup j q'.positions ≡ set_stop (lookup j ((k, s) ∷ rest)) (lookup j q.positions)
unfolding lookup
held_missing k j s rest q q' missing h = elim (Bool-cases (str_eq k j)) [
  | inl same ↦
      let gone : lookup j q.positions ≡ none = rw (← (eq_iff k j).0 same) missing in
      rw same (ground arith)
  | inr different ↦ rw different h
]

held_there :
    (k j : String) (s : Decimal) (rest : Dict Decimal) (q q' : Portfolio) (p : Position)
    → lookup k q.positions ≡ some p
    → lookup k rest ≡ none
    → lookup j q'.positions ≡ set_stop (lookup j rest) (lookup j (moved q k s p).positions)
    → lookup j q'.positions ≡ set_stop (lookup j ((k, s) ∷ rest)) (lookup j q.positions)
unfolding lookup
held_there k j s rest q q' p there once h = elim (Bool-cases (str_eq k j)) [
  | inl same ↦
      let here : k ≡ j = (eq_iff k j).0 same in
      let held : lookup j q.positions ≡ some p = rw (← here) there in
      let out : lookup j rest ≡ none = rw (← here) once in
      rw (same, held) (rw (lookup-insert, same, out) at h)
  | inr different ↦ rw different (rw (lookup-insert, different) at h)
]

found_self : (k : String) (s : Decimal) (rest : Dict Decimal) → lookup k ((k, s) ∷ rest) ≢ none
unfolding lookup
found_self k s rest e = ground (arith, (eq_iff k k).1 refl)

found_later :
    (k j : String) (s : Decimal) (rest : Dict Decimal)
    → lookup j ((k, s) ∷ rest) ≡ none
    → lookup j rest ≡ none
unfolding lookup
found_later k j s rest e = ground arith

Unset-rest :
    (k : String) (s : Decimal) (rest : Dict Decimal) (q : Portfolio)
    → Unset ((k, s) ∷ rest) q
    → Unset rest q
Unset-rest k s rest q u j p e ne = u j p e (λ gone. ne (found_later k j s rest gone))

Unset-moved :
    (k : String) (s : Decimal) (rest : Dict Decimal) (q : Portfolio) (p : Position)
    → lookup k rest ≡ none
    → Unset ((k, s) ∷ rest) q
    → Unset rest (moved q k s p)
Unset-moved k s rest q p once u j x e ne = elim (Bool-cases (str_eq k j)) [
  | inl same ↦ absurd (ne (rw (← (eq_iff k j).0 same) once))
  | inr different ↦
      u j x (rw (lookup-insert, different) at e) (λ gone. ne (found_later k j s rest gone))
]

contains_missing : (k : String) (d : Dict Position) → lookup k d ≡ none → contains k d ≡ false
unfolding contains
contains_missing k d e = rw (e, contains) refl

contains_there :
    (k : String) (d : Dict Position) (p : Position) → lookup k d ≡ some p → contains k d ≡ true
unfolding contains
contains_there k d p e = rw (e, contains) refl

raise_unset :
    (q : Portfolio) (k : String) (s : Decimal) (p : Position)
    → lookup k q.positions ≡ some p
    → p.stop_loss ≡ none
    → raise_stop q k s ≡ some (true, moved q k s p)
unfolding raise_stop
raise_unset q k s p e clear = rw (e, clear) refl

pub restore-IsRestored :
    (saved : Dict Decimal) (q : Portfolio)
    → IsDict saved
    → Unset saved q
    → (q' : Portfolio) × (restore q saved ≡ some q') × IsRestored saved q q'
unfolding restore lookup
restore-IsRestored [] q h u = (q, refl, record { cash = refl; gains = refl; held = λ k. refl })
restore-IsRestored ((k, s) ∷ rest) q h u = elim (Option-cases (lookup k q.positions)) [
  | inl missing ↦
      let (q', done, r) = restore-IsRestored rest q h.1 (Unset-rest k s rest q u) in
      (
        q',
        rw (contains_missing k q.positions missing) done,
        record {
          cash = r.cash;
          gains = r.gains;
          held = λ j. held_missing k j s rest q q' missing (r.held j);
        },
      )
  | inr (p, there) ↦
      let (q', done, r) =
        restore-IsRestored rest (moved q k s p) h.1 (Unset-moved k s rest q p h.0 u) in
      let clear : p.stop_loss ≡ none = u k p there (found_self k s rest) in
      (
        q',
        rw (contains_there k q.positions p there, raise_unset q k s p there clear) done,
        record {
          cash = r.cash;
          gains = r.gains;
          held = λ j. held_there k j s rest q q' p there h.0 (r.held j);
        },
      )
]
