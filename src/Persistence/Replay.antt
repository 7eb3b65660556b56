-- ===== src/Persistence/Replay.antt =====
-- Replaying the recorded fills: the replica that it makes of a ledger.
use tio_indodax.Prelude.{
  String, ◌≡◌, refl, ap, ◌∙◌, Bool, true, false, ◌&&◌, Option, none, some, List, [], ◌∷◌, ◌++◌,
  arith, if◌then◌else◌, pos, ltb_ℤ, eqb_ℤ, str_eq, inl, inr, Bool-cases, Option-cases, if_cases,
  ◌≤◌, All,
}
use tio_indodax.Decimal.{Decimal, ◌⊕◌, ◌⊖◌, ◌⊗◌}
use tio_indodax.Dict.{Dict, lookup, insert, erase}
use tio_indodax.Exchange.Models.{Side, buy, sell, other}
use tio_indodax.Storage.{FillRow, by_time, place, rows_where}
use tio_indodax.Portfolio.{
  Position, Portfolio, Fill, Outcome, ok, raised, bought, apply_buy, sold, apply_sell, by_side,
  charge, is_bad, apply_fill,
}
use tio_indodax.Persistence.{fill_of_row, after, replay}

-- What no row keeps of a position: its stop, its take-profit and the reason.
abbrev pub bare : Position → Position
bare p = record p { stop_loss = none; take_profit = none; reason = "" }

abbrev pub bare_fill : Fill → Fill
bare_fill f = record f { stop_loss = none; take_profit = none; reason = "" }

abbrev pub bare_all : Dict Position → Dict Position
bare_all [] = []
bare_all ((k, p) ∷ d) = (k, bare p) ∷ bare_all d

abbrev bare_some : Option Position → Option Position
bare_some none = none
bare_some (some p) = some (bare p)

pub lookup-bare : (k : String) (d : Dict Position) → lookup k (bare_all d) ≡ bare_some (lookup k d)
unfolding lookup
lookup-bare k [] = refl
lookup-bare k ((j, p) ∷ d) = elim (Bool-cases (str_eq j k)) [
  | inl same ↦ rw same refl
  | inr different ↦ rw different (lookup-bare k d)
]

insert-bare :
    (k : String) (p : Position) (d : Dict Position)
    → insert k (bare p) (bare_all d) ≡ bare_all (insert k p d)
unfolding insert
insert-bare k p [] = refl
insert-bare k p ((j, q) ∷ d) = elim (Bool-cases (str_eq j k)) [
  | inl same ↦ rw same refl
  | inr different ↦ rw different (ap (λ r. (j, bare q) ∷ r) (insert-bare k p d))
]

erase-bare : (k : String) (d : Dict Position) → erase k (bare_all d) ≡ bare_all (erase k d)
unfolding erase
erase-bare k [] = refl
erase-bare k ((j, q) ∷ d) = elim (Bool-cases (str_eq j k)) [
  | inl same ↦ rw same refl
  | inr different ↦ rw different (ap (λ r. (j, bare q) ∷ r) (erase-bare k d))
]

bought-bare :
    (f : Fill) (cost : Decimal) (o : Option Position)
    → bought (bare_fill f) cost (bare_some o) ≡ bare (bought f cost o)
unfolding bought
bought-bare f cost none = refl
bought-bare f cost (some p) = refl

-- The ledger that replaying the rows has made of another, whose `fees_paid` may have run ahead.
pub record IsReplica (pf q : Portfolio) : Type 0 where
  pub cash : q.cash_idr ≡ pf.cash_idr
  pub gains : q.realized_pnl ≡ pf.realized_pnl
  pub held : q.positions ≡ bare_all pf.positions

-- A fill that succeeds on the ledger succeeds on the replica, and leaves a replica.
abbrev pub Replays : Outcome → Outcome → Type 0
Replays (ok r, pf) o = (q : Portfolio) × (after o ≡ some q) × IsReplica pf q
Replays (raised e, pf) o = Unit

and_false : (b : Bool) → (b && false) ≡ false
and_false true = refl
and_false false = refl

buy-Replays :
    (pf q : Portfolio) (f : Fill) (strict : Bool)
    → IsReplica pf q
    → Replays (apply_buy pf f strict) (apply_buy q (bare_fill f) false)
unfolding apply_buy
buy-Replays pf q f strict s =
    let cost = f.qty ⊗ f.price ⊕ f.fee_idr in
    if_cases (λ (o : Outcome). Replays o (apply_buy q (bare_fill f) false))
      (ltb_ℤ pf.cash_idr cost && strict) _ _ (λ _. tt)
      (λ _.
        rw (and_false (ltb_ℤ q.cash_idr cost), s.held, lookup-bare f.pair pf.positions)
          (
            _,
            refl,
            record {
              cash = ap (λ c. c ⊖ cost) s.cash;
              gains = s.gains;
              held = rw (bought-bare f cost (lookup f.pair pf.positions), insert-bare) refl;
            },
          ))

sold-Replays :
    (pf q : Portfolio) (f : Fill) (p : Position)
    → IsReplica pf q
    → Replays (sold pf f p) (sold q (bare_fill f) (bare p))
unfolding sold
sold-Replays pf q f p s =
    let proceeds = f.qty ⊗ f.price ⊖ f.fee_idr in
    let gain = proceeds ⊖ p.avg_cost ⊗ f.qty in
    elim (Bool-cases (eqb_ℤ (p.qty ⊖ f.qty) (pos 0))) [
      | inl all ↦ rw all (
        _,
        refl,
        record {
          cash = ap (λ c. c ⊕ proceeds) s.cash;
          gains = ap (λ c. c ⊕ gain) s.gains;
          held = rw s.held (erase-bare f.pair pf.positions);
        },
      )
      | inr part ↦ rw part (
        _,
        refl,
        record {
          cash = ap (λ c. c ⊕ proceeds) s.cash;
          gains = ap (λ c. c ⊕ gain) s.gains;
          held = rw s.held (insert-bare f.pair (record p { qty = p.qty ⊖ f.qty }) pf.positions);
        },
      )
    ]

sell-Replays :
    (pf q : Portfolio) (f : Fill) (o : Option Position)
    → IsReplica pf q
    → Replays (apply_sell pf f o) (apply_sell q (bare_fill f) (bare_some o))
unfolding apply_sell
sell-Replays pf q f none s = tt
sell-Replays pf q f (some p) s = elim (Bool-cases (ltb_ℤ p.qty f.qty)) [
  | inl short ↦ rw short tt
  | inr covered ↦ rw covered (sold-Replays pf q f p s)
]

by_side-Replays :
    (side : Side) (pf q : Portfolio) (f : Fill) (strict : Bool)
    → IsReplica pf q
    → Replays (by_side side pf f strict) (by_side side q (bare_fill f) false)
by_side-Replays buy pf q f strict s = buy-Replays pf q f strict s
by_side-Replays sell pf q f strict s =
    rw (ap (lookup f.pair) s.held ∙ lookup-bare f.pair pf.positions)
      (sell-Replays pf q f (lookup f.pair pf.positions) s)
by_side-Replays other pf q f strict s = tt

pub apply_fill-Replays :
    (pf q : Portfolio) (f : Fill) (strict : Bool)
    → IsReplica pf q
    → Replays (apply_fill pf f strict) (apply_fill q (bare_fill f) false)
unfolding apply_fill
apply_fill-Replays pf q f strict s = elim (Bool-cases (is_bad f)) [
  | inl bad ↦ rw bad tt
  | inr good ↦ rw good (
      by_side-Replays f.side (charge pf f) (charge q (bare_fill f)) f strict
        (record { cash = s.cash; gains = s.gains; held = s.held }))
]

-- One more row, replayed after the others.
pub replay-append :
    (pf : Portfolio) (rs : List FillRow) (r : FillRow) (q q' : Portfolio)
    → replay pf rs ≡ some q
    → after (apply_fill q (fill_of_row r) false) ≡ some q'
    → replay pf (rs ++ r ∷ []) ≡ some q'
unfolding replay
replay-append pf [] r q q' e h = ground arith
replay-append pf (s ∷ rs) r q q' e h =
    elim (Option-cases (after (apply_fill pf (fill_of_row s) false))) [
      | inl failed ↦ absurd (ground arith)
      | inr (next, done) ↦ rw done (replay-append next rs r q q' (rw done at e) h)
    ]

-- The rows stand in the order of their times.
abbrev pub InTime : List FillRow → Type 0
InTime [] = Unit
InTime (r ∷ rs) = All (λ (s : FillRow). r.ts ≤ s.ts) rs × InTime rs

place_first :
    (r : FillRow) (rs : List FillRow) → All (λ (s : FillRow). r.ts ≤ s.ts) rs → place r rs ≡ r ∷ rs
unfolding place
place_first r [] h = refl
place_first r (s ∷ rs) h = ground (arith, h.0)

pub by_time-InTime : (rs : List FillRow) → InTime rs → by_time rs ≡ rs
unfolding by_time
by_time-InTime [] h = refl
by_time-InTime (r ∷ rs) h = rw (by_time-InTime rs h.1) (place_first r rs h.0)

rows_where-All :
    (P : FillRow → Type 0) (p : FillRow → Bool) (rs : List FillRow)
    → All P rs
    → All P (rows_where p rs)
unfolding rows_where
rows_where-All P p [] h = tt
rows_where-All P p (r ∷ rs) h = elim (Bool-cases (p r)) [
  | inl meets ↦ rw meets (h.0, rows_where-All P p rs h.1)
  | inr fails ↦ rw fails (rows_where-All P p rs h.1)
]

pub rows_where-InTime :
    (p : FillRow → Bool) (rs : List FillRow) → InTime rs → InTime (rows_where p rs)
unfolding rows_where
rows_where-InTime p [] h = tt
rows_where-InTime p (r ∷ rs) h = elim (Bool-cases (p r)) [
  | inl meets ↦ rw meets (rows_where-All _ p rs h.0, rows_where-InTime p rs h.1)
  | inr fails ↦ rw fails (rows_where-InTime p rs h.1)
]

pub rows_where-append :
    (p : FillRow → Bool) (rs : List FillRow) (r : FillRow)
    → rows_where p (rs ++ r ∷ []) ≡ (if p r then rows_where p rs ++ r ∷ [] else rows_where p rs)
unfolding rows_where
rows_where-append p [] r = refl
rows_where-append p (s ∷ rs) r = elim (Bool-cases (p s)) [
  | inl meets ↦ rw (meets, rows_where-append p rs r) (ground arith)
  | inr fails ↦ rw fails (rows_where-append p rs r)
]
