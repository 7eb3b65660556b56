-- ===== src/Runner/Peaks.antt =====
-- What the equity tracker keeps of the peak and of the start of a day.
use tio_indodax.Prelude.{
  ℕ, ◌≡◌, refl, none, some, List, [], ◌∷◌, arith, inl, inr, Bool-cases, Option-cases, ◌==◌, ==_iff,
  ap, ◌∙◌, ltb_ℤ, ◌≤ℤ◌, All,
}
use tio_indodax.Decimal.{Decimal}
use tio_indodax.Runner.Days.{
  DayRow, merged, upsert_daily_pnl, get_daily_pnl, Books, stored_peak, new_day, raise_peak, update,
  start_of,
}

-- The updates of a run of cycles.
unfoldable pub updates : List (Decimal × ℕ) → Books → Books
updates [] b = b
updates ((eq, date) ∷ us) b = updates us (update eq date b).1

-- The row of the date has this start.
abbrev pub StartsAt : ℕ → Decimal → List DayRow → Type 0
StartsAt date start rows =
    (r : DayRow) × (get_daily_pnl date rows ≡ some r) × (r.start_equity ≡ start)

upsert-StartsAt :
    (date : ℕ) (start : Decimal) (new : DayRow) (rows : List DayRow)
    → StartsAt date start rows
    → StartsAt date start (upsert_daily_pnl new rows)
unfolding get_daily_pnl upsert_daily_pnl
upsert-StartsAt date start new [] (r, e, h) = absurd (ground arith)
upsert-StartsAt date start new (x ∷ rows) (r, e, h) = elim (Bool-cases (x.date == new.date)) [
  | inl same ↦ elim (Bool-cases (x.date == date)) [
    | inl here ↦
        let found : x ≡ r = ground arith in
        rw (same, here) (merged new x, refl, ap (λ y. y.start_equity) found ∙ h)
    | inr further ↦ rw (same, further) (r, rw further at e, h)
  ]
  | inr different ↦ elim (Bool-cases (x.date == date)) [
    | inl here ↦ rw (different, here) (r, rw here at e, h)
    | inr further ↦
        let (r', e', h') = upsert-StartsAt date start new rows (r, rw further at e, h) in
        rw (different, further) (r', e', h')
  ]
]

upsert_new :
    (new : DayRow) (rows : List DayRow)
    → get_daily_pnl new.date rows ≡ none
    → get_daily_pnl new.date (upsert_daily_pnl new rows) ≡ some new
unfolding get_daily_pnl upsert_daily_pnl
upsert_new new [] e = rw ((==_iff new.date new.date).1 refl) refl
upsert_new new (x ∷ rows) e = elim (Bool-cases (x.date == new.date)) [
  | inl here ↦ absurd (ground arith)
  | inr further ↦ rw (further, further) (upsert_new new rows (rw further at e))
]

raise_peak-days : (eq : Decimal) (b : Books) → (raise_peak eq b).1.days ≡ b.days
raise_peak-days eq b = elim (Bool-cases (ltb_ℤ (stored_peak b) eq)) [
  | inl h ↦ rw h refl
  | inr h ↦ rw h refl
]

-- The row of the day after an update starts with the start that the update returns.
start_of-StartsAt :
    (date : ℕ) (eq : Decimal) (x : Decimal × Books)
    → StartsAt date (start_of date eq x).0.1 (start_of date eq x).1.days
start_of-StartsAt date eq (peak, b) = elim (Option-cases (get_daily_pnl date b.days)) [
  | inl missing ↦
      rw (missing, start_of)
        (new_day date eq peak, upsert_new (new_day date eq peak) b.days missing, refl)
  | inr (r, there) ↦ rw (there, start_of) (r, there, refl)
]

start_of_fixed :
    (day date : ℕ) (start eq : Decimal) (x : Decimal × Books)
    → StartsAt day start x.1.days
    → StartsAt day start (start_of date eq x).1.days
start_of_fixed day date start eq (peak, b) h = elim (Option-cases (get_daily_pnl date b.days)) [
  | inl missing ↦ rw (missing, start_of) (upsert-StartsAt day start (new_day date eq peak) b.days h)
  | inr (r, there) ↦ rw (there, start_of) h
]

start_of_known :
    (date : ℕ) (start eq : Decimal) (x : Decimal × Books)
    → StartsAt date start x.1.days
    → (start_of date eq x).0.1 ≡ start
start_of_known date start eq (peak, b) (r, e, h) = rw (e, start_of) h

start_of_new :
    (date : ℕ) (eq : Decimal) (x : Decimal × Books)
    → get_daily_pnl date x.1.days ≡ none
    → (start_of date eq x).0.1 ≡ eq
start_of_new date eq (peak, b) missing = rw (missing, start_of) refl

updates-StartsAt :
    (day : ℕ) (start : Decimal) (us : List (Decimal × ℕ)) (b : Books)
    → StartsAt day start b.days
    → StartsAt day start (updates us b).days
unfolding updates update
updates-StartsAt day start [] b h = h
updates-StartsAt day start ((eq, date) ∷ us) b h =
    updates-StartsAt day start us _
      (start_of_fixed day date start eq (raise_peak eq b) (rw (raise_peak-days eq b) h))

-- The start of a day is the equity of the first update on it, or the one that is recorded already; and
-- whatever updates follow, on this day and on others, an update on this day returns the same start.
pub update_start :
    (eq eq' : Decimal) (date : ℕ) (us : List (Decimal × ℕ)) (b : Books)
    → (get_daily_pnl date b.days ≡ none → (update eq date b).0.1 ≡ eq)
      × ((update eq' date (updates us (update eq date b).1)).0.1 ≡ (update eq date b).0.1)
unfolding update
update_start eq eq' date us b = (
  λ missing. start_of_new date eq (raise_peak eq b) (rw (raise_peak-days eq b) missing),
  let later = updates us (start_of date eq (raise_peak eq b)).1 in
      start_of_known date _ eq' (raise_peak eq' later) (
        rw (raise_peak-days eq' later)
          (updates-StartsAt date _ us _ (start_of-StartsAt date eq (raise_peak eq b)))),
)

start_of-peak :
    (date : ℕ) (eq : Decimal) (x : Decimal × Books)
    → ((start_of date eq x).1.peak_equity ≡ x.1.peak_equity) × ((start_of date eq x).0.0 ≡ x.0)
start_of-peak date eq (peak, b) = elim (Option-cases (get_daily_pnl date b.days)) [
  | inl missing ↦ rw (missing, start_of) (refl, refl)
  | inr (r, there) ↦ rw (there, start_of) (refl, refl)
]

-- The peak that an update returns is the stored one, and covers the equity and the peak before it.
raise_peak_covers :
    (eq : Decimal) (b : Books)
    → (stored_peak (raise_peak eq b).1 ≡ (raise_peak eq b).0)
      × (eq ≤ℤ (raise_peak eq b).0)
      × (stored_peak b ≤ℤ (raise_peak eq b).0)
raise_peak_covers eq b = elim (Bool-cases (ltb_ℤ (stored_peak b) eq)) [
  | inl h ↦ rw h (refl, omega arith, ground arith)
  | inr h ↦ rw h (refl, ground arith, omega arith)
]

update_covers :
    (eq : Decimal) (date : ℕ) (b : Books)
    → (stored_peak (update eq date b).1 ≡ (update eq date b).0.0)
      × (eq ≤ℤ (update eq date b).0.0)
      × (stored_peak b ≤ℤ (update eq date b).0.0)
unfolding update
update_covers eq date b =
    let (stored, returned) = start_of-peak date eq (raise_peak eq b) in
    rw (stored, returned) (raise_peak_covers eq b)

updates_grow : (us : List (Decimal × ℕ)) (b : Books) → stored_peak b ≤ℤ stored_peak (updates us b)
unfolding updates
updates_grow [] b = omega arith
updates_grow ((eq, date) ∷ us) b =
    let (stored, _, grows) = update_covers eq date b in
    let rest = updates_grow us (update eq date b).1 in omega (arith, rw stored at rest, grows)

-- Over any run of `update` the peak equity does not fall, and after it it is at least every equity that
-- the run saw. (`resume` and a change of the capital, which set the peak anew, are no part of the run.)
pub updates_cover :
    (us : List (Decimal × ℕ)) (b : Books)
    → (stored_peak b ≤ℤ stored_peak (updates us b))
      × All (λ (u : Decimal × ℕ). u.0 ≤ℤ stored_peak (updates us b)) us
unfolding updates
updates_cover [] b = (omega arith, tt)
updates_cover ((eq, date) ∷ us) b =
    let (stored, seen, grows) = update_covers eq date b in
    let (rest, all) = updates_cover us (update eq date b).1 in
    let later = rw stored at rest in (omega arith, (omega arith, all))
