-- ===== src/Runner/Capital.antt =====
-- `_rebase_capital` of agent/runner.py: what a change of the capital does to the books.
use mathlib.Core.Option
use tio_indodax.Prelude.{
  ℕ, ◌≡◌, ◌≢◌, refl, true, false, Option, none, some, List, [], ◌∷◌, arith, inl, inr, Bool-cases,
  pos, ◌==◌, ap, ◌∙◌, eqb_ℤ,
}
use tio_indodax.Decimal.{Decimal, ◌⊕◌, ◌⊖◌, max}
use tio_indodax.Runner.Days.{
  DayRow, get_daily_pnl, shift_daily_start_equity, Books, rebase_capital, old_capital, shifted_peak,
}

rebased_same :
    (capital : Decimal) (today : ℕ) (b : Books)
    → b.capital ≡ some capital
    → rebase_capital capital today b ≡ (none, b)
unfolding rebase_capital
rebased_same capital today b e =
    let same : eqb_ℤ capital capital ≡ true = ground arith in rw (e, same) refl

-- The days with the start of one of them shifted.
shifted_day :
    (date : ℕ) (delta : Decimal) (rows : List DayRow)
    → get_daily_pnl date (shift_daily_start_equity date delta rows)
      ≡ Option.map
          (λ (r : DayRow). record r { start_equity = r.start_equity ⊕ delta })
          (get_daily_pnl date rows)
unfolding get_daily_pnl shift_daily_start_equity
shifted_day date delta [] = refl
shifted_day date delta (r ∷ rs) = elim (Bool-cases (r.date == date)) [
  | inl same ↦ rw (same, shift_daily_start_equity, get_daily_pnl) (rw same refl)
  | inr other ↦
      rw (other, shift_daily_start_equity, get_daily_pnl) (rw other (shifted_day date delta rs))
]

other_day :
    (date day : ℕ) (delta : Decimal) (rows : List DayRow)
    → day ≢ date
    → get_daily_pnl day (shift_daily_start_equity date delta rows) ≡ get_daily_pnl day rows
unfolding get_daily_pnl shift_daily_start_equity
other_day date day delta [] ne = refl
other_day date day delta (r ∷ rs) ne = elim (Bool-cases (r.date == date)) [
  | inl same ↦
      let later : r.date == day ≡ false = ground arith in
      rw (same, later, shift_daily_start_equity, get_daily_pnl) refl
  | inr other ↦ ground (arith, other_day date day delta rs ne)
]

-- The books after the first rebase to another capital.
rebased_by :
    (capital old : Decimal) (today : ℕ) (b : Books)
    → old_capital today b ≡ some old
    → old ≢ capital
    → (rebase_capital capital today b).1 ≡ record b {
      capital = some capital;
      peak_equity = shifted_peak b.peak_equity (capital ⊖ old);
      days = shift_daily_start_equity today (capital ⊖ old) b.days;
    }
unfolding rebase_capital
rebased_by capital old today b e ne =
    let changed : eqb_ℤ old capital ≡ false = ground arith in rw (e, changed) refl

shifted_peak-map :
    (o : Option Decimal) (delta : Decimal)
    → shifted_peak o delta ≡ Option.map (λ (p : Decimal). max (p ⊕ delta) (pos 0)) o
shifted_peak-map none delta = refl
shifted_peak-map (some p) delta = refl

-- Let the books stand for a capital (the recorded one, or the start of a past first day) and another
-- one be set. The peak equity, if there is one, is shifted by the difference, down to 0 at most, and
-- so is the start of the day of the change, if the day has a row; all other days stay as they are. When
-- the program starts again with the same capital, whatever the day, nothing is shifted.
pub rebase_capital_once :
    (capital old : Decimal) (today tomorrow day : ℕ) (b : Books)
    → old_capital today b ≡ some old
    → old ≢ capital
    → day ≢ today
    → let after = (rebase_capital capital today b).1 in
      let delta = capital ⊖ old in
      (after.peak_equity ≡ Option.map (λ (p : Decimal). max (p ⊕ delta) (pos 0)) b.peak_equity)
      × (get_daily_pnl today after.days
          ≡ Option.map
              (λ (r : DayRow). record r { start_equity = r.start_equity ⊕ delta })
              (get_daily_pnl today b.days))
      × (get_daily_pnl day after.days ≡ get_daily_pnl day b.days)
      × (rebase_capital capital tomorrow after ≡ (none, after))
rebase_capital_once capital old today tomorrow day b e changed ne =
    let is_after = rebased_by capital old today b e changed in
    let delta = capital ⊖ old in
    (
      ap (λ (x : Books). x.peak_equity) is_after ∙ shifted_peak-map b.peak_equity delta,
      ap (λ (x : Books). get_daily_pnl today x.days) is_after ∙ shifted_day today delta b.days,
      ap (λ (x : Books). get_daily_pnl day x.days) is_after ∙ other_day today day delta b.days ne,
      rebased_same capital tomorrow (rebase_capital capital today b).1
          (ap (λ (x : Books). x.capital) is_after),
    )
