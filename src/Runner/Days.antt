-- ===== src/Runner/Days.antt =====
-- The rows of `daily_pnl` of agent/storage/db.py in the agent's mode, `EquityTracker` of
-- agent/engine.py, and `_rebase_capital` and `_book_day` of agent/runner.py.
use tio_indodax.Prelude.{
  ℕ, String, Bool, Option, none, some, List, [], ◌∷◌, ◌==◌, ltb, leb, if◌then◌else◌, pos, ltb_ℤ,
  eqb_ℤ, length,
}
use tio_indodax.Decimal.{Decimal, ◌⊕◌, ◌⊖◌, max, sum}
use tio_indodax.Dict.{Dict, keys}
use tio_indodax.Exchange.Models.{◌>>=◌}
use tio_indodax.Storage.{Database, FillRow, fills_between}
use tio_indodax.Portfolio.{Portfolio, equity, unrealized_pnl}

pub record DayRow : Type 0 where
  pub date : ℕ
  pub start_equity : Decimal
  pub end_equity : Option Decimal
  pub realized : Option Decimal
  pub unrealized : Option Decimal
  pub fees : Option Decimal
  pub peak_equity : Option Decimal

-- COALESCE(excluded.x, x)
abbrev coalesce : Option Decimal → Option Decimal → Option Decimal
coalesce none old = old
coalesce (some new) old = some new

abbrev pub merged : DayRow → DayRow → DayRow
merged new old = record old {
  end_equity = coalesce new.end_equity old.end_equity;
  realized = coalesce new.realized old.realized;
  unrealized = coalesce new.unrealized old.unrealized;
  fees = coalesce new.fees old.fees;
  peak_equity = coalesce new.peak_equity old.peak_equity;
}

unfoldable pub upsert_daily_pnl : DayRow → List DayRow → List DayRow
upsert_daily_pnl new [] = new ∷ []
upsert_daily_pnl new (r ∷ rs) =
    if r.date == new.date then merged new r ∷ rs else r ∷ upsert_daily_pnl new rs

unfoldable pub get_daily_pnl : ℕ → List DayRow → Option DayRow
get_daily_pnl date [] = none
get_daily_pnl date (r ∷ rs) = if r.date == date then some r else get_daily_pnl date rs

unfoldable pub shift_daily_start_equity : ℕ → Decimal → List DayRow → List DayRow
shift_daily_start_equity date delta [] = []
shift_daily_start_equity date delta (r ∷ rs) =
    if r.date == date
    then record r { start_equity = r.start_equity ⊕ delta } ∷ rs
    else r ∷ shift_daily_start_equity date delta rs

abbrev earlier : DayRow → Option DayRow → DayRow
earlier r none = r
earlier r (some s) = if leb r.date s.date then r else s

-- ORDER BY date LIMIT 1
unfoldable pub first_row : List DayRow → Option DayRow
first_row [] = none
first_row (r ∷ rs) = some (earlier r (first_row rs))

-- What the database keeps under the keys `capital` and `peak_equity` of the mode, and the days.
pub record Books : Type 0 where
  pub capital : Option Decimal
  pub peak_equity : Option Decimal
  pub days : List DayRow

abbrev or_zero : Option Decimal → Decimal
or_zero none = pos 0
or_zero (some d) = d

abbrev pub stored_peak : Books → Decimal
stored_peak b = or_zero b.peak_equity

abbrev pub new_day : ℕ → Decimal → Decimal → DayRow
new_day date start peak = record {
  date = date;
  start_equity = start;
  end_equity = none;
  realized = none;
  unrealized = none;
  fees = none;
  peak_equity = some peak;
}

-- The peak, and the books with it.
abbrev pub raise_peak : Decimal → Books → Decimal × Books
raise_peak eq b =
    if ltb_ℤ (stored_peak b) eq
    then (eq, record b { peak_equity = some eq })
    else (stored_peak b, b)

abbrev pub start_of : ℕ → Decimal → Decimal × Books → (Decimal × Decimal) × Books
start_of date eq (peak, b) = elim (get_daily_pnl date b.days) [
  | none ↦ ((peak, eq), record b { days = upsert_daily_pnl (new_day date eq peak) b.days })
  | some r ↦ ((peak, r.start_equity), b)
]

-- `EquityTracker.update`: the peak and the start of the day, and the books then.
unfoldable pub update : Decimal → ℕ → Books → (Decimal × Decimal) × Books
unfolding get_daily_pnl upsert_daily_pnl
update eq date b = start_of date eq (raise_peak eq b)

-- The capital that the books stand for: the recorded one, or else the start of a past first day.
abbrev past_start : ℕ → Option DayRow → Option Decimal
past_start today none = none
past_start today (some r) = if ltb r.date today then some r.start_equity else none

abbrev pub old_capital : ℕ → Books → Option Decimal
old_capital today b = elim b.capital [
  | none ↦ past_start today (first_row b.days)
  | some c ↦ some c
]

abbrev pub shifted_peak : Option Decimal → Decimal → Option Decimal
shifted_peak none delta = none
shifted_peak (some peak) delta = some (max (peak ⊕ delta) (pos 0))

abbrev pub rebased : ℕ → Decimal → Option Decimal → Books → Option (Decimal × Decimal) × Books
rebased today capital none b = (none, b)
rebased today capital (some old) b = if eqb_ℤ old capital then (none, b) else (
  some (old, capital),
  record b {
    peak_equity = shifted_peak b.peak_equity (capital ⊖ old);
    days = shift_daily_start_equity today (capital ⊖ old) b.days;
  },
)

-- `_rebase_capital`: the two capitals of its note, and the books then.
unfoldable pub rebase_capital : Decimal → ℕ → Books → Option (Decimal × Decimal) × Books
unfolding first_row shift_daily_start_equity
rebase_capital capital today b =
    rebased today capital (old_capital today b) (record b { capital = some capital })

unfoldable pub realized_of : List FillRow → List Decimal
realized_of [] = []
realized_of (r ∷ rs) = or_zero r.realized_pnl ∷ realized_of rs

unfoldable pub fees_of : List FillRow → List Decimal
fees_of [] = []
fees_of (r ∷ rs) = r.fee_idr ∷ fees_of rs

-- The row that `_book_day` writes. The start is the one of the row that is there.
abbrev pub day_row : ℕ → Option DayRow → List FillRow → Decimal → Decimal → Decimal → DayRow
day_row date row fills eq unrealized peak = record {
  date = date;
  start_equity = elim row [ none ↦ eq | some r ↦ r.start_equity ];
  end_equity = some eq;
  realized = some (sum (realized_of fills));
  unrealized = some unrealized;
  fees = some (sum (fees_of fills));
  peak_equity = some (max peak eq);
}

abbrev fully_marked : Portfolio → Dict Decimal → Bool
fully_marked pf marks = length (keys marks) == length (keys pf.positions)

-- `_book_day` for the day from `start` to `end`; `marks` are the prices of the positions that have
-- one. `none` is the KeyError of a missing price.
unfoldable pub book_day :
    Database → Portfolio → String → Dict Decimal → ℕ → ℕ → ℕ → Books → Option Books
book_day db pf mode marks date start end b =
    if fully_marked pf marks
    then (do
      eq ← equity pf marks
      unrealized ← unrealized_pnl pf marks
      let row =
          day_row date (get_daily_pnl date b.days) (fills_between db start end mode) eq unrealized
            (stored_peak b)
      some (record b { days = upsert_daily_pnl row b.days }))
    else some b
