-- ===== src/Runner/Tests.antt =====
-- Runs of the status, of the equity tracker and of the change of the capital.
use mathlib.Core.Option
use tio_indodax.Prelude.{
  arith, pos, ℕ, ◌≡◌, refl, Bool, true, false, none, some, List, [], ◌∷◌, ◌≤ℤ◌, All,
}
use tio_indodax.Decimal.{Decimal, ◌⊕◌, ◌⊖◌, max, whole, arithmetic}
use tio_indodax.Risk.Types.{running, paused, halted}
use tio_indodax.Runner.Days.{
  DayRow, Books, get_daily_pnl, upsert_daily_pnl, shift_daily_start_equity, first_row, update,
  rebase_capital, stored_peak,
}
use tio_indodax.Runner.Status.{
  Control, deadman, daily_loss, is_running, auto_pause, update_clock, start_day, live_checks,
  check_deadman, apply_triggers, pause, resume, kill,
}
use tio_indodax.Runner.Peaks.{updates, update_start, updates_cover}
use tio_indodax.Runner.Capital.{rebase_capital_once}
use tio_indodax.Runner.Locks.{
  Event, clock_read, day_starts, checks, triggers, pause_command, kill_command, step, run,
  is_locked, locked_until_resume,
}
use tio_indodax.Runner.Opens.{OpensFor, step-OpensFor}

whole_runner : Bool
unfolding arithmetic get_daily_pnl upsert_daily_pnl shift_daily_start_equity first_row update
    rebase_capital updates auto_pause update_clock start_day live_checks check_deadman
    apply_triggers pause resume kill step run
whole_runner = true

abbrev control : Control
control = record { status = running; pause_reason = none; peak_equity = none }

abbrev stopped : Control
stopped = record { status = paused; pause_reason = some (daily_loss 7); peak_equity = none }

-- The daily loss outlasts a clock that goes wrong and comes right, and the owner's own pause.
abbrev events : List Event
events =
    clock_read (some 900) 500
    ∷ day_starts 7
    ∷ checks true (some true)
    ∷ clock_read (some 3) 500
    ∷ pause_command
    ∷ triggers false true 7
    ∷ []

daily_stop_run : run (triggers false true 7 ∷ []) control ≡ stopped
unfolding whole_runner
daily_stop_run = refl

next_day : (run (day_starts 8 ∷ []) stopped).status ≡ running
unfolding whole_runner
next_day = refl

killed_and_resumed : (run (kill_command ∷ pause_command ∷ []) control).status ≡ halted
unfolding whole_runner
killed_and_resumed = refl

locked_until_resume_example :
    (is_locked 7 (run events stopped) ≡ true) × (is_running (run events stopped).status ≡ false)
locked_until_resume_example =
    locked_until_resume 7 events stopped (refl, (refl, (refl, (refl, (refl, (refl, tt)))))) refl

abbrev unhealthy : Control
unhealthy = record { status = paused; pause_reason = some deadman; peak_equity = none }

step-OpensFor_example : OpensFor (checks true (some true)) paused (some deadman)
unfolding whole_runner
step-OpensFor_example = step-OpensFor (checks true (some true)) unhealthy refl refl

abbrev books : Books
books = record { capital = some (whole 1000); peak_equity = some (whole 1000); days = [] }

abbrev seen : List (Decimal × ℕ)
seen = (whole 1100, 7) ∷ (whole 900, 7) ∷ (whole 950, 8) ∷ []

update_start_example :
    (get_daily_pnl 7 books.days ≡ none → (update (whole 1000) 7 books).0.1 ≡ whole 1000)
    × ((update (whole 990) 7 (updates seen (update (whole 1000) 7 books).1)).0.1
        ≡ (update (whole 1000) 7 books).0.1)
update_start_example = update_start (whole 1000) (whole 990) 7 seen books

peak_run : (updates seen books).peak_equity ≡ some (whole 1100)
unfolding whole_runner
peak_run = refl

updates_cover_example :
    (stored_peak books ≤ℤ stored_peak (updates seen books))
    × All (λ (u : Decimal × ℕ). u.0 ≤ℤ stored_peak (updates seen books)) seen
updates_cover_example = updates_cover seen books

shifted : (rebase_capital (whole 700) 9 books).1.peak_equity ≡ some (whole 700)
unfolding whole_runner
shifted = refl

-- The books once the seventh and the eighth day have begun.
abbrev begun : Books
begun = updates seen books

rebase_capital_once_example :
    let after = (rebase_capital (whole 700) 8 begun).1 in
    let delta = whole 700 ⊖ whole 1000 in
    (after.peak_equity ≡ Option.map (λ (p : Decimal). max (p ⊕ delta) (pos 0)) begun.peak_equity)
    × (get_daily_pnl 8 after.days
        ≡ Option.map
            (λ (r : DayRow). record r { start_equity = r.start_equity ⊕ delta })
            (get_daily_pnl 8 begun.days))
    × (get_daily_pnl 7 after.days ≡ get_daily_pnl 7 begun.days)
    × (rebase_capital (whole 700) 10 after ≡ (none, after))
unfolding whole_runner
rebase_capital_once_example =
    rebase_capital_once (whole 700) (whole 1000) 8 10 7 begun refl (λ e. absurd (ground arith))
      (λ e. absurd (ground arith))
