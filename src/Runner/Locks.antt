-- ===== src/Runner/Locks.antt =====
-- Who can open entries again: the steps of the status.
use tio_indodax.Prelude.{
  ℕ, ◌≡◌, refl, Bool, true, false, not, ◌&&◌, Option, none, some, List, [], ◌∷◌, arith, inl, inr,
  ◌==◌, Bool-cases, ==_iff, sym,
}
use mathlib.Core.Path.{subst}
use tio_indodax.Decimal.{Decimal}
use tio_indodax.Risk.Types.{AgentStatus, running, paused, halted}
use tio_indodax.Runner.Status.{
  PauseReason, clock, reconcile, deadman, manual, max_drawdown, manual_kill, daily_loss, Control,
  Notice, auto_pause, update_clock, start_day, live_checks, apply_triggers, pause, resume, kill,
  clock_bad, clock_good, check_deadman, reconcile_bad, reconcile_good, deadman_bad, deadman_good,
  is_running, is_paused, is_halted, same_reason, loss_is_past,
}

-- What happens to the status: the program's own steps, with what they read, and the owner's commands.
pub data Event : Type 0 where
  clock_read : Option ℕ → ℕ → Event
  day_starts : ℕ → Event
  checks : Bool → Option Bool → Event
  triggers : Bool → Bool → ℕ → Event
  pause_command kill_command : Event
  resume_command : Option Decimal → Event

unfoldable pub step : Event → Control → Control
step (clock_read offset max_offset) c = (update_clock offset max_offset c).1
step (day_starts today) c = (start_day today c).1
step (checks recon_ok healthy) c = (live_checks recon_ok healthy c).1
step (triggers halt daily today) c = (apply_triggers halt daily today c).1
step pause_command c = (pause c).1
step kill_command c = (kill c).1
step (resume_command eq) c = (resume eq c).1

unfoldable pub run : List Event → Control → Control
unfolding step
run [] c = c
run (e ∷ es) c = run es (step e c)

-- No command to resume, and no start of another day than this.
abbrev pub stays_in : ℕ → Event → Bool
stays_in day (resume_command eq) = false
stays_in day (day_starts today) = today == day
stays_in day _ = true

abbrev pub AllStayIn : ℕ → List Event → Type 0
AllStayIn day [] = Unit
AllStayIn day (e ∷ es) = (stays_in day e ≡ true) × AllStayIn day es

-- Halted; or paused by the owner or for the loss of this day.
abbrev pub locks : ℕ → AgentStatus → Option PauseReason → Bool
locks day halted reason = true
locks day paused (some manual) = true
locks day paused (some (daily_loss d)) = d == day
locks day _ _ = false

abbrev pub is_locked : ℕ → Control → Bool
is_locked day c = locks day c.status c.pause_reason

locks_running :
    (day : ℕ) (s : AgentStatus) (r : Option PauseReason)
    → locks day s r ≡ true
    → is_running s ≡ false
locks_running day running r l = absurd (ground arith)
locks_running day paused r l = refl
locks_running day halted r l = refl

-- A lock is not a pause for another reason.
module _ (day : ℕ) (reason : PauseReason) (h : same_reason (some manual) reason ≡ false)
    (k : same_reason (some (daily_loss day)) reason ≡ false) where
  locks_paused :
      (s : AgentStatus) (r : Option PauseReason)
      → locks day s r ≡ true
      → (is_paused s && same_reason r reason) ≡ false
  locks_paused running r l = refl
  locks_paused halted r l = refl
  locks_paused paused (some manual) l = h
  locks_paused paused (some (daily_loss d)) l =
      subst (λ e. same_reason (some (daily_loss e)) reason ≡ false) (sym ((==_iff d day).0 l)) k
  locks_paused paused none l = absurd (ground arith)
  locks_paused paused (some clock) l = absurd (ground arith)
  locks_paused paused (some reconcile) l = absurd (ground arith)
  locks_paused paused (some deadman) l = absurd (ground arith)
  locks_paused paused (some max_drawdown) l = absurd (ground arith)
  locks_paused paused (some manual_kill) l = absurd (ground arith)

  auto_pause_locked :
      (bad : Bool) (m n : Notice) (c : Control)
      → is_locked day c ≡ true
      → (auto_pause reason bad m n c).1 ≡ c
  unfolding auto_pause
  auto_pause_locked true m n c l = rw (locks_running day c.status c.pause_reason l) refl
  auto_pause_locked false m n c l = rw (locks_paused c.status c.pause_reason l) refl

-- What was paused for the loss of a day stays paused on that day.
locks_today :
    (day : ℕ) (s : AgentStatus) (r : Option PauseReason)
    → locks day s r ≡ true
    → (is_paused s && loss_is_past day r) ≡ false
locks_today day running r l = refl
locks_today day halted r l = refl
locks_today day paused (some manual) l = refl
locks_today day paused (some (daily_loss d)) l = rw l refl
locks_today day paused none l = refl
locks_today day paused (some clock) l = refl
locks_today day paused (some reconcile) l = refl
locks_today day paused (some deadman) l = refl
locks_today day paused (some max_drawdown) l = refl
locks_today day paused (some manual_kill) l = refl

start_day_locked :
    (day today : ℕ) (c : Control)
    → today ≡ day
    → is_locked day c ≡ true
    → is_locked day (start_day today c).1 ≡ true
unfolding start_day
start_day_locked day today c e l = rw (e, locks_today day c.status c.pause_reason l) l

check_deadman_locked :
    (day : ℕ) (healthy : Option Bool) (c : Control)
    → is_locked day c ≡ true
    → is_locked day (check_deadman healthy c).1 ≡ true
unfolding check_deadman
check_deadman_locked day none c l = l
check_deadman_locked day (some h) c l =
    rw (auto_pause_locked day deadman refl refl (not h) deadman_bad deadman_good c l) l

apply_triggers_locked :
    (day : ℕ) (halt daily : Bool) (today : ℕ) (c : Control)
    → is_locked day c ≡ true
    → is_locked day (apply_triggers halt daily today c).1 ≡ true
unfolding apply_triggers
apply_triggers_locked day halt daily today c l =
    let closed = locks_running day c.status c.pause_reason l in
    let no_stop : (daily && is_running c.status) ≡ false = ground arith in
    elim (Bool-cases (halt && not (is_halted c.status))) [
      | inl h ↦ rw (h, apply_triggers) refl
      | inr h ↦ rw (h, no_stop) l
    ]

step_locked :
    (day : ℕ) (e : Event) (c : Control)
    → stays_in day e ≡ true
    → is_locked day c ≡ true
    → is_locked day (step e c) ≡ true
unfolding step update_clock live_checks pause kill
step_locked day (clock_read none max) c s l = l
step_locked day (clock_read (some o) max) c s l =
    rw (auto_pause_locked day clock refl refl _ clock_bad clock_good c l) l
step_locked day (day_starts today) c s l = start_day_locked day today c ((==_iff today day).0 s) l
step_locked day (checks ok healthy) c s l =
    check_deadman_locked day healthy _
      (rw (auto_pause_locked day reconcile refl refl (not ok) reconcile_bad reconcile_good c l) l)
step_locked day (triggers halt daily today) c s l = apply_triggers_locked day halt daily today c l
step_locked day pause_command c s l = elim (Bool-cases (is_halted c.status)) [
  | inl h ↦ rw (h, step, pause) l
  | inr h ↦ rw (h, step, pause) refl
]
step_locked day kill_command c s l = refl
step_locked day (resume_command eq) c s l = absurd (ground arith)

-- Once the agent is halted, or paused by the owner, or paused for the loss of a day, nothing but the
-- owner's command to resume opens entries again on that day: it stays so, and is not running, through
-- any steps of the program and commands of the owner in which there is no command to resume and no
-- other day starts.
pub locked_until_resume :
    (day : ℕ) (es : List Event) (c : Control)
    → AllStayIn day es
    → is_locked day c ≡ true
    → (is_locked day (run es c) ≡ true) × (is_running (run es c).status ≡ false)
unfolding run
locked_until_resume day [] c all l = (l, locks_running day c.status c.pause_reason l)
locked_until_resume day (e ∷ es) c (s, all) l =
    locked_until_resume day es (step e c) all (step_locked day e c s l)
