-- ===== src/Runner/Opens.antt =====
-- What opens entries again.
use tio_indodax.Prelude.{
  ℕ, zero, ◌≤◌, ◌≡◌, ◌≢◌, ◌⊎◌, refl, Bool, true, false, not, ◌&&◌, Option, none, some, arith, inl,
  inr, Bool-cases, ltb,
}
use mathlib.Core.Path.{subst}
use tio_indodax.Risk.Types.{AgentStatus, paused}
use tio_indodax.Runner.Status.{
  PauseReason, clock, reconcile, deadman, manual, max_drawdown, manual_kill, daily_loss, Control,
  Notice, auto_pause, update_clock, start_day, live_checks, apply_triggers, pause, kill, is_running,
  is_paused, same_reason, paused_for, loss_is_past, clock_bad, clock_good, check_deadman,
  reconcile_bad, reconcile_good, deadman_bad, deadman_good,
}
use tio_indodax.Runner.Locks.{
  Event, clock_read, day_starts, checks, triggers, pause_command, kill_command, resume_command,
  step,
}

-- What opens entries again, for each step, the status and the reason of the pause.
abbrev pub OpensFor : Event → AgentStatus → Option PauseReason → Type 0
OpensFor (clock_read (some offset) max_offset) s r =
    (s ≡ paused) × (r ≡ some clock) × (offset ≤ max_offset)
OpensFor (day_starts today) s r = (s ≡ paused) × (d : ℕ) × (r ≡ some (daily_loss d)) × (d ≢ today)
OpensFor (checks recon_ok healthy) s r =
    (s ≡ paused)
    × ((r ≡ some reconcile) × (recon_ok ≡ true) ⊎ (r ≡ some deadman) × (healthy ≡ some true))
OpensFor (resume_command eq) s r = Unit
OpensFor _ s r = zero ≡ 1

auto_pause_opens :
    (reason : PauseReason) (bad : Bool) (m n : Notice) (c : Control)
    → is_running c.status ≡ false
    → is_running (auto_pause reason bad m n c).1.status ≡ true
    → (bad ≡ false) × (paused_for reason c ≡ true)
unfolding auto_pause
auto_pause_opens reason true m n c h k = absurd (ground arith)
auto_pause_opens reason false m n c h k = ground arith

auto_pause_same :
    (reason : PauseReason) (bad : Bool) (m n : Notice) (c : Control)
    → is_running c.status ≡ false
    → is_running (auto_pause reason bad m n c).1.status ≡ false
    → (auto_pause reason bad m n c).1 ≡ c
unfolding auto_pause
auto_pause_same reason true m n c h k = rw h refl
auto_pause_same reason false m n c h k = elim (Bool-cases (paused_for reason c)) [
  | inl p ↦ absurd (ground arith)
  | inr p ↦ rw (p, auto_pause) refl
]

same_reason_eq :
    (r : Option PauseReason) (reason : PauseReason) → same_reason r reason ≡ true → r ≡ some reason
same_reason_eq (some x) y h = ground arith
same_reason_eq none y h = ground arith

paused_eq : (s : AgentStatus) → is_paused s ≡ true → s ≡ paused
paused_eq s h = ground arith

paused_for_eq :
    (reason : PauseReason) (c : Control)
    → paused_for reason c ≡ true
    → (c.status ≡ paused) × (c.pause_reason ≡ some reason)
paused_for_eq reason c h =
    (paused_eq c.status (ground arith), same_reason_eq c.pause_reason reason (ground arith))

loss_is_past_eq :
    (today : ℕ) (r : Option PauseReason)
    → loss_is_past today r ≡ true
    → (d : ℕ) × (r ≡ some (daily_loss d)) × (d ≢ today)
loss_is_past_eq today (some (daily_loss d)) h = (d, refl, λ e. ground arith)
loss_is_past_eq today none h = absurd (ground arith)
loss_is_past_eq today (some clock) h = absurd (ground arith)
loss_is_past_eq today (some reconcile) h = absurd (ground arith)
loss_is_past_eq today (some deadman) h = absurd (ground arith)
loss_is_past_eq today (some manual) h = absurd (ground arith)
loss_is_past_eq today (some max_drawdown) h = absurd (ground arith)
loss_is_past_eq today (some manual_kill) h = absurd (ground arith)

start_day_opens :
    (today : ℕ) (c : Control)
    → is_running c.status ≡ false
    → is_running (start_day today c).1.status ≡ true
    → OpensFor (day_starts today) c.status c.pause_reason
unfolding start_day
start_day_opens today c h k =
    elim (Bool-cases (is_paused c.status && loss_is_past today c.pause_reason)) [
      | inl p ↦
          let (d, r, past) = loss_is_past_eq today c.pause_reason (ground arith) in
          (paused_eq c.status (ground arith), d, r, past)
      | inr p ↦ absurd (ground arith)
    ]

check_deadman_opens :
    (healthy : Option Bool) (c : Control)
    → is_running c.status ≡ false
    → is_running (check_deadman healthy c).1.status ≡ true
    → (c.status ≡ paused) × (c.pause_reason ≡ some deadman) × (healthy ≡ some true)
unfolding check_deadman
check_deadman_opens none c h k = absurd (ground arith)
check_deadman_opens (some healthy) c h k =
    let (good, p) = auto_pause_opens deadman (not healthy) deadman_bad deadman_good c h k in
    let (s, r) = paused_for_eq deadman c p in (s, r, ground arith)

live_checks_opens :
    (ok : Bool) (healthy : Option Bool) (c : Control)
    → is_running c.status ≡ false
    → is_running (live_checks ok healthy c).1.status ≡ true
    → OpensFor (checks ok healthy) c.status c.pause_reason
unfolding live_checks
live_checks_opens ok healthy c h k =
    let first = (auto_pause reconcile (not ok) reconcile_bad reconcile_good c).1 in
    elim (Bool-cases (is_running first.status)) [
      | inl opened ↦
          let (good, p) =
            auto_pause_opens reconcile (not ok) reconcile_bad reconcile_good c h opened in
          let (s, r) = paused_for_eq reconcile c p in (s, inl (r, ground arith))
      | inr closed ↦
          let same = auto_pause_same reconcile (not ok) reconcile_bad reconcile_good c h closed in
          let (s, r, good) =
            check_deadman_opens healthy c h
              (subst (λ x. is_running (check_deadman healthy x).1.status ≡ true) same k) in
          (s, inr (r, good))
    ]

-- If a step makes an agent run that was not running, then it is the owner's command to resume, or it
-- shows that the reason of the pause is gone: the clock is within its bound after a pause for the
-- clock, another day starts after a pause for the loss of a day, the reconciliation succeeds after a
-- pause for the reconciliation, or the deadman switch is healthy after a pause for the switch.
pub step-OpensFor :
    (e : Event) (c : Control)
    → is_running c.status ≡ false
    → is_running (step e c).status ≡ true
    → OpensFor e c.status c.pause_reason
unfolding step update_clock pause kill apply_triggers
step-OpensFor (clock_read none m) c h k = absurd (ground arith)
step-OpensFor (clock_read (some o) m) c h k =
    let (good, p) = auto_pause_opens clock (ltb m o) clock_bad clock_good c h k in
    let (s, r) = paused_for_eq clock c p in (s, r, ground arith)
step-OpensFor (day_starts today) c h k = start_day_opens today c h k
step-OpensFor (checks ok healthy) c h k = live_checks_opens ok healthy c h k
step-OpensFor (triggers halt daily today) c h k = absurd (ground arith)
step-OpensFor pause_command c h k = absurd (ground arith)
step-OpensFor kill_command c h k = absurd (ground arith)
step-OpensFor (resume_command eq) c h k = tt
