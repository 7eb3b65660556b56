-- ===== src/Runner/Status.antt =====
-- The status of the agent in agent/runner.py: running, paused for a reason, or halted.
use tio_indodax.Prelude.{
  ℕ, Bool, true, false, not, ◌&&◌, Option, none, some, List, [], ◌∷◌, ◌==◌, ltb, if◌then◌else◌, suc,
}
use tio_indodax.Decimal.{Decimal}
use tio_indodax.Risk.Types.{AgentStatus, running, paused, halted}

-- The texts of a pause: "clock", "reconcile", "deadman", "manual", "max_drawdown", "manual_kill" and
-- "daily_loss:<date>".
pub data PauseReason : Type 0 where
  clock reconcile deadman manual max_drawdown manual_kill : PauseReason
  daily_loss : ℕ → PauseReason

-- What the database keeps of the status, and the peak equity that `resume` resets.
pub record Control : Type 0 where
  pub status : AgentStatus
  pub pause_reason : Option PauseReason
  pub peak_equity : Option Decimal

-- The messages that report a change.
pub data Notice : Type 0 where
  clock_bad clock_good new_day reconcile_bad reconcile_good deadman_bad deadman_good : Notice
  kill_switch daily_stop : Notice

abbrev pub set_status : AgentStatus → Option PauseReason → Control → Control
set_status status reason c = record c { status = status; pause_reason = reason }

abbrev pub is_running : AgentStatus → Bool
is_running running = true
is_running _ = false

abbrev pub is_paused : AgentStatus → Bool
is_paused paused = true
is_paused _ = false

abbrev pub is_halted : AgentStatus → Bool
is_halted halted = true
is_halted _ = false

abbrev pub same_reason : Option PauseReason → PauseReason → Bool
same_reason (some clock) clock = true
same_reason (some reconcile) reconcile = true
same_reason (some deadman) deadman = true
same_reason (some manual) manual = true
same_reason (some max_drawdown) max_drawdown = true
same_reason (some manual_kill) manual_kill = true
same_reason (some (daily_loss d)) (daily_loss e) = d == e
same_reason _ _ = false

abbrev pub paused_for : PauseReason → Control → Bool
paused_for reason c = is_paused c.status && same_reason c.pause_reason reason

-- `_auto_pause` and the tests of `update_clock`: pause entries while a condition is bad, and lift only
-- a pause that was set for that reason.
unfoldable pub auto_pause : PauseReason → Bool → Notice → Notice → Control → Option Notice × Control
auto_pause reason bad bad_msg ok_msg c =
    if bad && is_running c.status
    then (some bad_msg, set_status paused (some reason) c)
    else if not bad && paused_for reason c
    then (some ok_msg, set_status running none c)
    else (none, c)

-- `update_clock`; the offset is in milliseconds, without its sign.
unfoldable pub update_clock : Option ℕ → ℕ → Control → Option Notice × Control
unfolding auto_pause
update_clock none max_offset c = (none, c)
update_clock (some offset) max_offset c =
    auto_pause clock (ltb max_offset offset) clock_bad clock_good c

-- The reason is a daily loss of another day than today.
abbrev pub loss_is_past : ℕ → Option PauseReason → Bool
loss_is_past today (some (daily_loss d)) = not (d == today)
loss_is_past today _ = false

-- The start of `_cycle`.
unfoldable pub start_day : ℕ → Control → Option Notice × Control
start_day today c =
    if is_paused c.status && loss_is_past today c.pause_reason
    then (some new_day, set_status running none c)
    else (none, c)

unfoldable pub check_deadman : Option Bool → Control → Option Notice × Control
unfolding auto_pause
check_deadman none c = (none, c)
check_deadman (some healthy) c = auto_pause deadman (not healthy) deadman_bad deadman_good c

abbrev listed : Option Notice → List Notice → List Notice
listed none ns = ns
listed (some n) ns = n ∷ ns

-- `_live_checks`, from the result of the reconciliation and, where there is a deadman switch, its
-- health.
unfoldable pub live_checks : Bool → Option Bool → Control → List Notice × Control
unfolding auto_pause check_deadman
live_checks recon_ok healthy c =
    let first = auto_pause reconcile (not recon_ok) reconcile_bad reconcile_good c in
    let second = check_deadman healthy first.1 in (listed first.0 (listed second.0 []), second.1)

-- The end of `_cycle`, from the triggers of the risk manager.
unfoldable pub apply_triggers : Bool → Bool → ℕ → Control → Option Notice × Control
apply_triggers halt daily today c =
    if halt && not (is_halted c.status)
    then (some kill_switch, set_status halted (some max_drawdown) c)
    else if daily && is_running c.status
    then (some daily_stop, set_status paused (some (daily_loss today)) c)
    else (none, c)

-- The answers to the owner's commands.
pub data Reply : Type 0 where
  already_halted paused_now already_running killed : Reply
  resumed : AgentStatus → Option Decimal → Reply

unfoldable pub pause : Control → Reply × Control
pause c =
    if is_halted c.status
    then (already_halted, c)
    else (paused_now, set_status paused (some manual) c)

-- The equity of `resume` is there where all positions have a price.
abbrev reset_peak : AgentStatus → Option Decimal → Control → Control
reset_peak halted (some eq) c = record c { peak_equity = some eq }
reset_peak _ _ c = c

abbrev reset_note : AgentStatus → Option Decimal → Option Decimal
reset_note halted eq = eq
reset_note _ eq = none

unfoldable pub resume : Option Decimal → Control → Reply × Control
resume eq c = if is_running c.status then (already_running, c) else (
  resumed c.status (reset_note c.status eq),
  set_status running none (reset_peak c.status eq c),
)

-- The change of the status by `kill`, once the orders are cancelled.
unfoldable pub kill : Control → Reply × Control
kill c = (killed, set_status halted (some manual_kill) c)

-- `run_cycle`: the errors in a row, and whether the owner is told.
unfoldable pub count_errors : Bool → ℕ → Bool × ℕ
count_errors failed errors = if failed then (suc errors == 3, suc errors) else (false, 0)
