-- ===== src/LiveGate.antt =====
-- agent/execution/live_gate.py: the preflight of the live mode. The permission report and the other
-- answers of the exchange are arguments; the lines of information are left out.
pub mod Sound
pub mod Backed
mod Tests
use tio_indodax.Prelude.{
  ℕ, String, Bool, true, false, not, Option, none, some, List, [], ◌∷◌, ◌++◌, map, ltb,
  if◌then◌else◌, ℤ, pos_part, neg_part, some_of, str_eq,
}
use Prim.Native.Nat.{◌+◌}
use tio_indodax.Decimal.{Decimal}
use tio_indodax.Dict.{Dict, keys}
use tio_indodax.Storage.{Database, OrderId}
use tio_indodax.Portfolio.{Portfolio}
use tio_indodax.Deadman.{DeadmanSwitch, Answer, beat}
use tio_indodax.Reconcile.{Balances, OpenOrder, Issue, ReconResult, reconcile}
use tio_indodax.Runner.Days.{DayRow}

pub data Problem : Type 0 where
  no_telegram clock_unknown key_unusable can_withdraw withdraw_unknown deadman_silent : Problem
  preflight_error : Problem
  few_days : ℕ → ℕ → Problem
  clock_off : ℤ → Problem
  not_reconciled : Issue → Problem

-- The settings that the gate reads.
pub record GateSettings : Type 0 where
  pub min_paper_days : ℕ
  pub environment : String
  pub max_clock_offset_ms : ℕ
  pub whitelist : List String

-- The columns of `PermissionReport` that the gate reads.
pub record PermissionReport : Type 0 where
  pub legacy_ok : Option Bool
  pub withdraw_possible : Option Bool

-- What the gate is given: the rows of `daily_pnl` in the paper mode, the measured clock, and the
-- exchange's answers. A permission report that is `none` has raised.
pub record Facts : Type 0 where
  pub telegram_connected : Bool
  pub paper_days : List DayRow
  pub clock_offset_ms : Option ℤ
  pub permissions : Option PermissionReport
  pub heartbeat : Answer
  pub balances : Option Balances
  pub orders_of : String → Option (List OpenOrder)

abbrev has_end : DayRow → Bool
has_end r = elim r.end_equity [ none ↦ false | some _ ↦ true ]

-- `paper_days_recorded`
unfoldable pub completed : List DayRow → ℕ
completed [] = 0
completed (r ∷ rs) = (if has_end r then 1 else 0) + completed rs

abbrev pub telegram_problems : Bool → List Problem
telegram_problems connected = if connected then [] else no_telegram ∷ []

abbrev pub is_demo : GateSettings → Bool
is_demo s = str_eq s.environment "demo"

abbrev pub day_problems : GateSettings → ℕ → List Problem
day_problems s days =
    if is_demo s
    then []
    else if ltb days s.min_paper_days
    then few_days days s.min_paper_days ∷ []
    else []

abbrev pub abs : ℤ → ℕ
abs offset = pos_part offset + neg_part offset

abbrev pub clock_problems : GateSettings → Option ℤ → List Problem
clock_problems s none = clock_unknown ∷ []
clock_problems s (some offset) =
    if ltb s.max_clock_offset_ms (abs offset) then clock_off offset ∷ [] else []

abbrev pub key_problems : Option Bool → List Problem
key_problems (some true) = []
key_problems _ = key_unusable ∷ []

abbrev pub withdraw_problems : Option Bool → List Problem
withdraw_problems (some true) = can_withdraw ∷ []
withdraw_problems none = withdraw_unknown ∷ []
withdraw_problems (some false) = []

abbrev pub heartbeat_problems : Bool → List Problem
heartbeat_problems accepted = if accepted then [] else deadman_silent ∷ []

unfoldable pub without : String → List String → List String
without k [] = []
without k (j ∷ js) = if str_eq j k then without k js else j ∷ without k js

-- list(dict.fromkeys(...))
unfoldable pub distinct : List String → List String
unfolding without
distinct [] = []
distinct (k ∷ ks) = k ∷ without k (distinct ks)

abbrev pub gate_pairs : GateSettings → Portfolio → List String
gate_pairs s pf = distinct (s.whitelist ++ keys pf.positions)

abbrev pub recon_problems : Option ReconResult → Option (List Problem)
recon_problems none = none
recon_problems (some r) = some (map not_reconciled r.issues)

abbrev pub listed_problems :
    GateSettings → Facts → PermissionReport → Bool → Option (List Problem) → Option (List Problem)
listed_problems s facts report accepted none = none
listed_problems s facts report accepted (some issues) = some (
    telegram_problems facts.telegram_connected
    ++ day_problems s (completed facts.paper_days)
    ++ clock_problems s facts.clock_offset_ms
    ++ key_problems report.legacy_ok
    ++ withdraw_problems report.withdraw_possible
    ++ heartbeat_problems accepted
    ++ issues)

-- `_preflight` from its permission report on.
unfoldable pub preflight_of :
    GateSettings
    → (OrderId → Bool)
    → Database
    → Portfolio
    → Facts
    → DeadmanSwitch
    → Option PermissionReport
    → Option (List Problem) × DeadmanSwitch
unfolding distinct
preflight_of s is_ours db pf facts deadman none = (none, deadman)
preflight_of s is_ours db pf facts deadman (some report) =
    let (accepted, notices, beaten) = beat deadman facts.heartbeat in
    let rec = reconcile is_ours facts.balances facts.orders_of db "live" pf (gate_pairs s pf) in
    (listed_problems s facts report accepted (recon_problems rec), beaten)

-- The problems of `_preflight`, and the deadman switch then; `none` where it raises.
abbrev pub preflight :
    GateSettings
    → (OrderId → Bool)
    → Database
    → Portfolio
    → Facts
    → DeadmanSwitch
    → Option (List Problem) × DeadmanSwitch
preflight s is_ours db pf facts deadman =
    preflight_of s is_ours db pf facts deadman facts.permissions

abbrev pub or_error : Option (List Problem) → List Problem
or_error none = preflight_error ∷ []
or_error (some ps) = ps

-- `live_preflight`
unfoldable pub live_preflight :
    GateSettings
    → (OrderId → Bool)
    → Database
    → Portfolio
    → Facts
    → DeadmanSwitch
    → List Problem × DeadmanSwitch
live_preflight s is_ours db pf facts deadman =
    let (problems, beaten) = preflight s is_ours db pf facts deadman in (or_error problems, beaten)

-- `Preflight.ok`
abbrev pub gate_ok : List Problem → Bool
gate_ok [] = true
gate_ok (p ∷ ps) = false
