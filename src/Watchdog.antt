-- ===== src/Watchdog.antt =====
-- agent/ops/watchdog.py: what it finds wrong in a snapshot, and the messages it sends. Times are whole
-- numbers of microseconds; the wording of a problem is left out.
pub mod Told
pub mod Spaced
mod Tests
use Prim.Native.Nat.{◌+◌, ◌-◌, ◌*◌}
use tio_indodax.Prelude.{
  ℕ, String, Bool, true, false, not, ◌&&◌, ◌||◌, Option, none, some, List, [], ◌∷◌, ◌++◌, ltb, leb,
  ltb_ℤ, if◌then◌else◌, str_eq, some_of,
}
use tio_indodax.Decimal.{Decimal, whole}
use tio_indodax.Dict.{Dict, lookup, insert}

-- The fields of `WatchdogSettings` that are read here.
pub record WatchdogSettings : Type 0 where
  pub stale_minutes : ℕ
  pub realert_minutes : ℕ
  pub min_free_disk_mb : ℕ
  pub max_backup_age_hours : ℕ

pub record Problem : Type 0 where
  pub key : String
  pub urgent : Bool

pub record Snapshot : Type 0 where
  pub now : ℕ
  pub heartbeat_ts : Option ℕ
  pub open_positions : ℕ
  pub service_state : Option String
  pub free_disk_mb : Option Decimal
  pub newest_backup : Option ℕ
  pub skills_last_run : Option ℕ
  pub skills_enabled : Bool
  pub skills_failed_units : List String
  pub skills_live_positions : ℕ

abbrev pub seconds : ℕ → ℕ
seconds n = n * 1000000

-- SKILLS_STALE_H
abbrev pub skills_stale_h : ℕ
skills_stale_h = 3

abbrev pub found : String → Bool → List Problem
found key urgent = record { key = key; urgent = urgent } ∷ []

abbrev pub is_exposed : Snapshot → Bool
is_exposed s = ltb 0 s.open_positions

abbrev pub service_problems : Snapshot → Option String → List Problem
service_problems s none = []
service_problems s (some state) =
    if str_eq state "active" then [] else found "service" (is_exposed s)

abbrev pub is_older : Snapshot → ℕ → Option ℕ → Bool
is_older s age none = true
is_older s age (some ts) = ltb age (s.now - ts)

abbrev pub disk_problems : WatchdogSettings → Option Decimal → List Problem
disk_problems w none = []
disk_problems w (some free) =
    if ltb_ℤ free (whole w.min_free_disk_mb) then found "disk" false else []

abbrev has_failed : List String → Bool
has_failed [] = false
has_failed (u ∷ us) = true

abbrev pub skills_problems : Snapshot → List Problem
skills_problems s =
    if s.skills_enabled
      && (has_failed s.skills_failed_units
          || is_older s (seconds (skills_stale_h * 3600)) s.skills_last_run)
    then found "skills" (ltb 0 s.skills_live_positions)
    else []

unfoldable pub detect : Snapshot → WatchdogSettings → List Problem
detect s w =
    service_problems s s.service_state
    ++ (if is_older s (seconds (w.stale_minutes * 60)) s.heartbeat_ts
        then found "stale" (is_exposed s)
        else [])
    ++ disk_problems w s.free_disk_mb
    ++ (if is_older s (seconds (w.max_backup_age_hours * 3600)) s.newest_backup
        then found "backup" false
        else [])
    ++ skills_problems s

pub data Message : Type 0 where
  alert : String → Problem → Message
  recovery : String → Message

-- { p.key: p for p in problems }
unfoldable pub current_of : List Problem → Dict Problem → Dict Problem
unfolding insert
current_of [] d = d
current_of (p ∷ ps) d = current_of ps (insert p.key p d)

abbrev pub is_due : WatchdogSettings → ℕ → Option ℕ → Bool
is_due w now none = true
is_due w now (some last) = leb (last + seconds (w.realert_minutes * 60)) now

-- The new entry of a key.
abbrev pub stamp : WatchdogSettings → ℕ → Option ℕ → ℕ
stamp w now none = now
stamp w now (some last) = if is_due w now (some last) then now else last

unfoldable pub alerts :
    WatchdogSettings → ℕ → Dict ℕ → Dict Problem → Dict ℕ → List Message × Dict ℕ
unfolding lookup insert
alerts w now state [] new_state = ([], new_state)
alerts w now state ((k, p) ∷ ps) new_state =
    let last = lookup k state in
    let (later, written) = alerts w now state ps (insert k (stamp w now last) new_state) in
    ((if is_due w now last then alert k p ∷ later else later), written)

abbrev pub is_missing : Option Problem → Bool
is_missing none = true
is_missing (some p) = false

unfoldable pub recoveries : Dict Problem → Dict ℕ → List Message
unfolding lookup
recoveries current [] = []
recoveries current ((k, t) ∷ state) =
    let later = recoveries current state in
    if is_missing (lookup k current) then recovery k ∷ later else later

unfoldable pub decide : List Problem → Dict ℕ → ℕ → WatchdogSettings → List Message × Dict ℕ
unfolding current_of alerts recoveries
decide problems state now w =
    let current = current_of problems [] in
    let (msgs, new_state) = alerts w now state current [] in
    (msgs ++ recoveries current state, new_state)
