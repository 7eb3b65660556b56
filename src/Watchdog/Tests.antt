-- ===== src/Watchdog/Tests.antt =====
-- Runs of the watchdog.
use Prim.Native.Nat.{◌*◌}
use tio_indodax.Prelude.{ℕ, ◌≡◌, refl, Bool, true, false, none, some, List, [], ◌∷◌, arith, some_of}
use tio_indodax.Decimal.{whole, arithmetic}
use tio_indodax.Dict.{lookup, insert}
use tio_indodax.Watchdog.{
  WatchdogSettings, Problem, Snapshot, seconds, detect, alert, recovery, current_of, alerts,
  recoveries, decide,
}
use tio_indodax.Watchdog.Told.{is_alert, is_about}
use tio_indodax.Watchdog.Spaced.{run, alerts_spaced}

whole_watchdog : Bool
unfolding arithmetic lookup insert detect current_of alerts recoveries decide run
whole_watchdog = true

abbrev settings : WatchdogSettings
settings = record {
  stale_minutes = 15;
  realert_minutes = 60;
  min_free_disk_mb = 500;
  max_backup_age_hours = 30;
}

abbrev minute : ℕ → ℕ
minute n = seconds (n * 60)

-- The last cycle was 16 minutes ago, with a position open; the disk is at its minimum.
abbrev snapshot : Snapshot
snapshot = record {
  now = minute 100;
  heartbeat_ts = some (minute 84);
  open_positions = 1;
  service_state = some "active";
  free_disk_mb = some (whole 500);
  newest_backup = some (minute 1);
  skills_last_run = none;
  skills_enabled = false;
  skills_failed_units = [];
  skills_live_positions = 0;
}

abbrev stale : Problem
stale = record { key = "stale"; urgent = true }

abbrev disk : Problem
disk = record { key = "disk"; urgent = false }

detected : detect snapshot settings ≡ stale ∷ []
unfolding whole_watchdog
detected = refl

-- The disk is full in the first run, the cycles stop in it, and the disk is free again in the second.
cleared :
    run settings ((disk ∷ stale ∷ [], minute 100) ∷ (stale ∷ [], minute 105) ∷ []) []
    ≡ (alert "disk" disk ∷ alert "stale" stale ∷ recovery "disk" ∷ [], ("stale", minute 100) ∷ [])
unfolding whole_watchdog
cleared = refl

abbrev rounds : List (List Problem × ℕ)
rounds = (stale ∷ [], minute 105) ∷ (disk ∷ stale ∷ [], minute 159) ∷ []

alerts_spaced_example :
    (some_of (is_alert "stale") (decide (stale ∷ []) [] (minute 100) settings).0 ≡ true)
    × (some_of
          (is_about "stale")
          (run settings rounds (decide (stale ∷ []) [] (minute 100) settings).1).0
        ≡ false)
    × (some_of
          (is_alert "stale")
          (decide
            (stale ∷ [])
            (run settings rounds (decide (stale ∷ []) [] (minute 100) settings).1).1
            (minute 160)
            settings).0
        ≡ true)
unfolding lookup
alerts_spaced_example =
    alerts_spaced settings "stale" (stale ∷ []) (minute 100) [] rounds (stale ∷ []) (minute 160)
      refl refl ((refl, omega arith), ((refl, omega arith), tt)) refl (omega arith)
