-- ===== src/Watchdog/Spaced.antt =====
-- agent/ops/watchdog.py: how often the watchdog repeats itself.
use Prim.Native.Nat.{◌+◌, ◌*◌}
use tio_indodax.Prelude.{
  ℕ, String, ◌≡◌, refl, ap, ◌∙◌, ◌<◌, ◌≤◌, true, false, Option, none, some, List, [], ◌∷◌, ◌++◌,
  All, arith, some_of,
}
use tio_indodax.Dict.{Dict, lookup}
use tio_indodax.Watchdog.{WatchdogSettings, Problem, Message, seconds, is_due, stamp, decide}
use tio_indodax.Watchdog.Told.{has_problem, is_alert, is_about, some_of-append, decide_own}

-- Runs of scripts/watchdog.py whose messages are all delivered, each with its problems and its time;
-- all messages, and the last state.
unfoldable pub run : WatchdogSettings → List (List Problem × ℕ) → Dict ℕ → List Message × Dict ℕ
run w [] state = ([], state)
run w ((ps, now) ∷ rounds) state =
    let (msgs, next) = decide ps state now w in
    let (later, last) = run w rounds next in (msgs ++ later, last)

-- The problem lasts, and an alert about it at `t` need not be repeated.
abbrev pub IsCovered : WatchdogSettings → String → ℕ → List Problem × ℕ → Type 0
IsCovered w k t (ps, now) = (has_problem k ps ≡ true) × (now < t + seconds (w.realert_minutes * 60))

module _ (w : WatchdogSettings) (k : String) where
  about :
      (ps : List Problem) (state : Dict ℕ) (now : ℕ)
      → has_problem k ps ≡ true
      → (some_of (is_about k) (decide ps state now w).0 ≡ is_due w now (lookup k state))
        × (lookup k (decide ps state now w).1 ≡ some (stamp w now (lookup k state)))
  about ps state now h = decide_own k (is_about k) (λ j p. refl) (λ j e. e) w now state ps h

  alerted :
      (ps : List Problem) (state : Dict ℕ) (now : ℕ)
      → has_problem k ps ≡ true
      → is_due w now (lookup k state) ≡ true
      → some_of (is_alert k) (decide ps state now w).0 ≡ true
  alerted ps state now h due =
      (decide_own k (is_alert k) (λ j p. refl) (λ j e. refl) w now state ps h).0 ∙ due

  covered_run :
      (t : ℕ) (rounds : List (List Problem × ℕ)) (state : Dict ℕ)
      → lookup k state ≡ some t
      → All (IsCovered w k t) rounds
      → (some_of (is_about k) (run w rounds state).0 ≡ false)
        × (lookup k (run w rounds state).1 ≡ some t)
  unfolding run
  covered_run t [] state h all = (refl, h)
  covered_run t ((ps, now) ∷ rounds) state h ((lasts, early), all) =
      let (told, kept) = about ps state now lasts in
      let idle : is_due w now (lookup k state) ≡ false = rw h (ground arith) in
      let same : stamp w now (lookup k state) ≡ t = rw h (ground arith) in
      let (silent, last) =
        covered_run t rounds (decide ps state now w).1 (kept ∙ ap some same) all in
      (
        some_of-append (is_about k) (decide ps state now w).0
              (run w rounds (decide ps state now w).1).0
            ∙ rw (told, idle, silent) refl,
        last,
      )

stamp_due :
    (w : WatchdogSettings) (now : ℕ) (o : Option ℕ) → is_due w now o ≡ true → stamp w now o ≡ now
stamp_due w now none h = refl
stamp_due w now (some last) h = rw h refl

-- Let the messages of all runs be delivered. A run that finds a problem for which an alert is due sends it. While the problem lasts and the time
-- from that run is below `realert_minutes`, no message about the problem is sent; the first run after
-- that at or above it, with the problem still there, sends the alert again.
pub alerts_spaced :
    (w : WatchdogSettings) (k : String) (ps : List Problem) (t : ℕ) (state : Dict ℕ)
    (rounds : List (List Problem × ℕ)) (qs : List Problem) (later : ℕ)
    → has_problem k ps ≡ true
    → is_due w t (lookup k state) ≡ true
    → All (IsCovered w k t) rounds
    → has_problem k qs ≡ true
    → t + seconds (w.realert_minutes * 60) ≤ later
    → (some_of (is_alert k) (decide ps state t w).0 ≡ true)
      × (some_of (is_about k) (run w rounds (decide ps state t w).1).0 ≡ false)
      × (some_of (is_alert k) (decide qs (run w rounds (decide ps state t w).1).1 later w).0 ≡ true)
alerts_spaced w k ps t state rounds qs later found due covered lasts late =
    let (told, kept) = about w k ps state t found in
    let (silent, last) =
      covered_run w k t rounds (decide ps state t w).1
        (kept ∙ ap some (stamp_due w t (lookup k state) due)) covered in
    (
      alerted w k ps state t found due,
      silent,
      alerted w k qs (run w rounds (decide ps state t w).1).1 later lasts (rw last (ground arith)),
    )
