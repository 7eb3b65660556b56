-- ===== src/Deadman.antt =====
-- agent/execution/deadman.py. Whether the exchange accepts a heartbeat is an argument, and so is the
-- time; the messages to the owner are values.
pub mod Health
mod Tests
use Prim.Native.Nat.{◌+◌}
use tio_indodax.Prelude.{
  ℕ, Bool, true, false, Option, none, some, List, [], ◌∷◌, ltb, leb, ◌==◌, if◌then◌else◌,
}

pub record DeadmanSwitch : Type 0 where
  pub fail_threshold : ℕ
  pub failures : ℕ
  pub last_ok : Bool
  pub last_ok_at : Option ℕ

unfoldable pub open_switch : ℕ → DeadmanSwitch
open_switch fail_threshold = record {
  fail_threshold = fail_threshold;
  failures = 0;
  last_ok = false;
  last_ok_at = none;
}

unfoldable pub healthy : DeadmanSwitch → Bool
healthy s = ltb s.failures s.fail_threshold

pub data Notice : Type 0 where
  switch_failed recovered : Notice

-- The countdown call was accepted, at a time, or it raised.
pub data Answer : Type 0 where
  accepted : ℕ → Answer
  failed : Answer

abbrev pub missed : DeadmanSwitch → DeadmanSwitch
missed s = record s { failures = s.failures + 1; last_ok = false }

-- The result of `beat`, what it sends, and the switch then.
unfoldable pub beat : DeadmanSwitch → Answer → Bool × List Notice × DeadmanSwitch
beat s failed =
    (false, (if s.failures + 1 == s.fail_threshold then switch_failed ∷ [] else []), missed s)
beat s (accepted at) = (
  true,
  (if leb s.fail_threshold s.failures then recovered ∷ [] else []),
  record s { failures = 0; last_ok = true; last_ok_at = some at },
)
