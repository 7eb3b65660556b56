-- ===== src/Deadman/Health.antt =====
-- When the switch is healthy, and what the owner is told of it.
use Prim.Native.Nat.{◌+◌}
use tio_indodax.Prelude.{
  ◌∙◌, not, ℕ, ◌≡◌, refl, Bool, true, false, List, [], ◌∷◌, ◌++◌, ltb, leb, ◌==◌, arith,
  if◌then◌else◌, ◌<◌,
}
use mathlib.Core.Path.{subst}
use tio_indodax.Deadman.{
  DeadmanSwitch, open_switch, healthy, Notice, switch_failed, recovered, Answer, accepted, failed,
  missed, beat,
}

-- The switch after a run of heartbeats, and all that was sent.
unfoldable pub beats : DeadmanSwitch → List Answer → List Notice × DeadmanSwitch
beats s [] = ([], s)
beats s (a ∷ later) =
    let (_, sent, next) = beat s a in let (more, last) = beats next later in (sent ++ more, last)

-- The failures since the last heartbeat that was accepted.
unfoldable pub failing : ℕ → List Answer → ℕ
failing n [] = n
failing n (failed ∷ later) = failing (n + 1) later
failing n (accepted at ∷ later) = failing 0 later

-- The notices, read as a state: whether the owner has last been told of a failure.
unfoldable pub told_of_failure : Bool → List Notice → Bool
told_of_failure told [] = told
told_of_failure told (switch_failed ∷ later) = told_of_failure true later
told_of_failure told (recovered ∷ later) = told_of_failure false later

-- The notices go by turns: a failure is only told when none stands, a recovery only when one does.
unfoldable pub Alternates : Bool → List Notice → Type 0
Alternates told [] = Unit
Alternates told (switch_failed ∷ later) = (told ≡ false) × Alternates true later
Alternates told (recovered ∷ later) = (told ≡ true) × Alternates false later

-- Whether the switch stands failed.
abbrev pub stands : DeadmanSwitch → Bool
stands s = leb s.fail_threshold s.failures

-- What is sent keeps the turns, from how the switch stood to how it stands.
abbrev Turn : Bool → Bool → List Notice → List Notice → Type 0
Turn was is sent later =
    Alternates was (sent ++ later)
    × (told_of_failure was (sent ++ later) ≡ told_of_failure is later)

failed-Turn :
    (was is crossing : Bool) (later : List Notice)
    → (crossing ≡ true → (was ≡ false) × (is ≡ true))
    → (crossing ≡ false → was ≡ is)
    → Alternates is later
    → Turn was is (if crossing then switch_failed ∷ [] else []) later
unfolding Alternates told_of_failure
failed-Turn was is true later c n h =
    let (before, after) = c refl in ((before, rw (← after) h), rw after refl)
failed-Turn was is false later c n h = rw (n refl) (h, refl)

recovered-Turn :
    (was is : Bool) (later : List Notice)
    → is ≡ false
    → Alternates is later
    → Turn was is (if was then recovered ∷ [] else []) later
unfolding Alternates told_of_failure
recovered-Turn true is later e h = ((refl, rw (← e) h), rw e refl)
recovered-Turn false is later e h = rw (← e) (h, refl)

-- One heartbeat: its notices go by turns and say how the switch then stands.
beat_told :
    (s : DeadmanSwitch) (a : Answer) (later : List Notice)
    → 0 < s.fail_threshold
    → Alternates (stands (beat s a).2) later
    → Turn (stands s) (stands (beat s a).2) (beat s a).1 later
unfolding beat
beat_told s failed later some_allowed h =
    failed-Turn (stands s) (stands (missed s)) (s.failures + 1 == s.fail_threshold) later
      (λ e. (ground arith, ground arith)) (λ e. ground arith) h
beat_told s (accepted at) later some_allowed h =
    recovered-Turn (stands s) (leb s.fail_threshold 0) later (ground arith) h

threshold-beat : (s : DeadmanSwitch) (a : Answer) → (beat s a).2.fail_threshold ≡ s.fail_threshold
unfolding beat
threshold-beat s failed = refl
threshold-beat s (accepted at) = refl

beats_told :
    (answers : List Answer) (s : DeadmanSwitch)
    → 0 < s.fail_threshold
    → Alternates (stands s) (beats s answers).0
      × (told_of_failure (stands s) (beats s answers).0 ≡ stands (beats s answers).1)
unfolding beats Alternates told_of_failure
beats_told [] s h = (tt, refl)
beats_told (a ∷ later) s h =
    let next = (beat s a).2 in
    let (turns, told) = beats_told later next (rw (threshold-beat s a) h) in
    let (first, then_) = beat_told s a (beats next later).0 h turns in (first, then_ ∙ told)

beats_failures :
    (answers : List Answer) (s : DeadmanSwitch)
    → ((beats s answers).1.failures ≡ failing s.failures answers)
      × ((beats s answers).1.fail_threshold ≡ s.fail_threshold)
unfolding beats failing beat
beats_failures [] s = (refl, refl)
beats_failures (failed ∷ later) s = beats_failures later (missed s)
beats_failures (accepted at ∷ later) s = beats_failures later (beat s (accepted at)).2

not-ltb : (a b : ℕ) → leb b a ≡ not (ltb a b)
not-ltb a b = ground arith

ltb_by : (a b c d : ℕ) → a ≡ c → b ≡ d → ltb a b ≡ ltb c d
ltb_by a b c d e f = rw (e, f) refl

-- After any run of heartbeats from the start, with a threshold above 0: the switch is healthy just
-- when fewer than the threshold have failed since the last that was accepted. The owner has been told
-- of failures and recoveries by turns, and was last told of a failure just when the switch is not
-- healthy.
pub beats-healthy :
    (threshold : ℕ) (answers : List Answer)
    → 0 < threshold
    → (healthy (beats (open_switch threshold) answers).1 ≡ ltb (failing 0 answers) threshold)
      × Alternates false (beats (open_switch threshold) answers).0
      × (told_of_failure false (beats (open_switch threshold) answers).0
          ≡ not (healthy (beats (open_switch threshold) answers).1))
unfolding healthy open_switch
beats-healthy threshold answers h =
    let s = open_switch threshold in
    let (count, same) = beats_failures answers s in
    let (turns, told) = beats_told answers s h in
    let fresh : stands s ≡ false = ground arith in
    (
      ltb_by _ _ _ _ count same,
      subst (λ b. Alternates b (beats s answers).0) fresh turns,
      subst (λ b. told_of_failure b (beats s answers).0 ≡ stands (beats s answers).1) fresh told
          ∙ not-ltb (beats s answers).1.failures (beats s answers).1.fail_threshold,
    )
