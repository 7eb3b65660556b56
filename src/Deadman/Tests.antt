-- ===== src/Deadman/Tests.antt =====
-- Four failures and a recovery, with a threshold of three.
use tio_indodax.Prelude.{◌≡◌, refl, Bool, true, false, not, List, [], ◌∷◌, arith, ltb}
use tio_indodax.Deadman.{
  open_switch, healthy, Answer, accepted, failed, switch_failed, recovered, beat,
}
use tio_indodax.Deadman.Health.{beats, failing, told_of_failure, Alternates, beats-healthy}

whole_switch : Bool
unfolding open_switch healthy beat beats failing told_of_failure
whole_switch = true

abbrev outage : List Answer
outage = accepted 1 ∷ failed ∷ failed ∷ failed ∷ failed ∷ []

outage_notices : (beats (open_switch 3) outage).0 ≡ switch_failed ∷ []
unfolding whole_switch
outage_notices = refl

abbrev recovery : List Answer
recovery = failed ∷ failed ∷ failed ∷ accepted 9 ∷ failed ∷ []

recovery_notices : (beats (open_switch 3) recovery).0 ≡ switch_failed ∷ recovered ∷ []
unfolding whole_switch
recovery_notices = refl

beats-healthy_example :
    (healthy (beats (open_switch 3) outage).1 ≡ ltb (failing 0 outage) 3)
    × Alternates false (beats (open_switch 3) outage).0
    × (told_of_failure false (beats (open_switch 3) outage).0
        ≡ not (healthy (beats (open_switch 3) outage).1))
beats-healthy_example = beats-healthy 3 outage (omega arith)
