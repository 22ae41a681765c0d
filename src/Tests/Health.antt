-- ===== src/Tests/Health.antt =====
-- The health state machine on short rows of probes, with the default thresholds 3 and 2.
use angry_box.Prelude.{◌≡◌, refl, inr, true, false, List, [], ◌∷◌, arith}
use angry_box.Model.Base.{Time}
use angry_box.Health.{
  ProbeOutcome, default_hysteresis, healthy, unreachable, next_state, run, down, set_node_state,
  good_probe, bad_probe,
}
use angry_box.Health.Hysteresis.{run-escalates, run-recovers}
use angry_box.Samples.{metrics}

abbrev good : ProbeOutcome
good = record { ssh_ok = true; running = true; reason = "" }

abbrev dead : ProbeOutcome
dead = record { ssh_ok = false; running = false; reason = "timeout" }

abbrev stopped : ProbeOutcome
stopped = record { ssh_ok = true; running = false; reason = "inactive" }

abbrev dead_ticks : List (ProbeOutcome × Time)
dead_ticks = (dead, 10) ∷ (dead, 20) ∷ (dead, 30) ∷ []

abbrev good_ticks : List (ProbeOutcome × Time)
good_ticks = (good, 10) ∷ (good, 20) ∷ []

abbrev flapping : List (ProbeOutcome × Time)
flapping = (dead, 10) ∷ (stopped, 20) ∷ (good, 30) ∷ (dead, 40) ∷ (dead, 50) ∷ []

health_tests :
    ((run default_hysteresis (metrics healthy 0) ((stopped, 1) ∷ dead_ticks)).state ≡ unreachable)
    × ((run default_hysteresis (metrics unreachable 5) ((stopped, 1) ∷ [])).state ≡ down)
    × ((set_node_state (metrics unreachable 5) healthy "manual" 9).consecutive_fails ≡ 0)
unfolding run next_state set_node_state good_probe bad_probe
health_tests = (refl, refl, refl)

run-escalates_example : (run default_hysteresis (metrics healthy 0) dead_ticks).state ≡ unreachable
run-escalates_example =
    run-escalates default_hysteresis (dead, 10) ((dead, 20) ∷ (dead, 30) ∷ []) (metrics healthy 0)
      refl refl (refl, (refl, (refl, tt)))

run-recovers_example : (run default_hysteresis (metrics unreachable 5) good_ticks).state ≡ healthy
run-recovers_example =
    run-recovers default_hysteresis good_ticks (metrics unreachable 5)
      ((refl, refl), ((refl, refl), tt)) (inr (inr refl)) (omega arith)
