-- ===== src/Health/Stamps.antt =====
-- The time stamp and the counters through long rows of like probes.
use angry_box.Prelude.{◌∙◌, ap, ◌+◌, ◌≡◌, refl, false, List, [], ◌∷◌, arith, All, length}
use angry_box.Model.Base.{Time, HysteresisConfig}
use angry_box.Model.Panel.{NodeMetrics}
use angry_box.Health.{ProbeOutcome, good_probe, bad_probe, next_state, run, healthy, unreachable}
use angry_box.Health.Hysteresis.{IsDead, IsGood, same_tests, good-healthy, dead-unreachable}

-- The clock reading of the last tick, or the given one.
abbrev pub last_time : Time → List (ProbeOutcome × Time) → Time
last_time t [] = t
last_time t ((probe, now) ∷ ticks) = last_time now ticks

module _ (cfg : HysteresisConfig) where
  good-stamp :
      (m : NodeMetrics) (probe : ProbeOutcome) (now : Time)
      → m.state ≡ healthy
      → IsGood (probe, now)
      → ((next_state m probe cfg now).0.state_changed_at ≡ now)
        × ((next_state m probe cfg now).1 ≡ false)
  unfolding next_state good_probe
  good-stamp m probe now h g = ground (arith, same_tests h)

  -- Every good probe of a healthy node moves the time at which the state is said to have been
  -- entered: after a row of them it is the last tick's time, though the state never changed.
  run-restamps :
      (ticks : List (ProbeOutcome × Time)) (m : NodeMetrics)
      → All IsGood ticks
      → m.state ≡ healthy
      → ((run cfg m ticks).state ≡ healthy)
        × ((run cfg m ticks).state_changed_at ≡ last_time m.state_changed_at ticks)
  unfolding run
  run-restamps [] m gs h = (h, refl)
  run-restamps ((probe, now) ∷ ticks) m (g, gs) h =
      let (state, stamp) =
        run-restamps ticks (next_state m probe cfg now).0 gs (good-healthy cfg m probe now h g) in
      (state, stamp ∙ ap (λ t. last_time t ticks) (good-stamp m probe now h g).0)

  dead-count :
      (m : NodeMetrics) (probe : ProbeOutcome) (now : Time)
      → m.state ≡ unreachable
      → probe.ssh_ok ≡ false
      → (next_state m probe cfg now).0.consecutive_fails ≡ m.consecutive_fails + 1
  unfolding next_state bad_probe
  dead-count m probe now h d = ground (arith, same_tests h)

  -- While an unreachable node answers no probe the failure count grows by one with every dead probe: the cap of
  -- 1000 at the end of the function is never reached on this branch.
  run-uncapped :
      (ticks : List (ProbeOutcome × Time)) (m : NodeMetrics)
      → All IsDead ticks
      → m.state ≡ unreachable
      → (run cfg m ticks).consecutive_fails ≡ m.consecutive_fails + length ticks
  unfolding run
  run-uncapped [] m ds h = omega arith
  run-uncapped ((probe, now) ∷ ticks) m (d, ds) h = omega (
    arith,
    dead-count m probe now h d,
    run-uncapped ticks (next_state m probe cfg now).0 ds (dead-unreachable cfg m probe now h d),
  )
