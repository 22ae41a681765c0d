-- ===== src/Health/Flags.antt =====
-- The flag that `next_state` returns, the sticky block, and the counters.
use angry_box.Prelude.{
  ap, ℕ, ◌≡◌, refl, ◌⊎◌, ◌≢◌, String, true, false, not, List, [], ◌∷◌, arith, ◌=s◌, =s_iff, =s_refl,
  sym, ◌&&◌,
}
use angry_box.Model.Base.{Time, HysteresisConfig}
use angry_box.Model.Panel.{NodeMetrics}
use angry_box.Health.{
  ProbeOutcome, good_probe, bad_probe, next_state, run, healthy, blocked, down, unreachable,
  down_after, recover_after,
}

good_probe-flag :
    (m : NodeMetrics) (recover : ℕ) (now : Time)
    → (good_probe m recover now).1 ≡ not (m.state =s (good_probe m recover now).0.state)
unfolding good_probe
good_probe-flag m recover now = ground (arith, =s_iff m.state m.state, =s_iff m.state healthy)

bad_probe-flag :
    (target other : String) (m : NodeMetrics) (reason : String) (limit : ℕ) (now : Time)
    → target ≢ other
    → (bad_probe target other m reason limit now).1
      ≡ not (m.state =s (bad_probe target other m reason limit now).0.state)
unfolding bad_probe
bad_probe-flag target other m reason limit now d =
    ground (arith, =s_iff m.state m.state, =s_iff m.state target, =s_iff m.state other)

unreachable-ne-down : unreachable ≢ down
unreachable-ne-down = ground (arith, =s_iff unreachable down)

-- The flag that `NextState` returns says exactly whether the state differs from the one before.
pub next_state-changed :
    (m : NodeMetrics) (probe : ProbeOutcome) (cfg : HysteresisConfig) (now : Time)
    → (next_state m probe cfg now).1 ≡ not (m.state =s (next_state m probe cfg now).0.state)
unfolding next_state
next_state-changed m probe cfg now = ground (
  arith,
  =s_refl m.state,
  good_probe-flag m (recover_after cfg) now,
  bad_probe-flag unreachable down m probe.reason (down_after cfg) now unreachable-ne-down,
  bad_probe-flag down unreachable m probe.reason (down_after cfg) now
      (λ e. unreachable-ne-down (sym e)),
)

-- Whatever is probed, a blocked node keeps its state, its reason and all else.
pub run-blocked :
    (cfg : HysteresisConfig) (m : NodeMetrics) (ticks : List (ProbeOutcome × Time))
    → m.state ≡ blocked
    → run cfg m ticks ≡ m
unfolding run next_state
run-blocked cfg m [] h = refl
run-blocked cfg m ((probe, now) ∷ ticks) h =
    ground (arith, ap (λ (s : String). s =s blocked) h, run-blocked cfg m ticks)

good_probe-fails :
    (m : NodeMetrics) (recover : ℕ) (now : Time)
    → (good_probe m recover now).0.consecutive_fails ≡ 0
unfolding good_probe
good_probe-fails m recover now = ground arith

bad_probe-oks :
    (target other : String) (m : NodeMetrics) (reason : String) (limit : ℕ) (now : Time)
    → (bad_probe target other m reason limit now).0.consecutive_oks ≡ 0
unfolding bad_probe
bad_probe-oks target other m reason limit now = ground arith

-- A probe of a node that is not blocked leaves one of the two counters at zero, the failures after
-- a good probe and the successes after a bad one.
pub next_state-counters :
    (m : NodeMetrics) (probe : ProbeOutcome) (cfg : HysteresisConfig) (now : Time)
    → m.state ≢ blocked
    → ((probe.ssh_ok && probe.running ≡ true)
        × ((next_state m probe cfg now).0.consecutive_fails ≡ 0))
      ⊎ ((probe.ssh_ok && probe.running ≡ false)
          × ((next_state m probe cfg now).0.consecutive_oks ≡ 0))
unfolding next_state
next_state-counters m probe cfg now h = ground (
  arith,
  =s_iff m.state blocked,
  good_probe-fails m (recover_after cfg) now,
  bad_probe-oks unreachable down m probe.reason (down_after cfg) now,
  bad_probe-oks down unreachable m probe.reason (down_after cfg) now,
)
