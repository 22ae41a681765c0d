-- ===== src/Health.antt =====
-- internal/chain/nodehealth.go: the per-node health state machine, one probe at a time.
-- The clock reading (`timeNow()`) is the argument `now`; the metrics record is passed and returned
-- by value (the `nil` receiver, on which the source does nothing, is left out).
pub mod Hysteresis
pub mod Calm
pub mod Stamps
pub mod Flags
use angry_box.Prelude.{
  ℕ, zero, suc, ◌+◌, String, Bool, true, false, not, ◌&&◌, ◌||◌, List, [], ◌∷◌, ◌==◌, ◌=s◌, ltb,
  leb, if◌then◌else◌,
}
use angry_box.Prelude.Int.{ℤ, pos, negsuc}
use angry_box.Model.Base.{Time, HysteresisConfig}
use angry_box.Model.Panel.{NodeMetrics}

abbrev pub healthy : String
healthy = "healthy"

abbrev pub suspect : String
suspect = "suspect"

abbrev pub down : String
down = "down"

abbrev pub unreachable : String
unreachable = "unreachable"

abbrev pub blocked : String
blocked = "blocked"

abbrev pub unknown : String
unknown = "unknown"

abbrev pub default_hysteresis : HysteresisConfig
default_hysteresis = record { down_threshold = pos 3; recover_threshold = pos 2 }

pub record ProbeOutcome : Type 0 where
  pub ssh_ok : Bool
  pub running : Bool
  pub reason : String

-- A threshold that is not positive is replaced by the default.
abbrev pub positive_or : ℤ → ℕ → ℕ
positive_or (pos zero) d = d
positive_or (pos (suc n)) d = suc n
positive_or (negsuc n) d = d

abbrev pub down_after : HysteresisConfig → ℕ
down_after cfg = positive_or cfg.down_threshold 3

abbrev pub recover_after : HysteresisConfig → ℕ
recover_after cfg = positive_or cfg.recover_threshold 2

pub transition : NodeMetrics → String → String → Time → NodeMetrics
transition m state reason now = record m {
  state = state;
  state_reason = reason;
  state_changed_at = now;
}

pub cap_counter : ℕ → ℕ
cap_counter n = if ltb 1000 n then 1000 else n

-- The end of the function, which the branches that do not return early reach.
pub finish : String → NodeMetrics → NodeMetrics × Bool
finish prev m = (
  record m {
    consecutive_fails = cap_counter m.consecutive_fails;
    consecutive_oks = cap_counter m.consecutive_oks;
  },
  not (prev =s m.state),
)

-- `case healthy`
unfoldable pub good_probe : NodeMetrics → ℕ → Time → NodeMetrics × Bool
unfolding transition finish cap_counter
good_probe m0 recover now =
    let prev = m0.state in
    let m = record m0 { consecutive_fails = 0; consecutive_oks = m0.consecutive_oks + 1 } in
    let recovered = finish prev (transition m healthy "" now) in
    if prev =s healthy || prev =s "" || prev =s unknown
    then recovered
    else if ltb m.consecutive_oks recover
    then (m, false)
    else recovered

-- `case !probe.SSHOK` with `target` unreachable and `other` down, and the default case (the
-- service is down) with the two exchanged: the source writes the same branches twice.
unfoldable pub bad_probe : String → String → NodeMetrics → String → ℕ → Time → NodeMetrics × Bool
unfolding transition finish cap_counter
bad_probe target other m0 reason limit now =
    let prev = m0.state in
    let m = record m0 { consecutive_oks = 0; consecutive_fails = m0.consecutive_fails + 1 } in
    let failed = finish prev (transition m target reason now) in
    let suspected = transition m suspect reason now in
    if prev =s target
    then (m, false)
    else if prev =s other
    then (transition m target reason now, true)
    else if prev =s unknown || prev =s ""
    then (if ltb m.consecutive_fails limit
        then (if prev =s "" then (suspected, not (prev =s suspect)) else (m, false))
        else failed)
    else if ltb m.consecutive_fails limit
    then (if prev =s suspect then (m, false) else (suspected, not (prev =s suspect)))
    else failed

-- `NextState`: the metrics after the probe, and whether the state changed.
unfoldable pub next_state :
    NodeMetrics → ProbeOutcome → HysteresisConfig → Time → NodeMetrics × Bool
next_state m probe cfg now =
    if m.state =s blocked
    then (m, false)
    else if probe.ssh_ok && probe.running
    then good_probe m (recover_after cfg) now
    else if not probe.ssh_ok
    then bad_probe unreachable down m probe.reason (down_after cfg) now
    else bad_probe down unreachable m probe.reason (down_after cfg) now

-- `SetNodeState`
unfoldable pub set_node_state : NodeMetrics → String → String → Time → NodeMetrics
set_node_state m state reason now = record m {
  state = state;
  state_reason = reason;
  state_changed_at = now;
  consecutive_fails = 0;
  consecutive_oks = 0;
}

-- The probes of successive ticks of the metrics loop, each with its clock reading.
unfoldable pub run : HysteresisConfig → NodeMetrics → List (ProbeOutcome × Time) → NodeMetrics
run cfg m [] = m
run cfg m ((probe, now) ∷ ticks) = run cfg (next_state m probe cfg now).0 ticks
