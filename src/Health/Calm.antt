-- ===== src/Health/Calm.antt =====
-- Alternating probes: no flag without a full row of failures (internal/chain/nodehealth.go).
use angry_box.Prelude.{
  ◌&&◌, ◌≤◌, ◌&&◌, ℕ, ◌+◌, ◌≤◌, ◌<◌, ◌≡◌, refl, ◌⊎◌, inl, inr, String, true, false, ◌&&◌, List, [],
  ◌∷◌, arith, ◌=s◌, if◌then◌else◌, Bool-cases,
}
use angry_box.Model.Base.{Time, HysteresisConfig}
use angry_box.Model.Panel.{NodeMetrics}
use angry_box.Health.{
  ProbeOutcome, good_probe, bad_probe, next_state, run, healthy, blocked, suspect, down,
  unreachable, down_after,
}

-- With `c` failing probes just before, no row of failing probes in the ticks reaches `limit`.
abbrev pub IsCalm : ℕ → ℕ → List (ProbeOutcome × Time) → Type 0
IsCalm limit c [] = Unit
IsCalm limit c ((probe, now) ∷ ticks) =
    if probe.ssh_ok && probe.running
    then IsCalm limit 0 ticks
    else (c + 1 < limit) × IsCalm limit (c + 1) ticks

-- The node is neither flagged as failed nor blocked.
abbrev pub IsUp : String → Type 0
IsUp s = ((s =s down) ≡ false) × ((s =s unreachable) ≡ false) × ((s =s blocked) ≡ false)

IsUp-one_of : {s t : String} → IsUp t → (s ≡ t) ⊎ (s ≡ healthy) ⊎ (s ≡ suspect) → IsUp s
IsUp-one_of up (inl e) = rw e up
IsUp-one_of up (inr (inl e)) = rw e (refl, refl, refl)
IsUp-one_of up (inr (inr e)) = rw e (refl, refl, refl)

module _ (cfg : HysteresisConfig) (m : NodeMetrics) (probe : ProbeOutcome) (now : Time) where
  good-holds_up :
      IsUp m.state
      → (probe.ssh_ok && probe.running) ≡ true
      → (((next_state m probe cfg now).0.state ≡ m.state)
          ⊎ ((next_state m probe cfg now).0.state ≡ healthy)
          ⊎ ((next_state m probe cfg now).0.state ≡ suspect))
        × ((next_state m probe cfg now).0.consecutive_fails ≡ 0)
  unfolding next_state good_probe
  good-holds_up up g = ground arith

  bad-holds_up :
      {c : ℕ}
      → IsUp m.state
      → m.consecutive_fails ≤ c
      → (probe.ssh_ok && probe.running) ≡ false
      → c + 1 < down_after cfg
      → (((next_state m probe cfg now).0.state ≡ m.state)
          ⊎ ((next_state m probe cfg now).0.state ≡ healthy)
          ⊎ ((next_state m probe cfg now).0.state ≡ suspect))
        × ((next_state m probe cfg now).0.consecutive_fails ≤ c + 1)
  unfolding next_state bad_probe
  bad-holds_up up le g lt = ground arith

-- A node that is neither down, unreachable nor blocked, with at most `c` failures on record, stays so
-- as long as no row of failing probes reaches the threshold, the first row counted from `c` on,
-- however failures and successes alternate.
run-IsUp :
    (cfg : HysteresisConfig) (ticks : List (ProbeOutcome × Time)) (c : ℕ) (m : NodeMetrics)
    → IsUp m.state
    → m.consecutive_fails ≤ c
    → IsCalm (down_after cfg) c ticks
    → IsUp (run cfg m ticks).state
unfolding run
run-IsUp cfg [] c m up le calm = up
run-IsUp cfg ((probe, now) ∷ ticks) c m up le calm =
    elim (Bool-cases (probe.ssh_ok && probe.running)) [
      | inl g ↦
          let (s', zero') = good-holds_up cfg m probe now up g in
          run-IsUp cfg ticks 0 (next_state m probe cfg now).0 (IsUp-one_of up s') (omega arith)
            (rw g at calm)
      | inr g ↦
          let (lt, calm') =
            (let p : (c + 1 < down_after cfg) × IsCalm (down_after cfg) (c + 1) ticks =
                rw g at calm in
              p) in
          let (s', le') = bad-holds_up cfg m probe now up le g lt in
          run-IsUp cfg ticks (c + 1) (next_state m probe cfg now).0 (IsUp-one_of up s') le' calm'
    ]
