-- ===== src/Health/Hysteresis.antt =====
-- Hysteresis: how many probes in a row it takes to flag a node and to clear it again.
use angry_box.Prelude.{
  ◌≤◌, ◌∙◌, ap, ◌+◌, ◌≤◌, ◌<◌, ◌≡◌, refl, ◌⊎◌, inl, inr, String, true, false, List, [], ◌∷◌, arith,
  ◌=s◌, All, length, ltb, if◌then◌else◌, Bool-cases, ltb→lt, ltb→le,
}
use angry_box.Model.Base.{Time, HysteresisConfig}
use angry_box.Model.Panel.{NodeMetrics}
use angry_box.Health.{
  ProbeOutcome, good_probe, bad_probe, next_state, run, healthy, blocked, suspect, unknown, down,
  unreachable, down_after, recover_after,
}

-- The probe found the host dead (`!probe.SSHOK`).
abbrev pub IsDead : ProbeOutcome × Time → Type 0
IsDead t = t.0.ssh_ok ≡ false

-- The probe found the service running.
abbrev pub IsGood : ProbeOutcome × Time → Type 0
IsGood t = (t.0.ssh_ok ≡ true) × (t.0.running ≡ true)

-- Equal states answer the machine's tests alike.
pub same_tests :
    {s t : String}
    → s ≡ t
    → ((s =s blocked) ≡ (t =s blocked))
      × ((s =s healthy) ≡ (t =s healthy))
      × ((s =s "") ≡ (t =s ""))
      × ((s =s unknown) ≡ (t =s unknown))
      × ((s =s suspect) ≡ (t =s suspect))
      × ((s =s down) ≡ (t =s down))
      × ((s =s unreachable) ≡ (t =s unreachable))
same_tests h = (
  ap (λ s. s =s blocked) h,
  ap (λ s. s =s healthy) h,
  ap (λ s. s =s "") h,
  ap (λ s. s =s unknown) h,
  ap (λ s. s =s suspect) h,
  ap (λ s. s =s down) h,
  ap (λ s. s =s unreachable) h,
)

-- One tick. The proofs compute with the state machine; the inductions below do not.
module _ (cfg : HysteresisConfig) (m : NodeMetrics) (probe : ProbeOutcome) (now : Time) where
  pub dead-unreachable :
      m.state ≡ unreachable
      → probe.ssh_ok ≡ false
      → (next_state m probe cfg now).0.state ≡ unreachable
  unfolding next_state bad_probe
  dead-unreachable h d = ground (arith, same_tests h)

  dead-holds :
      (m.state ≡ healthy) ⊎ (m.state ≡ suspect)
      → probe.ssh_ok ≡ false
      → m.consecutive_fails + 1 < down_after cfg
      → ((next_state m probe cfg now).0.state ≡ suspect)
        × ((next_state m probe cfg now).0.consecutive_fails ≡ m.consecutive_fails + 1)
  unfolding next_state bad_probe
  dead-holds (inl h) d lt = ground (arith, same_tests h)
  dead-holds (inr h) d lt = ground (arith, same_tests h)

  dead-flags :
      (m.state ≡ healthy) ⊎ (m.state ≡ suspect)
      → probe.ssh_ok ≡ false
      → down_after cfg ≤ m.consecutive_fails + 1
      → (next_state m probe cfg now).0.state ≡ unreachable
  unfolding next_state bad_probe
  dead-flags (inl h) d le = ground (arith, same_tests h)
  dead-flags (inr h) d le = ground (arith, same_tests h)

  pub good-healthy :
      m.state ≡ healthy → IsGood (probe, now) → (next_state m probe cfg now).0.state ≡ healthy
  unfolding next_state good_probe
  good-healthy h g = ground (arith, same_tests h)

  good-holds :
      {s : String}
      → m.state ≡ s
      → (s ≡ suspect) ⊎ (s ≡ down) ⊎ (s ≡ unreachable)
      → IsGood (probe, now)
      → m.consecutive_oks + 1 < recover_after cfg
      → ((next_state m probe cfg now).0.state ≡ s)
        × ((next_state m probe cfg now).0.consecutive_oks ≡ m.consecutive_oks + 1)
  unfolding next_state good_probe
  good-holds h (inl e) g lt = ground (arith, same_tests (h ∙ e))
  good-holds h (inr (inl e)) g lt = ground (arith, same_tests (h ∙ e))
  good-holds h (inr (inr e)) g lt = ground (arith, same_tests (h ∙ e))

  good-clears :
      (m.state ≡ suspect) ⊎ (m.state ≡ down) ⊎ (m.state ≡ unreachable)
      → IsGood (probe, now)
      → recover_after cfg ≤ m.consecutive_oks + 1
      → (next_state m probe cfg now).0.state ≡ healthy
  unfolding next_state good_probe
  good-clears (inl e) g lt = ground (arith, same_tests e)
  good-clears (inr (inl e)) g lt = ground (arith, same_tests e)
  good-clears (inr (inr e)) g lt = ground (arith, same_tests e)

-- Runs of like probes.
module _ (cfg : HysteresisConfig) where
  run-stays_unreachable :
      (ticks : List (ProbeOutcome × Time)) (m : NodeMetrics)
      → All IsDead ticks
      → m.state ≡ unreachable
      → (run cfg m ticks).state ≡ unreachable
  unfolding run
  run-stays_unreachable [] m ds h = h
  run-stays_unreachable ((probe, now) ∷ ticks) m (d, ds) h =
      run-stays_unreachable ticks (next_state m probe cfg now).0 ds
        (dead-unreachable cfg m probe now h d)

  run-suspect :
      (ticks : List (ProbeOutcome × Time)) (m : NodeMetrics)
      → All IsDead ticks
      → m.state ≡ suspect
      → m.consecutive_fails < down_after cfg
      → (run cfg m ticks).state ≡ (
          if ltb (m.consecutive_fails + length ticks) (down_after cfg)
          then suspect
          else unreachable)
  unfolding run
  run-suspect [] m ds h lt = ground arith
  run-suspect ((probe, now) ∷ ticks) m (d, ds) h lt =
      let m' = (next_state m probe cfg now).0 in
      ground (
        arith,
        dead-holds cfg m probe now (inr h) d,
        dead-flags cfg m probe now (inr h) d,
        run-suspect ticks m' ds,
        run-stays_unreachable ticks m' ds,
      )

  -- From a healthy node whose failure count is zero, a row of dead probes makes the node suspect as
  -- long as it is shorter than the threshold, and unreachable from there on.
  pub run-escalates :
      (t : ProbeOutcome × Time) (ticks : List (ProbeOutcome × Time)) (m : NodeMetrics)
      → m.state ≡ healthy
      → m.consecutive_fails ≡ 0
      → All IsDead (t ∷ ticks)
      → (run cfg m (t ∷ ticks)).state
        ≡ (if ltb (length (t ∷ ticks)) (down_after cfg) then suspect else unreachable)
  unfolding run
  run-escalates (probe, now) ticks m h z (d, ds) =
      let m' = (next_state m probe cfg now).0 in
      ground (
        arith,
        dead-holds cfg m probe now (inl h) d,
        dead-flags cfg m probe now (inl h) d,
        run-suspect ticks m' ds,
        run-stays_unreachable ticks m' ds,
      )

  run-stays_healthy :
      (ticks : List (ProbeOutcome × Time)) (m : NodeMetrics)
      → All IsGood ticks
      → m.state ≡ healthy
      → (run cfg m ticks).state ≡ healthy
  unfolding run
  run-stays_healthy [] m gs h = h
  run-stays_healthy ((probe, now) ∷ ticks) m (g, gs) h =
      run-stays_healthy ticks (next_state m probe cfg now).0 gs (good-healthy cfg m probe now h g)

  -- A flagged node (suspect, down or unreachable) with a success count below the threshold keeps
  -- its state through a row of good probes until the count reaches the threshold, and is healthy
  -- from there on.
  pub run-recovers :
      (ticks : List (ProbeOutcome × Time)) (m : NodeMetrics)
      → All IsGood ticks
      → (m.state ≡ suspect) ⊎ (m.state ≡ down) ⊎ (m.state ≡ unreachable)
      → m.consecutive_oks < recover_after cfg
      → (run cfg m ticks).state
        ≡ (if ltb (m.consecutive_oks + length ticks) (recover_after cfg) then m.state else healthy)
  unfolding run
  run-recovers [] m gs h lt = ground arith
  run-recovers ((probe, now) ∷ ticks) m (g, gs) h lt =
      elim (Bool-cases (ltb (m.consecutive_oks + 1) (recover_after cfg))) [
        | inl b ↦
            let (same, count) = good-holds cfg m probe now refl h g (ltb→lt _ _ b) in
            ground
              (arith, same, count, run-recovers ticks (next_state m probe cfg now).0 gs (rw same h))
        | inr b ↦ ground (
          arith,
          run-stays_healthy ticks (next_state m probe cfg now).0 gs
              (good-clears cfg m probe now h g (ltb→le _ _ b)),
        )
      ]
