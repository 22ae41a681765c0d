-- ===== src/Tests/Awg.antt =====
-- Material of one inbound, drawn twice, and the confs of one interface.
use angry_box.Prelude.{◌==◌, ◌≡◌, ◌≢◌, refl, String, ◌=s◌, =s_iff, Bool-cases, inl, inr}
use angry_box.Awg.Material.{apply_profile_material_to_inbound}
use angry_box.Awg.Material.Stable.{IsGenerating}
use angry_box.Awg.Material.Redeploy.{apply_profile_material_to_inbound_stable}
use angry_box.Samples.{blank_inbound}
use angry_box.Tests.Deploy.{blank_profile, plain_preset, generators}

generators-IsGenerating : (drawn : String) → drawn ≢ "" → IsGenerating (generators drawn)
generators-IsGenerating drawn h = record {
  silent = λ level version. elim (Bool-cases (level == 0)) [
    | inl off ↦ rw off refl
    | inr on ↦ rw on refl
  ];
  packet = λ level mimicry version on other. elim (Bool-cases (mimicry =s "none")) [
    | inl none ↦ absurd (other ((=s_iff mimicry "none").0 none))
    | inr some ↦ rw (on, some) (h, h)
  ];
  key = h;
}

apply_profile_material_to_inbound_stable_example :
    apply_profile_material_to_inbound
      (generators "second")
      (apply_profile_material_to_inbound
        (generators "first")
        blank_inbound
        blank_profile
        plain_preset)
      blank_profile
      plain_preset
    ≡ apply_profile_material_to_inbound
        (generators "first")
        blank_inbound
        blank_profile
        plain_preset
apply_profile_material_to_inbound_stable_example =
    apply_profile_material_to_inbound_stable (generators "first") (generators "second")
      blank_inbound blank_profile plain_preset (generators-IsGenerating "first" (λ e. cc))
      (generators-IsGenerating "second" (λ e. cc))
