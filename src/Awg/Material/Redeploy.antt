-- ===== src/Awg/Material/Redeploy.antt =====
-- A profile that is brought to a node again: the inbound keeps its material.
use angry_box.Prelude.{
  ℕ, ◌≡◌, refl, String, false, ◌||◌, inl, inr, arith, ◌==◌, ◌=s◌, Bool-cases, true, ap, sym, ◌∙◌,
}
use angry_box.Model.Panel.{NodeInbound}
use angry_box.Model.Chain.{InboundProfile}
use angry_box.Awg.{profile_awg_version, is_awg3_family}
use angry_box.Awg.Versions.{effective-effective}
use angry_box.Awg.Presets.{ConnectionPreset}
use angry_box.Awg.Material.{
  Generators, request, is_cached, ensure_inbound_awg3_material, ensure_requested,
  ensure_inbound_awg_material, versioned, apply_profile_awg_material,
  apply_profile_material_to_inbound,
}
use angry_box.Awg.Material.Stable.{IsGenerating, ensure_requested_stable}

-- A profile of an older version leaves inbounds of an older version.
family-effective :
    (prof : InboundProfile)
    → (prof.awg3_mode || is_awg3_family prof.awg_version) ≡ false
    → is_awg3_family (profile_awg_version prof) ≡ false
unfolding is_awg3_family
family-effective prof h = elim (Bool-cases prof.awg3_mode) [
  | inl on ↦ absurd (ground (arith, h, on))
  | inr off ↦ rw (off, effective-effective false prof.awg_version) (ground (arith, h, off))
]

versioned-ensure_requested :
    (g : Generators) (ib : NodeInbound) (prof : InboundProfile) (level : ℕ) (mimicry : String)
    → is_awg3_family (profile_awg_version prof) ≡ false
    → versioned prof (ensure_requested g (versioned prof ib) (level, mimicry))
      ≡ ensure_requested g (versioned prof ib) (level, mimicry)
unfolding ensure_inbound_awg3_material
versioned-ensure_requested g ib prof level mimicry h = elim (Bool-cases (level == 0)) [
  | inl off ↦ rw (off, h) refl
  | inr on ↦ elim (Bool-cases (is_cached level mimicry (versioned prof ib))) [
    | inl cached ↦ rw (on, cached, h) refl
    | inr stale ↦ rw (on, stale, h) refl
  ]
]

-- A profile without material of its own has the inbound make it.
material_own :
    (g : Generators) (ib : NodeInbound) (prof : InboundProfile) (preset : ConnectionPreset)
    → (prof.awg_cps_i1 =s "") ≡ true
    → (prof.awg3_mode || is_awg3_family prof.awg_version) ≡ false
    → apply_profile_material_to_inbound g ib prof preset
      ≡ ensure_requested g (versioned prof ib) ((request preset).0, (request preset).1)
unfolding apply_profile_material_to_inbound apply_profile_awg_material ensure_inbound_awg_material
material_own g ib prof preset own older = rw (own, older) refl

-- A profile with material gives all of it again.
material_shared :
    (g g' : Generators) (ib : NodeInbound) (prof : InboundProfile) (preset : ConnectionPreset)
    → (apply_profile_awg_material ib prof).1 ≡ true
    → apply_profile_material_to_inbound g'
        (apply_profile_material_to_inbound g ib prof preset)
        prof
        preset
      ≡ apply_profile_material_to_inbound g ib prof preset
unfolding apply_profile_material_to_inbound apply_profile_awg_material
material_shared g g' ib prof preset h = elim (Bool-cases (prof.awg_cps_i1 =s "")) [
  | inr shared ↦ rw shared refl
  | inl own ↦
      let third : (prof.awg3_mode || is_awg3_family prof.awg_version) ≡ true = rw own at h in
      rw (own, third) refl
]

-- `ApplyProfileMaterialToInbound` of the same profile and preset leaves an inbound that it has gone over once as
-- it is, whatever the generators would draw the second time: generators that draw no packets for the mimicry
-- `none`, for any other and a level that is not 0 a first packet and a header range, and a key.
pub apply_profile_material_to_inbound_stable :
    (g g' : Generators) (ib : NodeInbound) (prof : InboundProfile) (preset : ConnectionPreset)
    → IsGenerating g
    → IsGenerating g'
    → apply_profile_material_to_inbound g'
        (apply_profile_material_to_inbound g ib prof preset)
        prof
        preset
      ≡ apply_profile_material_to_inbound g ib prof preset
unfolding apply_profile_awg_material
apply_profile_material_to_inbound_stable g g' ib prof preset h h' =
    elim (Bool-cases (prof.awg_cps_i1 =s "")) [
      | inr shared ↦ material_shared g g' ib prof preset (rw shared refl)
      | inl own ↦ elim (Bool-cases (prof.awg3_mode || is_awg3_family prof.awg_version)) [
        | inl third ↦ material_shared g g' ib prof preset (rw (own, third) refl)
        | inr older ↦
            let (level, mimicry) = request preset in
            let once = material_own g ib prof preset own older in
            let family = family-effective prof older in
            ap (λ (x : NodeInbound). apply_profile_material_to_inbound g' x prof preset) once
            ∙ material_own g' (ensure_requested g (versioned prof ib) (level, mimicry)) prof preset
                own older
            ∙ ap (λ (x : NodeInbound). ensure_requested g' x (level, mimicry))
                (versioned-ensure_requested g ib prof level mimicry family)
            ∙ ensure_requested_stable g g' (versioned prof ib) level mimicry h h'
            ∙ sym once
      ]
    ]
