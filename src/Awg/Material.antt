-- ===== src/Awg/Material.antt =====
-- The persisted obfuscation material of AmneziaWG inbounds and profiles: internal/chain/awg_inbound_material.go.
-- The generators, which draw random packets, are arguments, and so is the live capture. Levels of the
-- obfuscation are not negative.
pub mod Stable
pub mod Redeploy
use angry_box.Prelude.{
  ℕ, String, Bool, true, not, ◌&&◌, ◌||◌, Option, none, some, ◌==◌, ◌=s◌, ltb, if◌then◌else◌,
}
use angry_box.Model.Panel.{NodeInbound}
use angry_box.Model.Chain.{InboundProfile}
use angry_box.Awg.{inbound_awg_version, is_awg3_family}
use angry_box.Awg.Presets.{AwgPreset, ConnectionPreset}

-- The packets I1 to I5 as texts and the header ranges H1 to H4.
pub record ObfsMaterial : Type 0 where
  pub i1 : String
  pub i2 : String
  pub i3 : String
  pub i4 : String
  pub i5 : String
  pub h1 : String
  pub h2 : String
  pub h3 : String
  pub h4 : String

pub record Awg3Material : Type 0 where
  pub header_protection_key : String
  pub content_padding_addition : String
  pub rekey_after_time : String

-- `GenerateAWGObfsMaterialForVersion` with `CPSMaterialStrings`, and `GenerateAWG3Material`.
pub record Generators : Type 0 where
  pub obfs : ℕ → String → String → ObfsMaterial
  pub awg3 : Awg3Material

-- The level and the mimicry that a preset asks for.
abbrev pub awg_request : Option AwgPreset → ℕ × String
awg_request none = (0, "none")
awg_request (some a) = if ltb 0 a.cps_level then (a.cps_level, a.mimicry) else (0, "none")

abbrev pub request : ConnectionPreset → ℕ × String
request p = if ltb 0 p.cps_level then (p.cps_level, p.awg_mimicry) else awg_request p.awg

abbrev pub with_awg3 : Awg3Material → NodeInbound → NodeInbound
with_awg3 m ib = record ib {
  awg3_header_protection_key = m.header_protection_key;
  awg3_content_padding_addition = m.content_padding_addition;
  awg3_rekey_after_time = m.rekey_after_time;
}

abbrev pub with_obfs : ℕ → String → ObfsMaterial → NodeInbound → NodeInbound
with_obfs level mimicry m ib = record ib {
  awg_cps_level = level;
  awg_cps_mimicry = mimicry;
  awg_cps_i1 = m.i1;
  awg_cps_i2 = m.i2;
  awg_cps_i3 = m.i3;
  awg_cps_i4 = m.i4;
  awg_cps_i5 = m.i5;
  awg_h1 = m.h1;
  awg_h2 = m.h2;
  awg_h3 = m.h3;
  awg_h4 = m.h4;
}

-- The cache of the inbound is for this request.
abbrev pub is_cached : ℕ → String → NodeInbound → Bool
is_cached level mimicry ib =
    not (ib.awg_cps_i1 =s "")
    && not (ib.awg_h1 =s "")
    && (ib.awg_cps_level == level)
    && ib.awg_cps_mimicry =s mimicry

module _ (g : Generators) where
  -- `ensureInboundAWG3Material`
  unfoldable pub ensure_inbound_awg3_material : NodeInbound → NodeInbound
  ensure_inbound_awg3_material ib =
      if not (is_awg3_family (inbound_awg_version ib))
      then ib
      else if not (ib.awg3_header_protection_key =s "")
      then ib
      else with_awg3 g.awg3 ib

  abbrev pub ensure_requested : NodeInbound → ℕ × String → NodeInbound
  ensure_requested ib (level, mimicry) =
      if level == 0
      then ensure_inbound_awg3_material ib
      else if is_cached level mimicry ib
      then ensure_inbound_awg3_material ib
      else ensure_inbound_awg3_material
          (with_obfs level mimicry (g.obfs level mimicry (inbound_awg_version ib)) ib)

  -- `EnsureInboundAWGMaterial`
  unfoldable pub ensure_inbound_awg_material : NodeInbound → ConnectionPreset → NodeInbound
  ensure_inbound_awg_material ib preset = ensure_requested ib (request preset)

abbrev pub versioned : InboundProfile → NodeInbound → NodeInbound
versioned prof ib = record ib {
  awg_version = prof.awg_version;
  awg3_mode = prof.awg3_mode;
  awg3_header_protection_key = prof.awg3_header_protection_key;
  awg3_content_padding_addition = prof.awg3_content_padding_addition;
  awg3_rekey_after_time = prof.awg3_rekey_after_time;
}

abbrev pub with_profile_packets : InboundProfile → NodeInbound → NodeInbound
with_profile_packets prof ib = record ib {
  awg_cps_level = prof.awg_cps_level;
  awg_cps_mimicry = prof.awg_cps_mimicry;
  awg_cps_i1 = prof.awg_cps_i1;
  awg_cps_i2 = prof.awg_cps_i2;
  awg_cps_i3 = prof.awg_cps_i3;
  awg_cps_i4 = prof.awg_cps_i4;
  awg_cps_i5 = prof.awg_cps_i5;
  awg_h1 = prof.awg_h1;
  awg_h2 = prof.awg_h2;
  awg_h3 = prof.awg_h3;
  awg_h4 = prof.awg_h4;
}

-- `applyProfileAWGMaterial`
unfoldable pub apply_profile_awg_material : NodeInbound → InboundProfile → NodeInbound × Bool
apply_profile_awg_material ib prof =
    if prof.awg_cps_i1 =s ""
    then (versioned prof ib, prof.awg3_mode || is_awg3_family prof.awg_version)
    else (with_profile_packets prof (versioned prof ib), true)

abbrev pub or_ensure : Generators → ConnectionPreset → NodeInbound × Bool → NodeInbound
or_ensure g preset (ib, done) = if done then ib else ensure_inbound_awg_material g ib preset

-- `ApplyProfileMaterialToInbound`, with a profile.
unfoldable pub apply_profile_material_to_inbound :
    Generators → NodeInbound → InboundProfile → ConnectionPreset → NodeInbound
apply_profile_material_to_inbound g ib prof preset =
    or_ensure g preset (apply_profile_awg_material ib prof)
