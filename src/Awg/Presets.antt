-- ===== src/Awg/Presets.antt =====
-- Which preset an AmneziaWG inbound is rendered with: internal/chain/presets.go, and the resolvers of
-- awg_inbound_material.go. The table of presets, which the program loads from a file, is an argument. Of a
-- preset the sections of the other protocols and of routing are left out.
use angry_box.Prelude.{ℕ, String, Bool, true, false, not, Option, none, some, ◌=s◌, if◌then◌else◌}
use angry_box.Model.Panel.{NodeInbound}
use angry_box.Awg.{awg_version_2, awg_version_3, inbound_awg_version, is_awg3_family, is_third}

pub record AwgPreset : Type 0 where
  pub jc : ℕ
  pub jmin : ℕ
  pub jmax : ℕ
  pub s1 : ℕ
  pub s2 : ℕ
  pub s3 : ℕ
  pub s4 : ℕ
  pub h1 : ℕ
  pub h2 : ℕ
  pub h3 : ℕ
  pub h4 : ℕ
  pub itime : ℕ
  pub cps_level : ℕ
  pub mimicry : String
  pub i1_packet : String
  pub version : String

pub record ConnectionPreset : Type 0 where
  pub name : String
  pub protocol : String
  pub description : String
  pub awg : Option AwgPreset
  pub cps_level : ℕ
  pub awg_mimicry : String

-- `presets`, and what `GetDefaultPreset` answers.
pub record PresetTable : Type 0 where
  pub get_preset : String → Option ConnectionPreset
  pub default_preset : ConnectionPreset

abbrev pub or_version_2 : String → String
or_version_2 v = if v =s "" then awg_version_2 else v

abbrev pub awg_supports : Option AwgPreset → String → Bool
awg_supports none version = false
awg_supports (some a) version =
    if is_awg3_family (or_version_2 version)
    then or_version_2 a.version =s awg_version_3
    else not (or_version_2 a.version =s awg_version_3)

-- `PresetSupportsAWGVersion`
unfoldable pub preset_supports_awg_version : ConnectionPreset → String → Bool
preset_supports_awg_version p version = awg_supports p.awg version

-- `defaultPresetForAWGVersion`
unfoldable pub default_preset_for_awg_version : String → String
default_preset_for_awg_version version =
    if is_third version then "maximum_stealth_2026_awg3" else "maximum_stealth_2026_awg"

abbrev pub or_preset : ConnectionPreset → Option ConnectionPreset → ConnectionPreset
or_preset p none = p
or_preset p (some q) = q

abbrev pub has_awg : Option AwgPreset → Bool
has_awg none = false
has_awg (some a) = true

module _ (table : PresetTable) where
  abbrev pub version_default : String → Option ConnectionPreset
  version_default version =
      let name = default_preset_for_awg_version version in
      if name =s "" then none else table.get_preset name

  -- `resolveAWGPresetForVersion`
  unfoldable pub resolve_awg_preset_for_version : ConnectionPreset → String → ConnectionPreset
  resolve_awg_preset_for_version preset version =
      if not (has_awg preset.awg)
      then preset
      else if preset_supports_awg_version preset version
      then preset
      else or_preset preset (version_default version)

  abbrev pub named_preset : NodeInbound → Option ConnectionPreset
  named_preset ib = if ib.obfuscation =s "" then none else table.get_preset ib.obfuscation

  abbrev pub standalone_preset : NodeInbound → Option ConnectionPreset → ConnectionPreset
  standalone_preset ib (some p) = resolve_awg_preset_for_version p (inbound_awg_version ib)
  standalone_preset ib none =
      or_preset table.default_preset (version_default (inbound_awg_version ib))

  -- `ResolveStandaloneAWGPreset`
  unfoldable pub resolve_standalone_awg_preset : NodeInbound → ConnectionPreset
  resolve_standalone_awg_preset ib = standalone_preset ib (named_preset ib)

  -- `ResolveChainEntryPreset`, for a listener that is an inbound and for one that is not.
  unfoldable pub resolve_chain_entry_preset :
      ConnectionPreset → Option NodeInbound → ConnectionPreset
  resolve_chain_entry_preset chain_preset none = resolve_awg_preset_for_version chain_preset ""
  resolve_chain_entry_preset chain_preset (some ib) =
      resolve_awg_preset_for_version (or_preset chain_preset (named_preset ib))
        (inbound_awg_version ib)
