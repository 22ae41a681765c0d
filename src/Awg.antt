-- ===== src/Awg.antt =====
-- AmneziaWG on the nodes. This file: the protocol versions of internal/domain/model/awg_version.go.
-- Presets and Material: the obfuscation material of inbounds (internal/chain/presets.go and
-- awg_inbound_material.go). Conf, Split and Sync: the configuration of the kernel interface and the peers of a
-- running one (internal/chain/awg_server.go and awg_peersync.go).
pub mod Presets
pub mod Versions
pub mod Material
pub mod Conf
pub mod Split
pub mod Sync
use angry_box.Prelude.{ℕ, String, Bool, true, false, ◌||◌, ◌=s◌, leb, if◌then◌else◌}
use angry_box.Model.Panel.{NodeInbound}
use angry_box.Model.Chain.{InboundProfile}

abbrev pub awg_version_1x : String
awg_version_1x = "1.5"

abbrev pub awg_version_2 : String
awg_version_2 = "2"

abbrev pub awg_version_3 : String
awg_version_3 = "3"

abbrev pub awg_version_31 : String
awg_version_31 = "3.1"

-- `effectiveAWGVersion`
unfoldable pub effective_awg_version : Bool → String → String
effective_awg_version awg3_mode version =
    if version =s awg_version_31
    then awg_version_31
    else if awg3_mode || version =s awg_version_3
    then awg_version_3
    else if version =s awg_version_1x || version =s awg_version_2
    then version
    else awg_version_2

-- `InboundProfile.EffectiveAWGVersion`
abbrev pub profile_awg_version : InboundProfile → String
profile_awg_version p = effective_awg_version p.awg3_mode p.awg_version

-- `NodeInbound.EffectiveAWGVersion`
abbrev pub inbound_awg_version : NodeInbound → String
inbound_awg_version ib = effective_awg_version ib.awg3_mode ib.awg_version

-- `IsKnownAWGVersion`
unfoldable pub is_known_awg_version : String → Bool
is_known_awg_version v =
    v =s awg_version_1x || v =s awg_version_2 || v =s awg_version_3 || v =s awg_version_31

abbrev pub is_third : String → Bool
is_third v = v =s awg_version_3 || v =s awg_version_31

-- `IsAWG3Family`
unfoldable pub is_awg3_family : String → Bool
is_awg3_family v = is_third (effective_awg_version false v)

-- `awgVersionOrder`
unfoldable pub awg_version_order : String → ℕ
awg_version_order v =
    if v =s awg_version_1x
    then 1
    else if v =s awg_version_3
    then 3
    else if v =s awg_version_31
    then 4
    else 2

-- `AWGVersionAtLeast`
unfoldable pub awg_version_at_least : String → String → Bool
awg_version_at_least v floor =
    leb (awg_version_order floor) (awg_version_order (effective_awg_version false v))
