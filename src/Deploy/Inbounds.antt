-- ===== src/Deploy/Inbounds.antt =====
-- The inbounds that internal/chain/profile_deploy.go checks, brings up to date and makes.
use angry_box.Prelude.{
  ℕ, String, Bool, false, not, ◌&&◌, ◌||◌, [], Option, none, some, ◌==◌, ◌=s◌, if◌then◌else◌, first,
}
use angry_box.Prelude.Decimal.{◌+s◌}
use angry_box.Model.Panel.{NodeInbound, NodeInfo}
use angry_box.Model.Chain.{InboundProfile}
use angry_box.Address.{allocate_awg_server_subnet, awg_subnets_in_use_on_node}
use angry_box.Awg.Presets.{ConnectionPreset, PresetTable, or_preset, resolve_standalone_awg_preset}
use angry_box.Awg.Material.{Generators, apply_profile_material_to_inbound}

abbrev pub effective_port : NodeInbound → ℕ
effective_port ib = if ib.protocol =s "mtproxy" && (ib.port == 0) then 443 else ib.port

abbrev pub claims : ℕ → String → NodeInbound → Bool
claims port profile_id ib = not (ib.profile_id =s profile_id) && (effective_port ib == port)

-- `inboundPortConflict`, with the inbound that its message names.
unfoldable pub inbound_port_conflict : NodeInfo → ℕ → String → Option NodeInbound
inbound_port_conflict ni port profile_id =
    if port == 0 then none else first (claims port profile_id) ni.inbounds

-- The four plain parameters that a kept inbound takes from its profile.
abbrev pub with_parameters : InboundProfile → NodeInbound → NodeInbound
with_parameters prof ib = record ib {
  port = prof.port;
  obfuscation = prof.obfuscation;
  mieru_transport = prof.mieru_transport;
  server_name = prof.server_name;
}

abbrev pub differs : InboundProfile → NodeInbound → Bool
differs prof ib =
    not (ib.port == prof.port)
    || not (ib.obfuscation =s prof.obfuscation)
    || not (ib.mieru_transport =s prof.mieru_transport)
    || not (ib.server_name =s prof.server_name)

-- What the code compares of the material before and after.
abbrev pub fingerprint : NodeInbound → String
fingerprint ib = ib.awg_cps_i1 +s ib.awg_h1

module _ (table : PresetTable) (g : Generators) where
  abbrev pub with_material : InboundProfile → NodeInbound → NodeInbound
  with_material prof ib =
      apply_profile_material_to_inbound g ib prof (resolve_standalone_awg_preset table ib)

  abbrev pub sync_awg : InboundProfile → Bool → NodeInbound → NodeInbound × Bool
  sync_awg prof changed ib =
      if ib.protocol =s "awg"
      then (
        with_material prof ib,
        changed || not (fingerprint (with_material prof ib) =s fingerprint ib),
      )
      else (ib, changed)

  -- The body of the loop over the inbounds of a kept node, and whether it found a change.
  unfoldable pub sync_inbound : InboundProfile → NodeInbound → NodeInbound × Bool
  sync_inbound prof ib =
      if not (ib.profile_id =s prof.id)
      then (ib, false)
      else sync_awg prof (differs prof ib) (with_parameters prof ib)

-- What the generators draw for one new inbound; `none` where one of them fails.
pub record Minted : Type 0 where
  pub wireguard : Option (String × String)
  pub hop : Option (String × String × String)
  pub hop_public_key : Option String
  pub self_signed : Option (String × String)
  pub stable_uuid : String

abbrev pub Minting : Type 0
Minting = NodeInfo → Minted

abbrev pub blank_materialized : InboundProfile → NodeInbound
blank_materialized prof = record {
  protocol = prof.protocol;
  port = prof.port;
  obfuscation = prof.obfuscation;
  for_users = [];
  outbound_tag = "";
  source = "standalone";
  tag = prof.id;
  profile_id = prof.id;
  uuid = "";
  server_priv_key = "";
  server_pub_key = "";
  short_id = "";
  server_name = prof.server_name;
  obfs_password = "";
  tls_certificate = "";
  tls_private_key = "";
  awg_client_pub = "";
  awg_client_priv = "";
  awg_server_address = "";
  awg_cps_level = 0;
  awg_cps_mimicry = "";
  awg_cps_i1 = "";
  awg_cps_i2 = "";
  awg_cps_i3 = "";
  awg_cps_i4 = "";
  awg_cps_i5 = "";
  awg_h1 = "";
  awg_h2 = "";
  awg_h3 = "";
  awg_h4 = "";
  awg_version = "";
  awg3_mode = false;
  awg3_header_protection_key = "";
  awg3_content_padding_addition = "";
  awg3_rekey_after_time = "";
  mieru_transport = "";
}

abbrev pub deploy_preset : PresetTable → InboundProfile → ConnectionPreset
deploy_preset table prof =
    or_preset table.default_preset
      (if prof.obfuscation =s "" then none else table.get_preset prof.obfuscation)

abbrev pub awg_inbound :
    PresetTable
    → Generators
    → InboundProfile
    → NodeInfo
    → Option (String × String)
    → NodeInbound
    → Option NodeInbound
awg_inbound table g prof ni none ib = none
awg_inbound table g prof ni (some (priv, key)) ib = some (
    apply_profile_material_to_inbound g
      (record ib {
        server_priv_key = priv;
        server_pub_key = key;
        awg_server_address = allocate_awg_server_subnet (awg_subnets_in_use_on_node ni);
      })
      prof (deploy_preset table prof))

abbrev pub reality_inbound :
    Option (String × String × String) → Option String → NodeInbound → Option NodeInbound
reality_inbound none key ib = none
reality_inbound (some (uuid, priv, short)) none ib = none
reality_inbound (some (uuid, priv, short)) (some key) ib =
    some (record ib { uuid = uuid; server_priv_key = priv; short_id = short; server_pub_key = key })

abbrev pub tls_inbound : Option (String × String) → NodeInbound → Option NodeInbound
tls_inbound none ib = none
tls_inbound (some (cert, key)) ib =
    some (record ib { tls_certificate = cert; tls_private_key = key })

-- `buildProfileInbound`; `none` where a generator fails or the protocol is unknown.
unfoldable pub build_profile_inbound :
    PresetTable → Generators → Minted → InboundProfile → NodeInfo → Option NodeInbound
build_profile_inbound table g minted prof ni =
    let ib = blank_materialized prof in
    if prof.protocol =s "awg"
    then awg_inbound table g prof ni minted.wireguard ib
    else if prof.protocol =s "vless-reality"
    then reality_inbound minted.hop minted.hop_public_key ib
    else if prof.protocol =s "naive" || prof.protocol =s "trusttunnel"
    then tls_inbound minted.self_signed ib
    else if prof.protocol =s "mieru"
    then some (record ib {
      mieru_transport = if prof.mieru_transport =s "" then "TCP" else prof.mieru_transport;
    })
    else if prof.protocol =s "mtproxy"
    then some ib
    else if prof.protocol =s "tuic"
    then some (record ib { uuid = minted.stable_uuid })
    else none
