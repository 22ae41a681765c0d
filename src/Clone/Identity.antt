-- ===== src/Clone/Identity.antt =====
-- The parts of internal/chain/clone.go that copy the configuration of inbounds and nodes and give them new keys.
use angry_box.Prelude.{
  ℕ, suc, String, false, not, ◌&&◌, List, [], ◌∷◌, ◌++◌, map, Option, none, some, ◌=s◌,
  if◌then◌else◌, keep,
}
use angry_box.Model.Panel.{NodeInbound, NodeInfo}
use angry_box.Model.Chain.{Chain, ChainNode}
use angry_box.Store.{Disk}
use angry_box.Store.Nodes.{list_node_infos}
use angry_box.Store.Profiles.{ok_or}
use angry_box.Address.{
  is_awg, allocate_awg_server_subnet, allocate_awg_transit_ip, has_server_address,
}

-- What is drawn for one inbound.
pub record InboundIdentity : Type 0 where
  pub uuid : String
  pub tag : Option String
  pub reality : Option (String × String)
  pub short_id : String
  pub obfs_password : String
  pub wireguard : Option (String × String)
  pub certificate : Option (String × String)

-- What is drawn for one chain node.
pub record NodeIdentity : Type 0 where
  pub transit_key : Option String
  pub transit_short_id : String
  pub transit_uuid : String
  pub server_keys : Option (String × String)
  pub client_keys : Option (String × String)
  pub exit_keys : Option (String × String)

abbrev pub or_left : String → Option String → String
or_left old none = old
or_left old (some new) = new

abbrev pub private_of : Option (String × String) → Option String
private_of none = none
private_of (some (priv, pub_key)) = some priv

abbrev pub public_of : Option (String × String) → Option String
public_of none = none
public_of (some (priv, pub_key)) = some pub_key

abbrev pub certified : Option (String × String) → NodeInbound → NodeInbound
certified drawn ib =
    if ib.tls_certificate =s "" && ib.tls_private_key =s "" then ib else record ib {
      tls_certificate = or_left ib.tls_certificate (private_of drawn);
      tls_private_key = or_left ib.tls_private_key (public_of drawn);
    }

-- `regenInboundIdentity`
unfoldable pub regen_inbound_identity : InboundIdentity → NodeInbound → NodeInbound
regen_inbound_identity drawn ib = certified drawn.certificate (record ib {
  uuid = drawn.uuid;
  tag = or_left ib.tag drawn.tag;
  server_priv_key = or_left ib.server_priv_key (private_of drawn.reality);
  server_pub_key = or_left ib.server_pub_key (public_of drawn.reality);
  short_id = drawn.short_id;
  obfs_password = drawn.obfs_password;
  awg_client_priv = or_left ib.awg_client_priv (private_of drawn.wireguard);
  awg_client_pub = or_left ib.awg_client_pub (public_of drawn.wireguard);
})

-- The configuration of an inbound, without any of its keys.
abbrev pub configured : NodeInbound → String → NodeInbound
configured ib address = record {
  protocol = ib.protocol;
  port = ib.port;
  obfuscation = ib.obfuscation;
  for_users = ib.for_users;
  outbound_tag = ib.outbound_tag;
  source = ib.source;
  tag = "";
  profile_id = "";
  uuid = "";
  server_priv_key = "";
  server_pub_key = "";
  short_id = "";
  server_name = "";
  obfs_password = "";
  tls_certificate = "";
  tls_private_key = "";
  awg_client_pub = "";
  awg_client_priv = "";
  awg_server_address = address;
  awg_cps_level = 0;
  awg_cps_mimicry = "";
  awg_cps_i1 = "";
  awg_cps_i2 = "";
  awg_cps_i3 = "";
  awg_cps_i4 = "";
  awg_cps_i5 = "";
  awg_h1 = "";
  awg_h2 = "";
  awg_h3 = "";
  awg_h4 = "";
  awg_version = "";
  awg3_mode = false;
  awg3_header_protection_key = "";
  awg3_content_padding_addition = "";
  awg3_rekey_after_time = "";
  mieru_transport = "";
}

-- The network of the next inbound, and the networks in use after it.
abbrev pub next_subnet : NodeInbound → List String → String
next_subnet ib taken = if is_awg ib then allocate_awg_server_subnet taken else ""

abbrev pub next_taken : NodeInbound → List String → List String
next_taken ib taken = if is_awg ib then taken ++ next_subnet ib taken ∷ [] else taken

module _ (mint : ℕ → InboundIdentity) where
  -- `cloneInbounds`, from the place `i`.
  unfoldable pub clone_inbounds : ℕ → List NodeInbound → List String → List NodeInbound
  clone_inbounds i [] taken = []
  clone_inbounds i (ib ∷ ibs) taken =
      regen_inbound_identity (mint i) (configured ib (next_subnet ib taken))
      ∷ clone_inbounds (suc i) ibs (next_taken ib taken)

abbrev pub inbound_addresses : List NodeInfo → List String
inbound_addresses [] = []
inbound_addresses (ni ∷ nis) =
    map (λ (ib : NodeInbound). ib.awg_server_address) (keep has_server_address ni.inbounds)
    ++ inbound_addresses nis

-- `collectAWGServerSubnets`
unfoldable pub collect_awg_server_subnets : Disk → List String
collect_awg_server_subnets d = inbound_addresses (ok_or [] (list_node_infos d))

-- `transitIPsTaken`
abbrev pub transit_ips_taken : Chain → List String
transit_ips_taken c =
    keep (λ a. not (a =s "")) (map (λ (n : ChainNode). n.transit_awg_address) c.nodes)

abbrev pub with_exit : Option (String × String) → ChainNode → ChainNode
with_exit drawn n =
    if n.role =s "exit"
    then record n {
      exit_awg_server_priv = or_left n.exit_awg_server_priv (private_of drawn);
      exit_awg_server_pub = or_left n.exit_awg_server_pub (public_of drawn);
    }
    else n

abbrev pub short_if : Option String → String → String → String
short_if none old new = old
short_if (some key) old new = new

-- `regenChainNodeIdentity`
unfoldable pub regen_chain_node_identity : NodeIdentity → Chain → ChainNode → ChainNode
regen_chain_node_identity drawn c n = with_exit drawn.exit_keys (record n {
  transit_priv_key = or_left n.transit_priv_key drawn.transit_key;
  transit_short_id = short_if drawn.transit_key n.transit_short_id drawn.transit_short_id;
  transit_uuid = drawn.transit_uuid;
  transit_awg_server_priv = or_left n.transit_awg_server_priv (private_of drawn.server_keys);
  transit_awg_server_pub = or_left n.transit_awg_server_pub (public_of drawn.server_keys);
  transit_awg_client_priv = or_left n.transit_awg_client_priv (private_of drawn.client_keys);
  transit_awg_client_pub = or_left n.transit_awg_client_pub (public_of drawn.client_keys);
  transit_awg_address = allocate_awg_transit_ip (transit_ips_taken c);
})
