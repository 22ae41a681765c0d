-- ===== src/Store/Migrations/Levels.antt =====
-- The second half of internal/chain/migrate_v2.go: a chain with a flat list of nodes gets levels, an entry
-- profile, and on each entry node an inbound with the credentials it had. The log and the audit entries are
-- left out; `now` is `timeNow()`.
pub mod Order
pub mod Shape
pub mod Entries
use angry_box.Prelude.{
  ℕ, zero, suc, ◌+◌, String, Bool, true, false, not, ◌&&◌, ◌||◌, List, [], ◌∷◌, ◌++◌, map, Option,
  none, some, ◌=s◌, ◌==◌, if◌then◌else◌, any, first, has_key, is_empty,
}
use angry_box.Prelude.Decimal.{decimal, ◌+s◌}
use angry_box.Model.Base.{Time}
use angry_box.Model.Chain.{Chain, ChainLevel, ChainNode, InboundProfile}
use angry_box.Model.Panel.{NodeInbound, NodeInfo}
use angry_box.Model.Levels.{is_levelized}
use angry_box.Entry.{chain_user_port, chain_entry_port}
use angry_box.Store.{StoreFile}
use angry_box.Store.Nodes.{empty_node_info}
use angry_box.Store.Hosts.{info_id}
use angry_box.Store.Profiles.{profile_id}

pub data Part : Type 0 where
  entry transit exit : Part

-- The switch of the partition, for the node at index `i`.
unfoldable pub part_of : ℕ → ChainNode → Part
part_of i n =
    if n.role =s "exit"
    then exit
    else if n.role =s "entry" || n.role =s "" && i == 0
    then entry
    else transit

abbrev pub is_part : Part → Part → Bool
is_part entry entry = true
is_part entry transit = false
is_part entry exit = false
is_part transit entry = false
is_part transit transit = true
is_part transit exit = false
is_part exit entry = false
is_part exit transit = false
is_part exit exit = true

-- The nodes at the indices of a part (`entryIdx`, `transitIdx`, `exitIdx`).
abbrev pub nodes_of : Part → ℕ → List ChainNode → List ChainNode
nodes_of p i [] = []
nodes_of p i (n ∷ ns) =
    let rest = nodes_of p (suc i) ns in if is_part p (part_of i n) then n ∷ rest else rest

-- `n.InboundRef = profileID` on the entry nodes.
abbrev pub set_refs : String → ℕ → List ChainNode → List ChainNode
set_refs pid i [] = []
set_refs pid i (n ∷ ns) =
    (if is_part entry (part_of i n) then record n { inbound_ref = pid } else n)
    ∷ set_refs pid (suc i) ns

-- The groups of nodes, in the order of their levels.
abbrev pub group_if : List ChainNode → List (List ChainNode)
group_if [] = []
group_if (n ∷ ns) = (n ∷ ns) ∷ []

abbrev pub level_groups : List ChainNode → List (List ChainNode)
level_groups ns =
    group_if (nodes_of entry 0 ns)
    ++ (map (λ n. n ∷ []) (nodes_of transit 0 ns) ++ group_if (nodes_of exit 0 ns))

-- `mkLevel`, for the groups from the `k`-th on.
abbrev pub make_levels : ℕ → List (List ChainNode) → List ChainLevel
make_levels k [] = []
make_levels k (g ∷ gs) =
    record { id = "l" +s decimal k; strategy = ""; nodes = g } ∷ make_levels (suc k) gs

abbrev pub entry_profile_id : Chain → String
entry_profile_id c = "chain-entry-" +s c.name

abbrev pub entry_protocol : Chain → String
entry_protocol c = if c.user_protocol =s "" then "awg" else c.user_protocol

abbrev pub entry_profile : Time → Chain → InboundProfile
entry_profile now c = record {
  id = entry_profile_id c;
  name = c.name +s " entry";
  protocol = entry_protocol c;
  port = chain_user_port c;
  obfuscation = c.obfuscation_profile;
  awg_cps_capture_domain = c.awg_cps_capture_domain;
  awg_cps_mimicry = "";
  awg_cps_level = 0;
  awg_cps_i1 = "";
  awg_cps_i2 = "";
  awg_cps_i3 = "";
  awg_cps_i4 = "";
  awg_cps_i5 = "";
  awg_h1 = "";
  awg_h2 = "";
  awg_h3 = "";
  awg_h4 = "";
  awg_cps_captured_domain = "";
  awg_cps_capture_failed_domain = "";
  awg_version = "";
  awg3_mode = false;
  awg3_header_protection_key = "";
  awg3_content_padding_addition = "";
  awg3_rekey_after_time = "";
  mieru_transport = "";
  server_name = "";
  created_at = now;
}

abbrev pub add_entry_profile : Time → Chain → List InboundProfile → List InboundProfile
add_entry_profile now c ps =
    if has_key profile_id (entry_profile_id c) ps then ps else ps ++ entry_profile now c ∷ []

-- The inbound before the switch on the protocol.
abbrev pub plain_inbound : Chain → ChainNode → String → NodeInbound
plain_inbound c n pid = record {
  protocol = entry_protocol c;
  port = chain_entry_port c n.id;
  obfuscation = c.obfuscation_profile;
  for_users = [];
  outbound_tag = "";
  source = "chain:" +s c.name;
  tag = pid;
  profile_id = pid;
  uuid = "";
  server_priv_key = "";
  server_pub_key = "";
  short_id = "";
  server_name = "";
  obfs_password = "";
  tls_certificate = "";
  tls_private_key = "";
  awg_client_pub = "";
  awg_client_priv = "";
  awg_server_address = "";
  awg_cps_level = 0;
  awg_cps_mimicry = "";
  awg_cps_i1 = "";
  awg_cps_i2 = "";
  awg_cps_i3 = "";
  awg_cps_i4 = "";
  awg_cps_i5 = "";
  awg_h1 = "";
  awg_h2 = "";
  awg_h3 = "";
  awg_h4 = "";
  awg_version = "";
  awg3_mode = false;
  awg3_header_protection_key = "";
  awg3_content_padding_addition = "";
  awg3_rekey_after_time = "";
  mieru_transport = "";
}

-- The inbound that `materializeChainEntryInbound` appends.
abbrev pub chain_entry_inbound : Chain → ChainNode → String → NodeInbound
chain_entry_inbound c n pid =
    let ib = plain_inbound c n pid in
    if entry_protocol c =s "awg"
    then record ib {
      server_priv_key = c.awg_entry_server_priv;
      server_pub_key = c.awg_entry_server_pub;
      awg_server_address = "10.8.0.1/24";
      awg_cps_level = c.awg_cps_level;
      awg_cps_mimicry = c.awg_cps_mimicry;
      awg_cps_i1 = c.awg_cps_i1;
      awg_cps_i2 = c.awg_cps_i2;
      awg_cps_i3 = c.awg_cps_i3;
      awg_cps_i4 = c.awg_cps_i4;
      awg_cps_i5 = c.awg_cps_i5;
      awg_h1 = c.awg_h1;
      awg_h2 = c.awg_h2;
      awg_h3 = c.awg_h3;
      awg_h4 = c.awg_h4;
    }
    else if entry_protocol c =s "tuic"
    then record ib { uuid = c.tuic_entry_user_uuid }
    else record ib { uuid = n.transit_uuid }

abbrev pub has_inbound : String → NodeInfo → Bool
has_inbound pid ni = any (λ (ib : NodeInbound). ib.tag =s pid || ib.profile_id =s pid) ni.inbounds

-- `materializeChainEntryInbound`
unfoldable pub materialize_chain_entry_inbound : Chain → ChainNode → String → NodeInfo → NodeInfo
materialize_chain_entry_inbound c n pid ni =
    if has_inbound pid ni
    then ni
    else record ni { inbounds = ni.inbounds ++ chain_entry_inbound c n pid ∷ [] }

-- The record made for an entry node that has none.
abbrev pub minimal_info : ChainNode → NodeInfo
minimal_info n = record empty_node_info {
  host = record { id = n.id; addr = n.addr; user = n.user; key_path = n.key_path };
}

-- The record that `findNodeInfoByID` finds, or the one made where there is none, materialized in place.
unfoldable pub materialize_on : Chain → String → ChainNode → List NodeInfo → List NodeInfo
materialize_on c pid n [] = materialize_chain_entry_inbound c n pid (minimal_info n) ∷ []
materialize_on c pid n (ni ∷ nis) =
    let rest = materialize_on c pid n nis in
    if info_id ni =s n.id then materialize_chain_entry_inbound c n pid ni ∷ nis else ni ∷ rest

abbrev pub materialize_all : Chain → String → List ChainNode → List NodeInfo → List NodeInfo
materialize_all c pid [] nis = nis
materialize_all c pid (n ∷ ns) nis = materialize_all c pid ns (materialize_on c pid n nis)

-- `c` after the migration.
abbrev pub levelled : Chain → Chain
levelled c =
    let ns = set_refs (entry_profile_id c) 0 c.nodes in
    record c { nodes = ns; levels = make_levels 0 (level_groups ns) }

-- `migrateChainToLevels`: the chain and the file's profiles and node records.
unfoldable pub migrate_chain_to_levels : Time → Chain → StoreFile → Chain × StoreFile
migrate_chain_to_levels now c sf = if is_levelized c || is_empty c.nodes then (c, sf) else (
  levelled c,
  record sf {
    inbound_profiles = add_entry_profile now c sf.inbound_profiles;
    node_infos =
        materialize_all c (entry_profile_id c)
          (nodes_of entry 0 (set_refs (entry_profile_id c) 0 c.nodes)) sf.node_infos;
  },
)

-- The loop of `migrateInboundProfiles` over the chains, which writes each in its place.
abbrev pub migrate_chains : Time → List Chain → StoreFile → List Chain × StoreFile
migrate_chains now [] sf = ([], sf)
migrate_chains now (c ∷ cs) sf =
    let r = migrate_chain_to_levels now c sf in
    let rest = migrate_chains now cs r.1 in (r.0 ∷ rest.0, rest.1)
