-- ===== src/Clone.antt =====
-- internal/chain/clone.go: the writes of `CloneNode` to the store, before it applies the chains again. What the key
-- generators draw is an argument: an identity for each inbound by its place, and one for each chain by its name;
-- `none` where a generator fails, which leaves the field empty. The audit entry and the application of the chains
-- are left out.
pub mod Identity
pub mod Subnets
pub mod Kept
pub mod Levels
use angry_box.Clone.Identity.{
  InboundIdentity, NodeIdentity, clone_inbounds, collect_awg_server_subnets,
  regen_chain_node_identity,
}
use angry_box.Prelude.{
  ℕ, suc, String, Bool, true, false, not, ◌&&◌, ◌||◌, List, [], ◌∷◌, ◌++◌, map, Option, none, some,
  ◌=s◌, if◌then◌else◌, first, keep,
}
use angry_box.Prelude.Text.{trim_space}
use angry_box.Model.Base.{Host}
use angry_box.Model.Panel.{NodeInbound, NodeInfo}
use angry_box.Model.Chain.{Chain, ChainNode}
use angry_box.Model.Levels.{has_id}
use angry_box.Store.{StoreError, Result, ok, err, Disk}
use angry_box.Store.Hosts.{get_host, save_host}
use angry_box.Store.Nodes.{get_node_info, save_node_info, list_node_infos, empty_node_info}
use angry_box.Store.Chains.{get_chains_for_node, save_chain}
use angry_box.Store.Profiles.{ok_or}
use angry_box.Address.{
  is_awg, allocate_awg_server_subnet, allocate_awg_transit_ip, has_server_address,
}
use angry_box.Relocate.Move.{or_keep}

-- What `CloneNode` is asked for: the identifier, the address, and a user and a key that may be empty.
pub record CloneTarget : Type 0 where
  pub new_id : String
  pub new_addr : String
  pub new_user : String
  pub new_key_path : String

pub data CloneOutcome : Type 0 where
  refused : CloneOutcome
  exists : CloneOutcome
  failed : StoreError → CloneOutcome
  cloned : List Chain → CloneOutcome

abbrev pub after_save :
    Result (Unit {0}) × Disk → (Disk → CloneOutcome × Disk) → CloneOutcome × Disk
after_save (ok u, d) k = k d
after_save (err e, d) k = (failed e, d)

-- `findChainNode`
abbrev pub find_chain_node : Chain → String → Option ChainNode
find_chain_node c id = first (has_id id) c.nodes

abbrev pub clone_host : CloneTarget → Host
clone_host t = record {
  id = t.new_id;
  addr = t.new_addr;
  user = t.new_user;
  key_path = t.new_key_path;
}

abbrev pub trimmed : CloneTarget → CloneTarget
trimmed t = record t { new_id = trim_space t.new_id; new_addr = trim_space t.new_addr }

-- The user and the key of the source, where none are given.
abbrev pub completed : NodeInfo → CloneTarget → CloneTarget
completed src t = record t {
  new_user = or_keep src.host.user t.new_user;
  new_key_path = or_keep src.host.key_path t.new_key_path;
}

module _ (inbound_mint : ℕ → InboundIdentity) (node_mint : String → NodeIdentity) where
  -- `cloneChainNode`
  unfoldable pub clone_chain_node : ChainNode → Chain → CloneTarget → List String → ChainNode
  clone_chain_node src c t taken = regen_chain_node_identity (node_mint c.name) c (record {
    id = t.new_id;
    addr = t.new_addr;
    user = t.new_user;
    key_path = t.new_key_path;
    port = src.port;
    role = src.role;
    transit_priv_key = "";
    transit_short_id = "";
    transit_uuid = "";
    transit_awg_server_priv = "";
    transit_awg_server_pub = "";
    transit_awg_client_priv = "";
    transit_awg_client_pub = "";
    transit_awg_address = "";
    transit_awg_client_port = 0;
    exit_targets = src.exit_targets;
    exit_awg_links = [];
    exit_awg_server_priv = "";
    exit_awg_server_pub = "";
    exit_awg_listen_port = 0;
    inbound_ref = "";
    inbounds = clone_inbounds inbound_mint 0 src.inbounds taken;
  })

  abbrev pub joined_by : CloneTarget → List String → Chain → Option ChainNode → Chain
  joined_by t taken c none = c
  joined_by t taken c (some src) = record c {
    nodes = c.nodes ++ clone_chain_node src c t taken ∷ [];
  }

  -- The chain with the clone at its end.
  abbrev pub joined : String → CloneTarget → List String → Chain → Chain
  joined id t taken c = joined_by t taken c (find_chain_node c id)

  -- One round of the loop over the chains, with the rest of them.
  abbrev pub join_found :
      String
      → CloneTarget
      → List String
      → Chain
      → (Disk → CloneOutcome × Disk)
      → Option ChainNode
      → Disk
      → CloneOutcome × Disk
  join_found id t taken c rest none d = rest d
  join_found id t taken c rest (some src) d = after_save (save_chain (joined id t taken c) d) rest

  abbrev pub join_chains :
      String → CloneTarget → List String → List Chain → List Chain → Disk → CloneOutcome × Disk
  join_chains id t taken all [] d = (cloned all, d)
  join_chains id t taken all (c ∷ cs) d =
      join_found id t taken c (join_chains id t taken all cs) (find_chain_node c id) d

  abbrev pub clone_info : CloneTarget → List String → NodeInfo → NodeInfo
  clone_info t taken src = record empty_node_info {
    host = clone_host t;
    country = src.country;
    bandwidth = src.bandwidth;
    source = "cloned";
    auto_apply = src.auto_apply;
    use_sudo = src.use_sudo;
    inbounds = clone_inbounds inbound_mint 0 src.inbounds taken;
  }

  abbrev pub in_chains : String → CloneTarget → List String → Disk → CloneOutcome × Disk
  in_chains id t taken d =
      let affected = ok_or [] (get_chains_for_node id d) in
      join_chains id t taken affected affected d

  abbrev pub clone_from :
      String → CloneTarget → List String → Result NodeInfo → Disk → CloneOutcome × Disk
  clone_from id t taken (err e) d = (failed e, d)
  clone_from id t taken (ok src) d =
      let t' = completed src t in
      after_save (save_host (clone_host t') d)
        (λ d1. after_save (save_node_info (clone_info t' taken src) d1) (in_chains id t' taken))

  abbrev pub clone_new : String → CloneTarget → Result Host → Disk → CloneOutcome × Disk
  clone_new id t (ok h) d = (exists, d)
  clone_new id t (err e) d = clone_from id t (collect_awg_server_subnets d) (get_node_info id d) d

  -- The writes of `CloneNode`.
  unfoldable pub clone_node : String → CloneTarget → Disk → CloneOutcome × Disk
  clone_node id t d =
      let t' = trimmed t in
      if id =s "" || t'.new_id =s "" || t'.new_addr =s ""
      then (refused, d)
      else if t'.new_id =s id
      then (refused, d)
      else clone_new id t' (get_host t'.new_id d) d
