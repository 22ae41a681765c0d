-- ===== src/Relocate/Move.antt =====
-- The writes of `RelocateNode` of internal/chain/relocate.go, before it applies the chains again: the new
-- address goes to the host, to the host in the node record, and to the nodes of the chains. Where a write
-- fails the ones before it stay. The audit entry and the application of the chains are left out.
pub mod Directories
use angry_box.Prelude.{
  ◌≡◌, refl, sym, ap, ◌∙◌, fun_ext, ◌⊎◌, inl, inr, String, Bool, true, false, ◌||◌, List, [], ◌∷◌,
  map, Option, none, some, arith, ◌=s◌, if◌then◌else◌, Bool-cases, upsert,
}
use angry_box.Prelude.Text.{trim_space}
use angry_box.Model.Base.{Host}
use angry_box.Model.Panel.{NodeInfo}
use angry_box.Model.Chain.{Chain, ChainNode}
use angry_box.Model.Levels.{is_levelized, all_nodes}
use angry_box.Store.{StoreError, StoreFile, Result, ok, err, Disk}
use angry_box.Store.Hosts.{save_host, get_host}
use angry_box.Store.Nodes.{save_node_info, get_node_info}
use angry_box.Store.Chains.{chain_name, flattened, put_chain, save_chain, get_chains_for_node}
use angry_box.Store.Machine.{Handler, exec}
use angry_box.Store.Machine.Directory.{Directory, directory, apply, is_accepted, exec-apply}

-- `newAddr`, `newUser` and `newKeyPath`.
pub record Target : Type 0 where
  pub new_addr : String
  pub new_user : String
  pub new_key_path : String

-- An empty value keeps the current one.
abbrev pub or_keep : String → String → String
or_keep old new = if new =s "" then old else new

abbrev pub moved_host : Target → Host → Host
moved_host t h = record h {
  addr = t.new_addr;
  user = or_keep h.user t.new_user;
  key_path = or_keep h.key_path t.new_key_path;
}

abbrev pub moved_node : String → Target → ChainNode → ChainNode
moved_node id t n =
    if n.id =s id
    then record n {
      addr = t.new_addr;
      user = or_keep n.user t.new_user;
      key_path = or_keep n.key_path t.new_key_path;
    }
    else n

-- The loop over `c.Nodes`.
abbrev pub moved_chain : String → Target → Chain → Chain
moved_chain id t c = record c { nodes = map (moved_node id t) c.nodes }

-- The old address and the chains that are to be applied again, or why the relocation stopped.
pub data Outcome : Type 0 where
  refused : Outcome
  failed : StoreError → Outcome
  moved : String → List Chain → Outcome

abbrev pub after_save : Result (Unit {0}) × Disk → (Disk → Outcome × Disk) → Outcome × Disk
after_save (ok u, d) k = k d
after_save (err e, d) k = (failed e, d)

abbrev pub move_chains : String → Target → String → List Chain → List Chain → Disk → Outcome × Disk
move_chains id t old all [] d = (moved old all, d)
move_chains id t old all (c ∷ cs) d =
    after_save (save_chain (moved_chain id t c) d) (move_chains id t old all cs)

abbrev pub move_affected : String → Target → String → Result (List Chain) → Disk → Outcome × Disk
move_affected id t old (err e) d = (failed e, d)
move_affected id t old (ok cs) d = move_chains id t old (map (moved_chain id t) cs) cs d

abbrev pub in_chains : String → Target → String → Disk → Outcome × Disk
in_chains id t old d = move_affected id t old (get_chains_for_node id d) d

-- A node without a record has nothing to pin.
abbrev pub pin_host : String → Target → Host → Result NodeInfo → Disk → Outcome × Disk
pin_host id t h (err e) d = in_chains id t h.addr d
pin_host id t h (ok info) d =
    after_save (save_node_info (record info { host = moved_host t h }) d) (in_chains id t h.addr)

abbrev pub move_found : String → Target → Result Host → Disk → Outcome × Disk
move_found id t (err e) d = (failed e, d)
move_found id t (ok h) d =
    after_save (save_host (moved_host t h) d) (λ d'. pin_host id t h (get_node_info id d') d')

abbrev pub trimmed : Target → Target
trimmed t = record t { new_addr = trim_space t.new_addr }

-- The writes of `RelocateNode`.
unfoldable pub relocate_node : String → Target → Disk → Outcome × Disk
relocate_node id t d =
    if id =s "" || trim_space t.new_addr =s ""
    then (refused, d)
    else move_found id (trimmed t) (get_host id d) d

-- A chain with levels is saved as if its nodes had not been moved: the new address is written to the flat
-- list, which `SaveChain` makes from the levels again.
pub put_chain-moved_chain :
    (id : String) (t : Target) (c : Chain) (sf : StoreFile)
    → is_levelized c ≡ true
    → put_chain (moved_chain id t c) sf ≡ put_chain c sf
unfolding flattened all_nodes
put_chain-moved_chain id t c sf h =
    ap (λ x. ok (record sf { chains = upsert chain_name x sf.chains })) (rw h refl)

abbrev pub is_moved : Outcome → Bool
is_moved refused = false
is_moved (failed e) = false
is_moved (moved old cs) = true
