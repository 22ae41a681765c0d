-- ===== src/Store/Chains.antt =====
-- The `chains` table of internal/chain/store.go, and the resolution of a chain's nodes.
pub mod Resolve
use angry_box.Prelude.{
  String, List, [], ◌∷◌, if◌then◌else◌, keep, find_by, upsert, remove_by, has_key,
}
use angry_box.Model.Base.{Host}
use angry_box.Model.Panel.{NodeInfo}
use angry_box.Model.Chain.{Chain, ChainNode}
use angry_box.Model.Levels.{mentions, all_nodes, is_levelized}
use angry_box.Store.Hosts.{get_host}
use angry_box.Store.Nodes.{get_node_info}
use angry_box.Store.{
  StoreFile, chain_not_found, Result, ok, err, Disk, M, new_store_file, update, query, found,
}

abbrev pub chain_name : Chain → String
chain_name c = c.name

-- A chain with levels is written with the flat list that its levels give.
unfoldable pub flattened : Chain → Chain
flattened c = if is_levelized c then record c { nodes = all_nodes c } else c

abbrev pub put_chain : Chain → StoreFile → Result StoreFile
put_chain c sf = ok (record sf { chains = upsert chain_name (flattened c) sf.chains })

-- `SaveChain`
unfoldable pub save_chain : Chain → M (Unit {0})
save_chain c = update (ok new_store_file) (put_chain c)

-- `GetChain`
unfoldable pub get_chain : String → Disk → Result Chain
get_chain name =
    query (err (chain_not_found name))
      (λ sf. found (chain_not_found name) (find_by chain_name name sf.chains))

-- `ListChains`
unfoldable pub list_chains : Disk → Result (List Chain)
list_chains = query (ok []) (λ sf. ok sf.chains)

abbrev pub chains_with : String → Result (List Chain) → Result (List Chain)
chains_with id (ok cs) = ok (keep (mentions id) cs)
chains_with id (err e) = err e

-- `GetChainsForNode`
unfoldable pub get_chains_for_node : String → Disk → Result (List Chain)
unfolding list_chains
get_chains_for_node id d = chains_with id (list_chains d)

abbrev pub drop_chain : String → StoreFile → Result StoreFile
drop_chain name sf =
    if has_key chain_name name sf.chains
    then ok (record sf { chains = remove_by chain_name name sf.chains })
    else err (chain_not_found name)

-- `DeleteChain`
unfoldable pub delete_chain : String → M (Unit {0})
delete_chain name = update (err (chain_not_found name)) (drop_chain name)

-- A stored node with the address and login of its host, and the inbounds of its node record.
abbrev pub with_host : Host → ChainNode → ChainNode
with_host h n = record n { id = h.id; addr = h.addr; user = h.user; key_path = h.key_path }

abbrev pub with_inbounds : Result NodeInfo → ChainNode → ChainNode
with_inbounds (ok info) n = record n { inbounds = info.inbounds }
with_inbounds (err e) n = n

abbrev pub resolve_with : Result Host → Result NodeInfo → ChainNode → Result ChainNode
resolve_with (ok h) info n = ok (with_inbounds info (with_host h n))
resolve_with (err e) info n = err e

abbrev pub resolve_node : Disk → ChainNode → Result ChainNode
resolve_node d n = resolve_with (get_host n.id d) (get_node_info n.id d) n

abbrev pub join : {A : Type 0} → Result A → Result (List A) → Result (List A)
join (err e) r = err e
join (ok a) (err e) = err e
join (ok a) (ok as') = ok (a ∷ as')

-- The loop of `ResolveNodes`: the first node without a host is the error.
unfoldable pub resolve_all : Disk → List ChainNode → Result (List ChainNode)
resolve_all d [] = ok []
resolve_all d (n ∷ ns) = join (resolve_node d n) (resolve_all d ns)

-- `ResolveNodes`
unfoldable pub resolve_nodes : Chain → Disk → Result (List ChainNode)
resolve_nodes c d = resolve_all d (all_nodes c)
