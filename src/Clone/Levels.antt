-- ===== src/Clone/Levels.antt =====
-- A chain with levels and the clone of one of its nodes.
use angry_box.Prelude.{◌≡◌, refl, ap, String, true, List, Option, none, some, upsert, ℕ}
use angry_box.Model.Chain.{Chain, ChainNode}
use angry_box.Model.Levels.{is_levelized, all_nodes}
use angry_box.Store.{new_store_file, ok, Disk, update}
use angry_box.Store.Chains.{chain_name, flattened, save_chain}
use angry_box.Clone.Identity.{InboundIdentity, NodeIdentity}
use angry_box.Clone.{CloneTarget, joined, joined_by, find_chain_node}

module _ (inbound_mint : ℕ → InboundIdentity) (node_mint : String → NodeIdentity) where
  flattened-joined :
      (t : CloneTarget) (taken : List String) (c : Chain) (o : Option ChainNode)
      → is_levelized c ≡ true
      → flattened (joined_by inbound_mint node_mint t taken c o) ≡ flattened c
  unfolding flattened all_nodes
  flattened-joined t taken c none h = refl
  flattened-joined t taken c (some src) h = rw h refl

  chain_name-joined :
      (t : CloneTarget) (taken : List String) (c : Chain) (o : Option ChainNode)
      → chain_name (joined_by inbound_mint node_mint t taken c o) ≡ chain_name c
  chain_name-joined t taken c none = refl
  chain_name-joined t taken c (some src) = refl

  -- Saving a chain with levels to which `CloneNode` has added the clone does what saving the chain without it does,
  -- on every disk: the clone stands in the flat list of nodes, which `SaveChain` makes from the levels again.
  save_chain-joined :
      (id : String) (t : CloneTarget) (taken : List String) (c : Chain) (d : Disk)
      → is_levelized c ≡ true
      → save_chain (joined inbound_mint node_mint id t taken c) d ≡ save_chain c d
  unfolding save_chain
  save_chain-joined id t taken c d h =
      ap
        (λ (x : Chain).
          update (ok new_store_file)
            (λ sf. ok (record sf { chains = upsert chain_name x sf.chains })) d)
        (flattened-joined t taken c (find_chain_node c id) h)
