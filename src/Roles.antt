-- ===== src/Roles.antt =====
-- `resolveChainRoles` of internal/chain/merged_config.go: what a node is in each of the chains that hold it. The
-- preset of a role, which a table of presets gives, is left out; the level index of a flat chain, -1 in the
-- source, is `none`.
pub mod Next
use angry_box.Prelude.{
  ℕ, suc, ◌+◌, String, Bool, true, false, not, ◌&&◌, ◌||◌, List, [], ◌∷◌, Option, none, some, ◌=s◌,
  ◌==◌, ltb, if◌then◌else◌, length, is_empty, get_elem?,
}
use angry_box.Model.Chain.{Chain, ChainLevel, ChainNode}
use angry_box.Model.Levels.{is_levelized, has_id, has_levels, to_list}

pub record ChainRole : Type 0 where
  pub chain : Chain
  pub node_index : ℕ
  pub node : ChainNode
  pub is_entry : Bool
  pub is_transit : Bool
  pub has_outbound : Bool
  pub level_index : Option ℕ
  pub next_nodes : List ChainNode

-- The first node with the identifier, with its index counted from `i`.
abbrev pub node_at : String → ℕ → List ChainNode → Option (ℕ × ChainNode)
node_at id i [] = none
node_at id i (n ∷ ns) =
    let later = node_at id (suc i) ns in if has_id id n then some (i, n) else later

abbrev pub first_nodes : List ChainLevel → List ChainNode
first_nodes [] = []
first_nodes (lv ∷ lvs) = lv.nodes

-- The role of a node that was found in level `li`, of which `lvs` are the levels after it.
abbrev pub level_role : Chain → ℕ → List ChainLevel → ℕ × ChainNode → ChainRole
level_role c li lvs (i, n) = record {
  chain = c;
  node_index = i;
  node = n;
  is_entry = li == 0;
  is_transit = ltb 0 li && not (n.role =s "exit");
  has_outbound = has_levels lvs;
  level_index = some li;
  next_nodes = first_nodes lvs;
}

abbrev pub or_later :
    Chain → ℕ → List ChainLevel → Option ChainRole → Option (ℕ × ChainNode) → Option ChainRole
or_later c li lvs later none = later
or_later c li lvs later (some p) = some (level_role c li lvs p)

abbrev pub role_in_levels : String → Chain → ℕ → ℕ → List ChainLevel → Option ChainRole
role_in_levels id c li flat [] = none
role_in_levels id c li flat (lv ∷ lvs) =
    or_later c li lvs (role_in_levels id c (suc li) (flat + length lv.nodes) lvs)
      (node_at id flat lv.nodes)

-- The role of the node at index `i` of a flat chain, of which `ns` are the nodes after it.
abbrev pub flat_role : Chain → ℕ → ChainNode → List ChainNode → ChainRole
flat_role c i n ns = record {
  chain = c;
  node_index = i;
  node = n;
  is_entry = n.role =s "entry" || n.role =s "" && i == 0;
  is_transit = n.role =s "transit" || n.role =s "" && ltb 0 i;
  has_outbound = not (is_empty ns);
  level_index = none;
  next_nodes = to_list (get_elem? ns 0);
}

abbrev pub role_in_nodes : String → Chain → ℕ → List ChainNode → Option ChainRole
role_in_nodes id c i [] = none
role_in_nodes id c i (n ∷ ns) =
    let later = role_in_nodes id c (suc i) ns in
    if not (n.id =s id) then later else some (flat_role c i n ns)

-- The body of the loop over the chains.
unfoldable pub role_in : String → Chain → Option ChainRole
role_in id c =
    if is_levelized c then role_in_levels id c 0 0 c.levels else role_in_nodes id c 0 c.nodes

abbrev pub append_role : Option ChainRole → List ChainRole → List ChainRole
append_role none roles = roles
append_role (some r) roles = r ∷ roles

-- `resolveChainRoles`
abbrev pub resolve_chain_roles : String → List Chain → List ChainRole
resolve_chain_roles id [] = []
resolve_chain_roles id (c ∷ cs) = append_role (role_in id c) (resolve_chain_roles id cs)
