-- ===== src/Entry.antt =====
-- The entry nodes of a chain and the ports on which users reach them (internal/chain/merged_config.go).
use angry_box.Prelude.{
  ℕ, ◌+◌, String, Bool, List, [], ◌∷◌, Option, none, some, ◌=s◌, ltb, if◌then◌else◌, keep, length,
  is_empty,
}
use angry_box.Prelude.Decimal.{◌+s◌}
use angry_box.Model.Chain.{Chain, ChainLevel, ChainNode}
use angry_box.Model.Levels.{is_levelized, has_id, index_of}

-- `chainUserPort`, with `defaultUserPort`
unfoldable pub chain_user_port : Chain → ℕ
chain_user_port c = if ltb 0 c.user_entry_port then c.user_entry_port else 8443

abbrev pub first_node : List ChainNode → List ChainNode
first_node [] = []
first_node (n ∷ ns) = n ∷ []

abbrev pub is_entry : ChainNode → Bool
is_entry n = n.role =s "entry"

abbrev pub first_level : List ChainLevel → List ChainNode
first_level [] = []
first_level (lv ∷ lvs) = lv.nodes

-- `chainEntryNodes`
unfoldable pub chain_entry_nodes : Chain → List ChainNode
chain_entry_nodes c =
    if is_levelized c
    then first_level c.levels
    else if is_empty (keep is_entry c.nodes)
    then first_node c.nodes
    else keep is_entry c.nodes

abbrev pub index_or_zero : Option ℕ → ℕ
index_or_zero none = 0
index_or_zero (some i) = i

-- `chainEntryIndex`
unfoldable pub chain_entry_index : Chain → String → ℕ
chain_entry_index c id = index_or_zero (index_of (has_id id) (chain_entry_nodes c))

-- `chainEntryPort`
abbrev pub chain_entry_port : Chain → String → ℕ
chain_entry_port c id = chain_user_port c + chain_entry_index c id

-- `chainUserInboundTag`
unfoldable pub chain_user_inbound_tag : Chain → String → String
chain_user_inbound_tag c id =
    if ltb 1 (length (chain_entry_nodes c))
    then "ch-" +s c.name +s "-user-in-" +s id
    else "ch-" +s c.name +s "-user-in"
