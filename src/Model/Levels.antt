-- ===== src/Model/Levels.antt =====
-- The methods of `Chain` in internal/domain/model/chain.go: a chain is an ordered list of levels, each a
-- group of nodes; a chain of an old store has a flat list of nodes instead.
pub mod Flat
pub mod Search
use angry_box.Prelude.{
  not, true, false, zero, suc, ◌+◌, Option, none, some, [], ◌∷◌, ◌++◌, map, =s_refl, ◌=s◌,
  if◌then◌else◌, first, any, length, take, drop, get_elem?, or_else, ℕ, String, Bool, List,
}
use angry_box.Model.Base.{TransportType, Time}
use angry_box.Model.Chain.{Chain, ChainLevel, ChainNode, Strategy}

-- `len(c.Levels) > 0`
abbrev pub has_levels : List ChainLevel → Bool
has_levels [] = false
has_levels (lv ∷ lvs) = true

-- `IsLevelized`
abbrev pub is_levelized : Chain → Bool
is_levelized c = has_levels c.levels

-- The nodes of the levels, level by level.
abbrev pub level_nodes : List ChainLevel → List ChainNode
level_nodes [] = []
level_nodes (lv ∷ lvs) = lv.nodes ++ level_nodes lvs

-- `AllNodes`
unfoldable pub all_nodes : Chain → List ChainNode
all_nodes c = if is_levelized c then level_nodes c.levels else c.nodes

abbrev pub has_id : String → ChainNode → Bool
has_id id n = n.id =s id

-- The chain holds a node with the identifier (the loops over `c.AllNodes()`).
abbrev pub mentions : String → Chain → Bool
mentions id c = any (has_id id) (all_nodes c)

-- `NodeByID`: the first match of the first level that has one.
abbrev pub node_in_levels : String → List ChainLevel → Option ChainNode
node_in_levels id [] = none
node_in_levels id (lv ∷ lvs) = or_else (first (has_id id) lv.nodes) (node_in_levels id lvs)

unfoldable pub node_by_id : String → Chain → Option ChainNode
node_by_id id c = if is_levelized c then node_in_levels id c.levels else first (has_id id) c.nodes

abbrev pub one_more : Option ℕ → Option ℕ
one_more none = none
one_more (some i) = some (suc i)

-- The position of the first element that passes the test; the source returns -1 for `none`.
abbrev pub index_of {ℓ} : {A : Type ℓ} → (A → Bool) → List A → Option ℕ
index_of test [] = none
index_of test (x ∷ xs) = if test x then some 0 else one_more (index_of test xs)

abbrev pub level_has : String → ChainLevel → Bool
level_has id lv = any (has_id id) lv.nodes

-- `LevelIndexOf`
unfoldable pub level_index_of : String → Chain → Option ℕ
level_index_of id c =
    if is_levelized c then index_of (level_has id) c.levels else index_of (has_id id) c.nodes

abbrev pub nodes_of_level : Option ChainLevel → List ChainNode
nodes_of_level none = []
nodes_of_level (some lv) = lv.nodes

abbrev pub to_list {ℓ} : {A : Type ℓ} → Option A → List A
to_list none = []
to_list (some a) = a ∷ []

abbrev pub next_after : Chain → Option ℕ → List ChainNode
next_after c none = []
next_after c (some i) =
    if is_levelized c
    then nodes_of_level (get_elem? c.levels (suc i))
    else to_list (get_elem? c.nodes (suc i))

-- `NextLevelNodes`
unfoldable pub next_level_nodes : String → Chain → List ChainNode
next_level_nodes id c = next_after c (level_index_of id c)

abbrev pub strategy_of : Option ChainLevel → Strategy
strategy_of none = ""
strategy_of (some lv) = lv.strategy

abbrev pub strategy_at : Chain → Option ℕ → Strategy
strategy_at c none = ""
strategy_at c (some i) = strategy_of (get_elem? c.levels i)

-- `LevelStrategy`
unfoldable pub level_strategy : String → Chain → Strategy
level_strategy id c = if is_levelized c then strategy_at c (level_index_of id c) else c.strategy

-- The inner loop of `SetAllNodes`: the nodes of one level take the next of the flat list; when that
-- is used up they stay. The second result is what is left of the flat list.
abbrev pub refill : List ChainNode → List ChainNode → List ChainNode × List ChainNode
refill [] ns = ([], ns)
refill (old ∷ olds) [] = (old ∷ olds, [])
refill (old ∷ olds) (n ∷ ns) = (n ∷ (refill olds ns).0, (refill olds ns).1)

abbrev pub refill_levels : List ChainLevel → List ChainNode → List ChainLevel
refill_levels [] ns = []
refill_levels (lv ∷ lvs) ns =
    record lv { nodes = (refill lv.nodes ns).0 } ∷ refill_levels lvs (refill lv.nodes ns).1

-- `SetAllNodes`
unfoldable pub set_all_nodes : List ChainNode → Chain → Chain
set_all_nodes ns c =
    if is_levelized c
    then record c { levels = refill_levels c.levels ns }
    else record c { nodes = ns }

-- `EachNode` with a callback that edits the node at a flat index, in its own level.
abbrev pub each_from : (ℕ → ChainNode → ChainNode) → ℕ → List ChainNode → List ChainNode
each_from f i [] = []
each_from f i (n ∷ ns) = f i n ∷ each_from f (suc i) ns

abbrev pub each_level : (ℕ → ChainNode → ChainNode) → ℕ → List ChainLevel → List ChainLevel
each_level f i [] = []
each_level f i (lv ∷ lvs) =
    record lv { nodes = each_from f i lv.nodes } ∷ each_level f (i + length lv.nodes) lvs

unfoldable pub each_node : (ℕ → ChainNode → ChainNode) → Chain → Chain
each_node f c =
    if is_levelized c
    then record c { levels = each_level f 0 c.levels }
    else record c { nodes = each_from f 0 c.nodes }
