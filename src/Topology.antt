-- ===== src/Topology.antt =====
-- `ValidateChainTopology` of internal/chain/strategygroup.go: which chains with levels can be rendered.
use angry_box.Prelude.{
  ℕ, zero, suc, ◌≤◌, ◌≡◌, ap, String, true, not, List, [], ◌∷◌, Option, none, some, ◌==◌, ◌=s◌,
  arith, if◌then◌else◌, length, get_elem?, All, Bool-cases, Option-cases, inl, inr, or_else,
}
use angry_box.Model.Chain.{Chain, ChainLevel, ChainNode}
use angry_box.Model.Levels.{
  is_levelized, next_level_nodes, next_after, level_index_of, nodes_of_level, to_list,
}

-- The level that is wrong, counted from 0, and for a wide level its number of nodes.
pub data TopologyError : Type 0 where
  empty_level : (level : ℕ) → TopologyError
  wide_level : (level nodes : ℕ) → TopologyError

abbrev pub transport_awg : String
transport_awg = "awg"

abbrev pub find_empty : ℕ → List ChainLevel → Option TopologyError
find_empty i [] = none
find_empty i (lv ∷ lvs) =
    let later = find_empty (suc i) lvs in
    if length lv.nodes == 0 then some (empty_level i) else later

abbrev pub find_wide : ℕ → List ChainLevel → Option TopologyError
find_wide i [] = none
find_wide i (lv ∷ lvs) =
    let later = find_wide (suc i) lvs in
    if not (length lv.nodes == 1) then some (wide_level i (length lv.nodes)) else later

-- `ValidateChainTopology`; `none` is a chain that is accepted.
unfoldable pub validate_chain_topology : Chain → Option TopologyError
validate_chain_topology c =
    if not (is_levelized c)
    then none
    else or_else (find_empty 0 c.levels)
        (if c.transport =s transport_awg then find_wide 0 c.levels else none)

find_wide-All :
    (i : ℕ) (lvs : List ChainLevel) → find_wide i lvs ≡ none → All (λ lv. length lv.nodes ≡ 1) lvs
find_wide-All i [] h = tt
find_wide-All i (lv ∷ lvs) h = elim (Bool-cases (length lv.nodes == 1)) [
  | inl one ↦ (ground (arith, one), find_wide-All (suc i) lvs (rw one at h))
  | inr wide ↦ absurd (let h' = rw wide at h in cc)
]

nodes_of_level-le :
    (lvs : List ChainLevel) (i : ℕ)
    → All (λ lv. length lv.nodes ≡ 1) lvs
    → length (nodes_of_level (get_elem? lvs i)) ≤ 1
nodes_of_level-le [] i h = omega arith
nodes_of_level-le (lv ∷ lvs) zero (one, h) = omega (arith, one)
nodes_of_level-le (lv ∷ lvs) (suc i) (one, h) = nodes_of_level-le lvs i h

to_list-le : (o : Option ChainNode) → length (to_list o) ≤ 1
to_list-le none = omega arith
to_list-le (some n) = omega arith

single_levels :
    (c : Chain)
    → is_levelized c ≡ true
    → validate_chain_topology c ≡ none
    → c.transport ≡ transport_awg
    → All (λ lv. length lv.nodes ≡ 1) c.levels
unfolding validate_chain_topology
single_levels c lv ok awg =
    let same : (c.transport =s transport_awg) ≡ true = ap (λ t. t =s transport_awg) awg in
    find_wide-All 0 c.levels (ground (arith, lv, ok, same, Option-cases (find_empty 0 c.levels)))

next_after-le :
    (c : Chain) (o : Option ℕ)
    → validate_chain_topology c ≡ none
    → c.transport ≡ transport_awg
    → length (next_after c o) ≤ 1
next_after-le c none ok awg = omega arith
next_after-le c (some i) ok awg = elim (Bool-cases (is_levelized c)) [
  | inl lv ↦ rw lv (nodes_of_level-le c.levels (suc i) (single_levels c lv ok awg))
  | inr flat ↦ rw flat (to_list-le (get_elem? c.nodes (suc i)))
]

-- In a chain that `ValidateChainTopology` accepts and whose nodes are linked by AWG every node has at
-- most one next node, which is what its point-to-point link can reach; so also in a flat chain.
validate_chain_topology-next_level_nodes :
    (id : String) (c : Chain)
    → validate_chain_topology c ≡ none
    → c.transport ≡ transport_awg
    → length (next_level_nodes id c) ≤ 1
unfolding next_level_nodes
validate_chain_topology-next_level_nodes id c ok awg = next_after-le c (level_index_of id c) ok awg
