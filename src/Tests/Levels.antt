-- ===== src/Tests/Levels.antt =====
-- The chain's levels on a chain of two levels with one and two nodes.
use angry_box.Prelude.{◌≡◌, refl, ℕ, List, [], ◌∷◌, some}
use angry_box.Model.Chain.{ChainNode}
use angry_box.Model.Levels.{set_all_nodes, level_index_of, next_level_nodes, level_strategy}
use angry_box.Samples.{node, level, two_levels}

abbrev others : List ChainNode
others = node "x" ∷ node "y" ∷ node "z" ∷ []

abbrev moved : ℕ → ChainNode → ChainNode
moved i n = record n { port = i }

levels_tests :
    (next_level_nodes "a" two_levels ≡ node "b" ∷ node "e" ∷ [])
    × (level_index_of "e" two_levels ≡ some 1)
    × (level_strategy "e" two_levels ≡ "urltest")
    × ((set_all_nodes others two_levels).levels
        ≡ level (node "x" ∷ []) ∷ level (node "y" ∷ node "z" ∷ []) ∷ [])
unfolding next_level_nodes level_index_of level_strategy set_all_nodes
levels_tests = (refl, refl, refl, refl)
