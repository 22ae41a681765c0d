-- ===== src/Tests/Roles.antt =====
-- A node of the first of two levels.
use angry_box.Prelude.{◌≡◌, refl, [], ◌∷◌, true, false, map}
use angry_box.Model.Levels.{level_index_of, next_level_nodes}
use angry_box.Roles.{ChainRole, role_in, resolve_chain_roles}
use angry_box.Samples.{two_levels, blank_chain}

roles : Unit {0}
unfolding role_in level_index_of next_level_nodes
roles = tt

role_tests :
    (map (λ (r : ChainRole). r.node_index) (resolve_chain_roles "e" (two_levels ∷ blank_chain ∷ []))
      ≡ 2 ∷ [])
    × (map (λ (r : ChainRole). r.is_transit) (resolve_chain_roles "e" (two_levels ∷ []))
        ≡ true ∷ [])
    × (map (λ (r : ChainRole). r.has_outbound) (resolve_chain_roles "b" (two_levels ∷ []))
        ≡ false ∷ [])
unfolding roles
role_tests = (refl, refl, refl)
