-- ===== src/Tests/Topology.antt =====
-- Chains that are accepted and refused for AWG links.
use angry_box.Prelude.{◌≡◌, refl, [], ◌∷◌, none, some}
use angry_box.Model.Chain.{Chain}
use angry_box.Topology.{empty_level, wide_level, transport_awg, validate_chain_topology}
use angry_box.Samples.{blank_chain, node, level, two_levels}

abbrev linked : Chain
linked = record blank_chain {
  transport = transport_awg;
  levels = level (node "a" ∷ []) ∷ level (node "b" ∷ []) ∷ [];
}

topology_tests :
    (validate_chain_topology two_levels ≡ none)
    × (validate_chain_topology (record two_levels { transport = transport_awg })
        ≡ some (wide_level 1 2))
    × (validate_chain_topology (record linked { levels = level [] ∷ [] }) ≡ some (empty_level 0))
unfolding validate_chain_topology
topology_tests = (refl, refl, refl)
