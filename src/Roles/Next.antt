-- ===== src/Roles/Next.antt =====
-- The roles of the renderer against the methods of `Chain`: both find the same place of a node, and the same
-- nodes after it.
use angry_box.Prelude.{ℕ, ◌≡◌, ◌⊎◌, List, Option, none, some}
use angry_box.Model.Chain.{Chain, ChainNode}
use angry_box.Roles.{ChainRole}

-- The node is nowhere, or at the place `j` that the methods find, with `next` after it.
abbrev Agrees : Option ChainRole → Option ℕ → (ℕ → List ChainNode) → Type 0
Agrees o p next =
    (o ≡ none) × (p ≡ none)
    ⊎ (r : ChainRole) × (j : ℕ) × (o ≡ some r) × (p ≡ some j) × (r.next_nodes ≡ next j)
