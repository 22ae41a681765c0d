-- ===== src/Model/Levels/Search.antt =====
-- Finding nodes and levels of a chain by a node's identifier.
use angry_box.Prelude.{
  ℕ, zero, suc, ◌≡◌, refl, ap, sym, ◌∙◌, ◌↔◌, String, Bool, true, false, List, [], ◌∷◌, ◌++◌, arith,
  none, some, first, any, or_else, get_elem?, if◌then◌else◌, Bool-cases, Option-cases, inl, inr,
}
use angry_box.Model.Chain.{Chain, ChainLevel}
use angry_box.Model.Levels.{
  has_levels, level_nodes, all_nodes, node_in_levels, node_by_id, index_of, level_has,
  level_index_of, has_id, mentions,
}

first-append {ℓ} :
    {A : Type ℓ} (test : A → Bool) (xs ys : List A)
    → first test (xs ++ ys) ≡ or_else (first test xs) (first test ys)
first-append test [] ys = refl
first-append test (x ∷ xs) ys = ground (arith, first-append test xs ys)

any-append {ℓ} :
    {A : Type ℓ} (test : A → Bool) (xs ys : List A)
    → any test (xs ++ ys) ≡ (if any test xs then true else any test ys)
any-append test [] ys = refl
any-append test (x ∷ xs) ys = ground (arith, any-append test xs ys)

node_in_levels-level_nodes :
    (id : String) (lvs : List ChainLevel)
    → node_in_levels id lvs ≡ first (has_id id) (level_nodes lvs)
node_in_levels-level_nodes id [] = refl
node_in_levels-level_nodes id (lv ∷ lvs) =
    ap (or_else (first (has_id id) lv.nodes)) (node_in_levels-level_nodes id lvs)
    ∙ sym (first-append (has_id id) lv.nodes (level_nodes lvs))

-- The search level by level finds the first node of the flat list that has the identifier.
pub node_by_id-all_nodes :
    (id : String) (c : Chain) → node_by_id id c ≡ first (has_id id) (all_nodes c)
unfolding node_by_id all_nodes
node_by_id-all_nodes id c = elim (Bool-cases (has_levels c.levels)) [
  | inl e ↦ rw e (node_in_levels-level_nodes id c.levels)
  | inr e ↦ ground arith
]

-- An index that is found is the first element that passes the test.
pub index_of-some {ℓ} :
    {A : Type ℓ} (test : A → Bool) (xs : List A) (i : ℕ)
    → index_of test xs ≡ some i
    → (a : A) × (get_elem? xs i ≡ some a) × (test a ≡ true)
index_of-some test [] i h = cc
index_of-some test (x ∷ xs) zero h = elim (Bool-cases (test x)) [
  | inl e ↦ (x, refl, e)
  | inr e ↦ ground (arith, Option-cases (index_of test xs))
]
index_of-some test (x ∷ xs) (suc i) h = elim (Bool-cases (test x)) [
  | inl e ↦ ground arith
  | inr e ↦ index_of-some test xs i (ground (arith, Option-cases (index_of test xs)))
]

index_of-none {ℓ} :
    {A : Type ℓ} (test : A → Bool) (xs : List A) → (index_of test xs ≡ none) ↔ (any test xs ≡ false)
index_of-none test [] = ground arith
index_of-none test (x ∷ xs) = ground (arith, index_of-none test xs)

index_of-levels :
    (id : String) (lvs : List ChainLevel)
    → (index_of (level_has id) lvs ≡ none) ↔ (any (has_id id) (level_nodes lvs) ≡ false)
index_of-levels id [] = ground arith
index_of-levels id (lv ∷ lvs) =
    ground (arith, index_of-levels id lvs, any-append (has_id id) lv.nodes (level_nodes lvs))

-- A node has no level exactly when the chain does not hold it.
pub level_index_of-none :
    (id : String) (c : Chain) → (level_index_of id c ≡ none) ↔ (mentions id c ≡ false)
unfolding level_index_of all_nodes
level_index_of-none id c = elim (Bool-cases (has_levels c.levels)) [
  | inl e ↦ rw e (index_of-levels id c.levels)
  | inr e ↦ rw e (index_of-none (has_id id) c.nodes)
]
