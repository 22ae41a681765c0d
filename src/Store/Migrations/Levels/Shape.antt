-- ===== src/Store/Migrations/Levels/Shape.antt =====
-- The shape of a migrated chain: no level is empty, and a second run leaves it alone.
use angry_box.Prelude.{
  ℕ, suc, ◌≡◌, refl, ap, ◌∙◌, true, false, ◌||◌, List, [], ◌∷◌, ◌++◌, map, none, ◌=s◌, arith,
  Bool-cases, inl, inr, is_empty,
}
use angry_box.Model.Base.{Time}
use angry_box.Model.Chain.{Chain, ChainNode}
use angry_box.Model.Levels.{is_levelized}
use angry_box.Store.{StoreFile}
use angry_box.Topology.{find_empty, validate_chain_topology, transport_awg}
use angry_box.Store.Migrations.Levels.{
  entry, transit, exit, nodes_of, set_refs, group_if, level_groups, make_levels, entry_profile_id,
  levelled, migrate_chain_to_levels,
}
use angry_box.Store.Migrations.Levels.Order.{migrated}

IsFull : List (List ChainNode) → Type 0
IsFull [] = Unit
IsFull (g ∷ gs) = (is_empty g ≡ false) × IsFull gs

IsFull-append : (gs hs : List (List ChainNode)) → IsFull gs → IsFull hs → IsFull (gs ++ hs)
unfolding IsFull
IsFull-append [] hs a b = b
IsFull-append (g ∷ gs) hs (p, a) b = (p, IsFull-append gs hs a b)

IsFull-group_if : (ns : List ChainNode) → IsFull (group_if ns)
unfolding IsFull
IsFull-group_if [] = tt
IsFull-group_if (n ∷ ns) = (refl, tt)

IsFull-singletons : (ns : List ChainNode) → IsFull (map (λ n. n ∷ []) ns)
unfolding IsFull
IsFull-singletons [] = tt
IsFull-singletons (n ∷ ns) = (refl, IsFull-singletons ns)

IsFull-level_groups : (ns : List ChainNode) → IsFull (level_groups ns)
IsFull-level_groups ns =
    IsFull-append (group_if (nodes_of entry 0 ns))
      (map (λ n. n ∷ []) (nodes_of transit 0 ns) ++ group_if (nodes_of exit 0 ns))
      (IsFull-group_if (nodes_of entry 0 ns))
      (IsFull-append (map (λ n. n ∷ []) (nodes_of transit 0 ns)) (group_if (nodes_of exit 0 ns))
        (IsFull-singletons (nodes_of transit 0 ns)) (IsFull-group_if (nodes_of exit 0 ns)))

find_empty-make_levels :
    (i k : ℕ) (gs : List (List ChainNode)) → IsFull gs → find_empty i (make_levels k gs) ≡ none
unfolding IsFull
find_empty-make_levels i k [] h = refl
find_empty-make_levels i k ([] ∷ gs) (p, h) = absurd (cc)
find_empty-make_levels i k ((n ∷ ns) ∷ gs) (p, h) =
    ground (arith, find_empty-make_levels (suc i) (suc k) gs h)

validate_flat : (c : Chain) → is_levelized c ≡ false → validate_chain_topology c ≡ none
unfolding validate_chain_topology
validate_flat c h = rw h refl

validate_levelled :
    (c : Chain)
    → (c.transport =s transport_awg) ≡ false
    → validate_chain_topology (levelled c) ≡ none
unfolding validate_chain_topology
validate_levelled c h = ground (
  arith,
  h,
  find_empty-make_levels 0 0 (level_groups (set_refs (entry_profile_id c) 0 c.nodes))
      (IsFull-level_groups (set_refs (entry_profile_id c) 0 c.nodes)),
)

-- A chain that had no levels passes the check of its topology after the step, unless its transport is AWG.
migrate_chain_to_levels-validate :
    (now : Time) (c : Chain) (sf : StoreFile)
    → is_levelized c ≡ false
    → (c.transport =s transport_awg) ≡ false
    → validate_chain_topology (migrate_chain_to_levels now c sf).0 ≡ none
migrate_chain_to_levels-validate now c sf flat other = elim (migrated now c sf flat) [
  | inl (none_there, e) ↦ ap validate_chain_topology e ∙ validate_flat c flat
  | inr (some_there, e, h) ↦ ap validate_chain_topology e ∙ validate_levelled c other
]

settled :
    (now : Time) (c : Chain) (sf : StoreFile)
    → (is_levelized c || is_empty c.nodes) ≡ true
    → migrate_chain_to_levels now c sf ≡ (c, sf)
unfolding migrate_chain_to_levels
settled now c sf h = rw h refl

settled_after :
    (now : Time) (c : Chain) (sf : StoreFile)
    → (is_levelized (migrate_chain_to_levels now c sf).0
        || is_empty (migrate_chain_to_levels now c sf).0.nodes)
      ≡ true
settled_after now c sf = elim (Bool-cases (is_levelized c)) [
  | inl done ↦
      let h : (is_levelized c || is_empty c.nodes) ≡ true = ground (arith, done) in
      ap (λ (r : Chain × StoreFile). is_levelized r.0 || is_empty r.0.nodes) (settled now c sf h)
      ∙ h
  | inr flat ↦ elim (migrated now c sf flat) [
    | inl (none_there, e) ↦
        ap (λ (d : Chain). is_levelized d || is_empty d.nodes) e ∙ ground (arith, none_there)
    | inr (some_there, e, h) ↦
        ap (λ (d : Chain). is_levelized d || is_empty d.nodes) e ∙ ground (arith, h)
  ]
]

-- A second run changes neither the chain nor the file.
pub migrate_chain_to_levels-idempotent :
    (now later : Time) (c : Chain) (sf sf' : StoreFile)
    → migrate_chain_to_levels later (migrate_chain_to_levels now c sf).0 sf'
      ≡ ((migrate_chain_to_levels now c sf).0, sf')
migrate_chain_to_levels-idempotent now later c sf sf' =
    settled later (migrate_chain_to_levels now c sf).0 sf' (settled_after now c sf)
