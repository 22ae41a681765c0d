-- ===== src/Store/Migrations/Levels/Order.antt =====
-- The levels of a migrated chain: they hold its nodes.
use mathlib.Core.List.{Perm, Permᴰ}
use mathlib.Core.List.Permᴰ
use mathlib.Core.Path.{subst}
use angry_box.Prelude.{
  ℕ, suc, ◌≡◌, refl, ap, sym, ◌∙◌, true, false, List, [], ◌∷◌, ◌++◌, map, if◌then◌else◌, Bool-cases,
  inl, inr, ◌⊎◌, is_empty,
}
use angry_box.Model.Base.{Time}
use angry_box.Model.Chain.{Chain, ChainNode}
use angry_box.Model.Levels.{is_levelized, has_levels, level_nodes, all_nodes}
use angry_box.Store.{StoreFile}
use angry_box.Store.Migrations.Levels.{
  Part, entry, transit, exit, part_of, is_part, nodes_of, set_refs, group_if, level_groups,
  make_levels, entry_profile_id, levelled, migrate_chain_to_levels,
}

abbrev concat : List (List ChainNode) → List ChainNode
concat [] = []
concat (g ∷ gs) = g ++ concat gs

level_nodes-make_levels :
    (k : ℕ) (gs : List (List ChainNode)) → level_nodes (make_levels k gs) ≡ concat gs
level_nodes-make_levels k [] = refl
level_nodes-make_levels k (g ∷ gs) = ap (λ r. g ++ r) (level_nodes-make_levels (suc k) gs)

append_assoc : (xs ys zs : List ChainNode) → (xs ++ ys) ++ zs ≡ xs ++ (ys ++ zs)
append_assoc [] ys zs = refl
append_assoc (x ∷ xs) ys zs = ap (λ r. x ∷ r) (append_assoc xs ys zs)

append-nil : (xs : List ChainNode) → xs ++ [] ≡ xs
append-nil [] = refl
append-nil (x ∷ xs) = ap (λ r. x ∷ r) (append-nil xs)

concat-append : (gs hs : List (List ChainNode)) → concat (gs ++ hs) ≡ concat gs ++ concat hs
concat-append [] hs = refl
concat-append (g ∷ gs) hs =
    ap (λ r. g ++ r) (concat-append gs hs) ∙ sym (append_assoc g (concat gs) (concat hs))

concat-group_if : (ns : List ChainNode) → concat (group_if ns) ≡ ns
concat-group_if [] = refl
concat-group_if (n ∷ ns) = append-nil (n ∷ ns)

concat-singletons : (ns : List ChainNode) → concat (map (λ n. n ∷ []) ns) ≡ ns
concat-singletons [] = refl
concat-singletons (n ∷ ns) = ap (λ r. n ∷ r) (concat-singletons ns)

-- The nodes of the levels are the entries, then the transit nodes, then the exits.
concat-level_groups :
    (ns : List ChainNode)
    → concat (level_groups ns)
      ≡ nodes_of entry 0 ns ++ (nodes_of transit 0 ns ++ nodes_of exit 0 ns)
concat-level_groups ns =
    let singles = map (λ n. n ∷ []) (nodes_of transit 0 ns) in
    concat-append (group_if (nodes_of entry 0 ns)) (singles ++ group_if (nodes_of exit 0 ns))
    ∙ ap (λ r. concat (group_if (nodes_of entry 0 ns)) ++ r)
        (concat-append singles (group_if (nodes_of exit 0 ns)))
    ∙ rw
        (
          concat-group_if (nodes_of entry 0 ns),
          concat-singletons (nodes_of transit 0 ns),
          concat-group_if (nodes_of exit 0 ns),
        )
        refl

part-cases : (p : Part) → (p ≡ entry) ⊎ (p ≡ transit) ⊎ (p ≡ exit)
part-cases entry = inl refl
part-cases transit = inr (inl refl)
part-cases exit = inr (inr refl)

same : (n : ChainNode) → n ≡ n
same n = refl

parts_perm :
    (i : ℕ) (ns : List ChainNode)
    → Permᴰ (nodes_of entry i ns ++ (nodes_of transit i ns ++ nodes_of exit i ns)) ns
parts_perm i [] = Permᴰ.nil
parts_perm i (n ∷ ns) =
    let es = nodes_of entry (suc i) ns in
    let ts = nodes_of transit (suc i) ns in
    let xs = nodes_of exit (suc i) ns in
    let rest = Permᴰ.cons (same n) (parts_perm (suc i) ns) in
    elim (part-cases (part_of i n)) [
      | inl is_entry ↦ rw is_entry rest
      | inr (inl is_transit) ↦ rw is_transit (Permᴰ.trans (Permᴰ.middle n es (ts ++ xs)) rest)
      | inr (inr is_exit) ↦ rw is_exit (
          Permᴰ.trans (Permᴰ.append_left es (Permᴰ.middle n ts xs))
            (Permᴰ.trans (Permᴰ.middle n es (ts ++ xs)) rest))
    ]

has_levels-make_levels :
    (k : ℕ) (gs hs : List (List ChainNode)) (h : List ChainNode)
    → has_levels (make_levels k (gs ++ h ∷ hs)) ≡ true
has_levels-make_levels k [] hs h = refl
has_levels-make_levels k (g ∷ gs) hs h = refl

has_levels-level_groups :
    (n : ChainNode) (ns : List ChainNode)
    → has_levels (make_levels 0 (level_groups (n ∷ ns))) ≡ true
has_levels-level_groups n ns =
    let es = group_if (nodes_of entry 1 ns) in
    let ts = map (λ m. m ∷ []) (nodes_of transit 1 ns) in
    let xs = group_if (nodes_of exit 1 ns) in
    elim (part-cases (part_of 0 n)) [
      | inl is_entry ↦ rw is_entry refl
      | inr (inl is_transit) ↦ rw is_transit (has_levels-make_levels 0 es (ts ++ xs) (n ∷ []))
      | inr (inr is_exit) ↦ rw is_exit (
          ap (λ gs. has_levels (make_levels 0 gs))
            (sym (groups_assoc es ts ((n ∷ nodes_of exit 1 ns) ∷ [])))
          ∙ has_levels-make_levels 0 (es ++ ts) [] (n ∷ nodes_of exit 1 ns))
    ]
  where
    groups_assoc : (xs ys zs : List (List ChainNode)) → (xs ++ ys) ++ zs ≡ xs ++ (ys ++ zs)
    groups_assoc [] ys zs = refl
    groups_assoc (x ∷ xs) ys zs = ap (λ r. x ∷ r) (groups_assoc xs ys zs)

is_levelized-levelled : (c : Chain) → is_empty c.nodes ≡ false → is_levelized (levelled c) ≡ true
is_levelized-levelled c h = go c.nodes h
  where
    go :
        (ns : List ChainNode)
        → is_empty ns ≡ false
        → has_levels (make_levels 0 (level_groups (set_refs (entry_profile_id c) 0 ns))) ≡ true
    go [] h = absurd (cc)
    go (n ∷ ns) h =
        has_levels-level_groups
          (if is_part entry (part_of 0 n) then record n { inbound_ref = entry_profile_id c } else n)
          (set_refs (entry_profile_id c) 1 ns)

-- What the step makes of a chain that has no levels.
pub migrated :
    (now : Time) (c : Chain) (sf : StoreFile)
    → is_levelized c ≡ false
    → (is_empty c.nodes ≡ true) × ((migrate_chain_to_levels now c sf).0 ≡ c)
      ⊎ (is_empty c.nodes ≡ false)
        × ((migrate_chain_to_levels now c sf).0 ≡ levelled c)
        × (is_levelized (levelled c) ≡ true)
unfolding migrate_chain_to_levels
migrated now c sf flat = elim (Bool-cases (is_empty c.nodes)) [
  | inl none_there ↦ inl (none_there, rw (flat, none_there) refl)
  | inr some_there ↦
      inr (some_there, rw (flat, some_there) refl, is_levelized-levelled c some_there)
]

empty_nodes : (ns : List ChainNode) → is_empty ns ≡ true → ns ≡ []
empty_nodes [] h = refl
empty_nodes (n ∷ ns) h = absurd (cc)

all_nodes-levelled :
    (c : Chain)
    → is_levelized (levelled c) ≡ true
    → Permᴰ (all_nodes (levelled c)) (set_refs (entry_profile_id c) 0 c.nodes)
unfolding all_nodes
all_nodes-levelled c h =
    let ns = set_refs (entry_profile_id c) 0 c.nodes in
    subst (λ (l : List ChainNode). Permᴰ l ns)
      (sym (rw h (level_nodes-make_levels 0 (level_groups ns) ∙ concat-level_groups ns)))
      (parts_perm 0 ns)

all_nodes-flat : (c : Chain) → is_levelized c ≡ false → all_nodes c ≡ c.nodes
unfolding all_nodes
all_nodes-flat c h = rw h refl

-- A chain without levels keeps its nodes: those of its levels after the step are its nodes, the entries
-- marked with their profile, in another order.
pub migrate_chain_to_levels-Perm :
    (now : Time) (c : Chain) (sf : StoreFile)
    → is_levelized c ≡ false
    → Perm
        (all_nodes (migrate_chain_to_levels now c sf).0)
        (set_refs (entry_profile_id c) 0 c.nodes)
migrate_chain_to_levels-Perm now c sf flat =
    let ns = set_refs (entry_profile_id c) 0 c.nodes in
    elim (migrated now c sf flat) [
      | inl (none_there, e) ↦
          let before : all_nodes (migrate_chain_to_levels now c sf).0 ≡ ns =
            ap all_nodes e
            ∙ all_nodes-flat c flat
            ∙ empty_nodes c.nodes none_there
            ∙ ap (set_refs (entry_profile_id c) 0) (sym (empty_nodes c.nodes none_there)) in
          subst (λ (l : List ChainNode). Perm l ns) (sym before) ∣ Permᴰ.refl ns ∣₁
      | inr (some_there, e, h) ↦
          subst (λ (l : List ChainNode). Perm l ns) (sym (ap all_nodes e))
            ∣ all_nodes-levelled c h ∣₁
    ]
