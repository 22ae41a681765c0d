-- ===== src/Model/Levels/Flat.antt =====
-- Reading the nodes of a chain in one flat list and writing them back.
use angry_box.Prelude.{
  Bool-cases, inl, inr, ◌≤◌, ℕ, suc, ◌+◌, ◌≡◌, refl, ap, sym, ◌∙◌, List, [], ◌∷◌, ◌++◌, arith,
  length, length-append,
}
use angry_box.Model.Chain.{Chain, ChainLevel, ChainNode}
use angry_box.Model.Levels.{
  has_levels, level_nodes, all_nodes, refill, refill_levels, set_all_nodes, each_from, each_level,
  each_node,
}

refill-append : (olds ns : List ChainNode) → refill olds (olds ++ ns) ≡ (olds, ns)
refill-append [] ns = refl
refill-append (old ∷ olds) ns =
    λ i. (old ∷ (refill-append olds ns i).0, (refill-append olds ns i).1)

refill_levels-level_nodes : (lvs : List ChainLevel) → refill_levels lvs (level_nodes lvs) ≡ lvs
refill_levels-level_nodes [] = refl
refill_levels-level_nodes (lv ∷ lvs) =
    rw (refill-append lv.nodes (level_nodes lvs)) (ap (λ r. lv ∷ r) (refill_levels-level_nodes lvs))

-- Writing back the nodes that were read changes nothing, whichever form the chain has.
pub set_all_nodes-all_nodes : (c : Chain) → set_all_nodes (all_nodes c) c ≡ c
unfolding set_all_nodes all_nodes
set_all_nodes-all_nodes c = ground (arith, refill_levels-level_nodes c.levels)

refill-split :
    (olds ns : List ChainNode)
    → length olds ≤ length ns
    → (ns ≡ (refill olds ns).0 ++ (refill olds ns).1)
      × (length olds + length (refill olds ns).1 ≡ length ns)
refill-split [] ns h = (refl, omega arith)
refill-split (old ∷ olds) [] h = absurd (omega arith)
refill-split (old ∷ olds) (n ∷ ns) h =
    let (whole, count) = refill-split olds ns (omega arith) in (ap (λ r. n ∷ r) whole, omega arith)

level_nodes-refill_levels :
    (lvs : List ChainLevel) (ns : List ChainNode)
    → length ns ≡ length (level_nodes lvs)
    → level_nodes (refill_levels lvs ns) ≡ ns
level_nodes-refill_levels [] [] h = refl
level_nodes-refill_levels [] (n ∷ ns) h = absurd (omega arith)
level_nodes-refill_levels (lv ∷ lvs) ns h =
    let e = length-append lv.nodes (level_nodes lvs) in
    let (whole, count) = refill-split lv.nodes ns (omega (arith, e)) in
    ap (λ r. (refill lv.nodes ns).0 ++ r)
      (level_nodes-refill_levels lvs (refill lv.nodes ns).1 (omega (arith, e)))
    ∙ sym whole

has_levels-refill_levels :
    (lvs : List ChainLevel) (ns : List ChainNode)
    → has_levels (refill_levels lvs ns) ≡ has_levels lvs
has_levels-refill_levels [] ns = refl
has_levels-refill_levels (lv ∷ lvs) ns = refl

-- A list of the right length that is written into a chain is what the chain then reads.
pub all_nodes-set_all_nodes :
    (ns : List ChainNode) (c : Chain)
    → length ns ≡ length (all_nodes c)
    → all_nodes (set_all_nodes ns c) ≡ ns
unfolding set_all_nodes all_nodes
all_nodes-set_all_nodes ns c h =
    ground (arith, has_levels-refill_levels c.levels ns, level_nodes-refill_levels c.levels ns)

each_from-append :
    (f : ℕ → ChainNode → ChainNode) (i : ℕ) (xs ys : List ChainNode)
    → each_from f i (xs ++ ys) ≡ each_from f i xs ++ each_from f (i + length xs) ys
each_from-append f i [] ys = ap (λ j. each_from f j ys) (let e : i ≡ i + 0 = omega arith in e)
each_from-append f i (x ∷ xs) ys = rw (each_from-append f (suc i) xs ys) (
    ap (λ j. f i x ∷ (each_from f (suc i) xs ++ each_from f j ys))
      (let e : suc i + length xs ≡ i + suc (length xs) = omega arith in e))

level_nodes-each_level :
    (f : ℕ → ChainNode → ChainNode) (i : ℕ) (lvs : List ChainLevel)
    → level_nodes (each_level f i lvs) ≡ each_from f i (level_nodes lvs)
level_nodes-each_level f i [] = refl
level_nodes-each_level f i (lv ∷ lvs) =
    ap (λ r. each_from f i lv.nodes ++ r) (level_nodes-each_level f (i + length lv.nodes) lvs)
    ∙ sym (each_from-append f i lv.nodes (level_nodes lvs))

has_levels-each_level :
    (f : ℕ → ChainNode → ChainNode) (i : ℕ) (lvs : List ChainLevel)
    → has_levels (each_level f i lvs) ≡ has_levels lvs
has_levels-each_level f i [] = refl
has_levels-each_level f i (lv ∷ lvs) = refl

-- The callback meets the nodes in the order of `all_nodes`, each with its index there, and its
-- edits are what is read afterwards.
pub all_nodes-each_node :
    (f : ℕ → ChainNode → ChainNode) (c : Chain)
    → all_nodes (each_node f c) ≡ each_from f 0 (all_nodes c)
unfolding all_nodes each_node
all_nodes-each_node f c = elim (Bool-cases (has_levels c.levels)) [
  | inl e ↦ rw (e, has_levels-each_level f 0 c.levels, e) (level_nodes-each_level f 0 c.levels)
  | inr e ↦ ground arith
]
