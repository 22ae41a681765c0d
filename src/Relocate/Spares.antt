-- ===== src/Relocate/Spares.antt =====
-- Which spare `PickSpare` chooses.
use angry_box.Prelude.{
  ◌≡◌, refl, ◌∙◌, ap, String, Bool, not, ◌&&◌, List, [], ◌∷◌, arith, ◌=s◌, first, any, keep,
  is_empty,
}
use angry_box.Model.Panel.{NodeInfo}
use angry_box.Model.Levels.{mentions}
use angry_box.Store.{StoreFile, ok, holds, Disk}
use angry_box.Store.Laws.{query-holds}
use angry_box.Store.Chains.{get_chains_for_node, list_chains, chains_with}
use angry_box.Store.Nodes.{hosted, list_node_infos}
use angry_box.Relocate.{spare_among, spare_of, pick_spare}

-- A spare, not the node itself, that serves no user and is in no chain.
abbrev pub is_eligible : String → StoreFile → NodeInfo → Bool
is_eligible exclude sf n =
    n.spare
    && not (n.host.id =s exclude)
    && is_empty n.inbounds
    && not (any (mentions n.host.id) sf.chains)

chains_for-holds :
    (id : String) (d : Disk) (sf : StoreFile)
    → d.content ≡ holds sf
    → get_chains_for_node id d ≡ ok (keep (mentions id) sf.chains)
unfolding get_chains_for_node list_chains
chains_for-holds id d sf h = ap (chains_with id) (query-holds _ _ d h)

unless_used-keep :
    {A : Type 0} (test : A → Bool) (xs : List A) → is_empty (keep test xs) ≡ not (any test xs)
unless_used-keep test [] = refl
unless_used-keep test (x ∷ xs) = ground (arith, unless_used-keep test xs)

spare_among-first :
    (exclude : String) (d : Disk) (sf : StoreFile) (ns : List NodeInfo)
    → d.content ≡ holds sf
    → spare_among d exclude ns ≡ ok (first (is_eligible exclude sf) ns)
spare_among-first exclude d sf [] h = refl
spare_among-first exclude d sf (n ∷ ns) h =
    let ih = spare_among-first exclude d sf ns h in
    let e = unless_used-keep (mentions n.host.id) sf.chains in
    rw (chains_for-holds n.host.id d sf h) (ground (arith, ih, e))

-- On a store that can be read `PickSpare` chooses the first node of `ListNodeInfos`, in the order of
-- the store, that is a spare, is not the excluded node, has no inbounds and is in no chain; it
-- chooses none exactly if there is no such node, and it never fails.
pub pick_spare-first :
    (exclude : String) (d : Disk) (sf : StoreFile)
    → d.content ≡ holds sf
    → pick_spare exclude d ≡ ok (first (is_eligible exclude sf) (hosted sf))
unfolding pick_spare list_node_infos
pick_spare-first exclude d sf h =
    ap (spare_of d exclude) (query-holds _ _ d h) ∙ spare_among-first exclude d sf (hosted sf) h
