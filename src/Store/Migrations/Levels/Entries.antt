-- ===== src/Store/Migrations/Levels/Entries.antt =====
-- The entry nodes of a migrated chain: each has a node record that holds the entry inbound.
use angry_box.Prelude.{
  ℕ, zero, suc, ◌≡◌, ap, sym, ◌∙◌, String, Bool, true, false, ◌||◌, List, [], ◌∷◌, ◌++◌, Option,
  none, some, ◌=s◌, =s_iff, arith, Bool-cases, inl, inr, is_empty, any, first, get_elem?,
}
use angry_box.Model.Base.{Time}
use angry_box.Model.Chain.{Chain, ChainNode}
use angry_box.Model.Panel.{NodeInbound, NodeInfo}
use angry_box.Model.Levels.{is_levelized}
use angry_box.Store.{StoreFile}
use angry_box.Store.Hosts.{info_id}
use angry_box.Store.Migrations.Levels.{
  entry, nodes_of, set_refs, entry_profile_id, chain_entry_inbound, has_inbound,
  materialize_chain_entry_inbound, minimal_info, materialize_on, materialize_all,
  migrate_chain_to_levels,
}

abbrev pub serves_opt : String → Option NodeInfo → Bool
serves_opt pid none = false
serves_opt pid (some ni) = has_inbound pid ni

-- The record that is found for a node holds an inbound of the profile.
abbrev pub serves : String → String → List NodeInfo → Bool
serves pid id nis = serves_opt pid (first (λ (ni : NodeInfo). info_id ni =s id) nis)

tag-chain_entry_inbound :
    (c : Chain) (n : ChainNode) (pid : String) → (chain_entry_inbound c n pid).tag ≡ pid
tag-chain_entry_inbound c n pid = ground arith

has_inbound-new :
    (c : Chain) (n : ChainNode) (pid : String) (ibs : List NodeInbound)
    → any
        (λ (ib : NodeInbound). ib.tag =s pid || ib.profile_id =s pid)
        (ibs ++ chain_entry_inbound c n pid ∷ [])
      ≡ true
has_inbound-new c n pid [] =
    ground
      (arith, (=s_iff (chain_entry_inbound c n pid).tag pid).1 (tag-chain_entry_inbound c n pid))
has_inbound-new c n pid (ib ∷ ibs) = ground (arith, has_inbound-new c n pid ibs)

has_inbound-materialize :
    (c : Chain) (n : ChainNode) (pid : String) (ni : NodeInfo)
    → has_inbound pid (materialize_chain_entry_inbound c n pid ni) ≡ true
unfolding materialize_chain_entry_inbound
has_inbound-materialize c n pid ni = elim (Bool-cases (has_inbound pid ni)) [
  | inl there ↦ rw there there
  | inr absent ↦ rw absent (has_inbound-new c n pid ni.inbounds)
]

info_id-materialize :
    (c : Chain) (n : ChainNode) (pid : String) (ni : NodeInfo)
    → info_id (materialize_chain_entry_inbound c n pid ni) ≡ info_id ni
unfolding materialize_chain_entry_inbound
info_id-materialize c n pid ni = ground arith

serves-materialize_on :
    (c : Chain) (pid : String) (n : ChainNode) (nis : List NodeInfo)
    → serves pid n.id (materialize_on c pid n nis) ≡ true
unfolding materialize_on
serves-materialize_on c pid n [] = ground (
  arith,
  has_inbound-materialize c n pid (minimal_info n),
  (=s_iff (info_id (materialize_chain_entry_inbound c n pid (minimal_info n))) n.id).1
      (info_id-materialize c n pid (minimal_info n)),
)
serves-materialize_on c pid n (ni ∷ nis) = elim (Bool-cases (info_id ni =s n.id)) [
  | inr other ↦ ground (arith, other, serves-materialize_on c pid n nis)
  | inl same ↦ ground (
    arith,
    same,
    has_inbound-materialize c n pid ni,
    ap (λ s. s =s n.id) (info_id-materialize c n pid ni),
  )
]

serves-kept :
    (c : Chain) (pid id : String) (n : ChainNode) (nis : List NodeInfo)
    → serves pid id nis ≡ true
    → serves pid id (materialize_on c pid n nis) ≡ true
unfolding materialize_on
serves-kept c pid id n [] h = absurd (cc)
serves-kept c pid id n (ni ∷ nis) h = elim (Bool-cases (info_id ni =s n.id)) [
  | inr other ↦ ground (arith, other, h, serves-kept c pid id n nis)
  | inl same ↦ ground (
    arith,
    same,
    h,
    has_inbound-materialize c n pid ni,
    ap (λ s. s =s id) (info_id-materialize c n pid ni),
  )
]

serves-kept_all :
    (c : Chain) (pid id : String) (ns : List ChainNode) (nis : List NodeInfo)
    → serves pid id nis ≡ true
    → serves pid id (materialize_all c pid ns nis) ≡ true
serves-kept_all c pid id [] nis h = h
serves-kept_all c pid id (n ∷ ns) nis h =
    serves-kept_all c pid id ns (materialize_on c pid n nis) (serves-kept c pid id n nis h)

serves-materialize_all :
    (c : Chain) (pid : String) (ns : List ChainNode) (nis : List NodeInfo) (i : ℕ) (n : ChainNode)
    → get_elem? ns i ≡ some n
    → serves pid n.id (materialize_all c pid ns nis) ≡ true
serves-materialize_all c pid [] nis i n at = absurd (cc)
serves-materialize_all c pid (m ∷ ns) nis zero n at =
    let e : m ≡ n = ground (arith, at) in
    serves-kept_all c pid n.id ns (materialize_on c pid m nis) (
      ap (λ (k : ChainNode). serves pid k.id (materialize_on c pid m nis)) (sym e)
      ∙ serves-materialize_on c pid m nis)
serves-materialize_all c pid (m ∷ ns) nis (suc i) n at =
    serves-materialize_all c pid ns (materialize_on c pid m nis) i n at

-- After the step every entry node of a chain that had no levels has a node record with an inbound of the
-- chain's entry profile.
pub migrate_chain_to_levels-serves :
    (now : Time) (c : Chain) (sf : StoreFile) (i : ℕ) (n : ChainNode)
    → is_levelized c ≡ false
    → get_elem? (nodes_of entry 0 (set_refs (entry_profile_id c) 0 c.nodes)) i ≡ some n
    → serves (entry_profile_id c) n.id (migrate_chain_to_levels now c sf).1.node_infos ≡ true
unfolding migrate_chain_to_levels
migrate_chain_to_levels-serves now c sf i n flat at = elim (Bool-cases (is_empty c.nodes)) [
  | inr some_there ↦
      rw (flat, some_there)
        (serves-materialize_all c (entry_profile_id c)
          (nodes_of entry 0 (set_refs (entry_profile_id c) 0 c.nodes)) sf.node_infos i n at)
  | inl none_there ↦ absurd (no_entry c.nodes (entry_profile_id c) i n none_there at)
]
  where
    no_entry :
        (ns : List ChainNode) (pid : String) (i : ℕ) (n : ChainNode)
        → is_empty ns ≡ true
        → get_elem? (nodes_of entry 0 (set_refs pid 0 ns)) i ≡ some n
        → ⊥
    no_entry [] pid i n h at = absurd (cc)
    no_entry (m ∷ ns) pid i n h at = absurd (cc)
