-- ===== src/Store/Chains/Resolve.antt =====
-- What the resolution of a chain's nodes changes, and what it must leave alone.
use angry_box.Store.Laws.{ok-injective}
use angry_box.Store.Nodes.{get_node_info}
use angry_box.Model.Levels.Flat.{all_nodes-set_all_nodes}
use angry_box.Model.Levels.{all_nodes, set_all_nodes}
use angry_box.Prelude.{◌≡◌, List, [], ◌∷◌, arith, refl, ap, length, suc, ◌∙◌, sym}
use angry_box.Model.Base.{Host}
use angry_box.Model.Panel.{NodeInfo, NodeInbound}
use angry_box.Model.Chain.{ChainNode, Chain}
use angry_box.Store.{Result, ok, err, Disk}
use angry_box.Store.Hosts.{get_host}
use angry_box.Store.Chains.{resolve_with, resolve_all, resolve_nodes, join, resolve_node}

-- The inbounds of a node record that was found, else those of the stored node.
abbrev pub inbounds_of : Result NodeInfo → List NodeInbound → List NodeInbound
inbounds_of (ok info) stored = info.inbounds
inbounds_of (err e) stored = stored

-- `m` is the stored node `n` but for the address and login, which are those of a host on the disk,
-- and for the inbounds: all transport and exit keys, roles and targets are the stored ones.
pub record IsResolved (d : Disk) (n m : ChainNode) : Type 0 where
  pub host : Host
  pub on_disk : get_host n.id d ≡ ok host
  pub same : m ≡ record n {
    id = host.id;
    addr = host.addr;
    user = host.user;
    key_path = host.key_path;
    inbounds = inbounds_of (get_node_info n.id d) n.inbounds;
  }

abbrev pub AllResolved : Disk → List ChainNode → List ChainNode → Type 0
AllResolved d [] [] = Unit
AllResolved d [] (m ∷ ms) = ⊥
AllResolved d (n ∷ ns) [] = ⊥
AllResolved d (n ∷ ns) (m ∷ ms) = IsResolved d n m × AllResolved d ns ms

resolve_with-IsResolved :
    (d : Disk) (n m : ChainNode) (r : Result Host) (info : Result NodeInfo)
    → get_host n.id d ≡ r
    → get_node_info n.id d ≡ info
    → resolve_with r info n ≡ ok m
    → IsResolved d n m
resolve_with-IsResolved d n m (ok h) (ok info) g i e = record {
  host = h;
  on_disk = g;
  same = rw i (sym (ok-injective e));
}
resolve_with-IsResolved d n m (ok h) (err x) g i e = record {
  host = h;
  on_disk = g;
  same = rw i (sym (ok-injective e));
}
resolve_with-IsResolved d n m (err x) info g i e = absurd (cc)

resolve_all-AllResolved :
    (d : Disk) (ns ms : List ChainNode) → resolve_all d ns ≡ ok ms → AllResolved d ns ms
unfolding resolve_all
resolve_all-AllResolved d [] [] e = tt
resolve_all-AllResolved d [] (m ∷ ms) e = cc
resolve_all-AllResolved d (n ∷ ns) ms e =
    go (resolve_all-AllResolved d ns) ms (resolve_node d n) (resolve_all d ns) refl refl e
  where
    go :
        ((ms : List ChainNode) → resolve_all d ns ≡ ok ms → AllResolved d ns ms)
        → (ms : List ChainNode) (r : Result ChainNode) (rs : Result (List ChainNode))
        → resolve_node d n ≡ r
        → resolve_all d ns ≡ rs
        → join r rs ≡ ok ms
        → AllResolved d (n ∷ ns) ms
    go ih ms (err x) rs p q h = absurd (cc)
    go ih ms (ok m) (err x) p q h = absurd (cc)
    go ih [] (ok m) (ok ms') p q h = absurd (cc)
    go ih (m' ∷ ms'') (ok m) (ok ms') p q h =
        let both = ok-injective h in
        let first : m ≡ m' = ground (arith, both) in
        let others : ms' ≡ ms'' = ground (arith, both) in
        (
          resolve_with-IsResolved d n m' (get_host n.id d) (get_node_info n.id d) refl refl
              (p ∙ ap ok first),
          ih ms'' (q ∙ ap ok others),
        )

AllResolved-length :
    (d : Disk) (ns ms : List ChainNode) → AllResolved d ns ms → length ms ≡ length ns
AllResolved-length d [] [] h = refl
AllResolved-length d [] (m ∷ ms) h = elim h [ ]
AllResolved-length d (n ∷ ns) [] h = elim h [ ]
AllResolved-length d (n ∷ ns) (m ∷ ms) (p, h) = ap suc (AllResolved-length d ns ms h)

-- If `ResolveNodes` succeeds each node of the chain is resolved in its place: it has the address and
-- login of a host on the disk and the inbounds of its node record if there is one, and all its other
-- fields are the stored ones. Writing the result back with `SetAllNodes` makes it what the chain
-- holds, whether the chain has levels or not.
pub resolve_nodes-AllResolved :
    (c : Chain) (d : Disk) (ms : List ChainNode)
    → resolve_nodes c d ≡ ok ms
    → AllResolved d (all_nodes c) ms × (all_nodes (set_all_nodes ms c) ≡ ms)
unfolding resolve_nodes
resolve_nodes-AllResolved c d ms e =
    let h = resolve_all-AllResolved d (all_nodes c) ms e in
    (h, all_nodes-set_all_nodes ms c (AllResolved-length d (all_nodes c) ms h))
