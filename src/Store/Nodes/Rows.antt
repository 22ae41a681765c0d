-- ===== src/Store/Nodes/Rows.antt =====
-- The inbounds of a node through `SaveNodeInfo`, and the node records that the passes read.
use angry_box.Prelude.{
  ◌≡◌, refl, ap, ◌⊎◌, inl, inr, String, List, [], ◌∷◌, Option, none, some, arith, ◌=s◌, =s_iff,
  if◌then◌else◌, find_by, find_by-upsert, upsert, Bool-cases,
}
use angry_box.Model.Panel.{NodeInbound, NodeInfo}
use angry_box.Store.{
  StoreFile, new_store_file, bump, StoreError, Result, ok, err, Disk, found, node_info_not_found,
  Content, absent, unreadable, holds, write_failed, read_failed, update, query,
}
use angry_box.Store.Hosts.{info_id}
use angry_box.Store.Nodes.{get_node_info, save_node_info}

abbrev pub inbounds_of : Result NodeInfo → List NodeInbound
inbounds_of (ok ni) = ni.inbounds
inbounds_of (err e) = []

-- The inbounds of a node; none where it has no record.
abbrev pub inbounds_at : String → Disk → List NodeInbound
inbounds_at id d = inbounds_of (get_node_info id d)

-- A save that succeeds sets the inbounds of its node and of no other, one that fails sets none.
abbrev pub IsSaved : NodeInfo → Disk → Type 0
IsSaved ni d =
    ((save_node_info ni d).0 ≡ ok tt)
      × ((id : String)
          → inbounds_at id (save_node_info ni d).1
            ≡ (if ni.host.id =s id then ni.inbounds else inbounds_at id d))
    ⊎ (e : StoreError) × ((save_node_info ni d).0 ≡ err e) × ((save_node_info ni d).1 ≡ d)

pub save_node_info-IsSaved : (ni : NodeInfo) (d : Disk) → IsSaved ni d
unfolding save_node_info get_node_info update query
save_node_info-IsSaved ni d = by_content d.content
  where
    by_row :
        (id : String) (o : Option NodeInfo)
        → inbounds_of (found (node_info_not_found id) (if ni.host.id =s id then some ni else o)) ≡ (
            if ni.host.id =s id
            then ni.inbounds
            else inbounds_of (found (node_info_not_found id) o))
    by_row id o = elim (Bool-cases (ni.host.id =s id)) [
      | inl own ↦ rw own refl
      | inr other ↦ rw other refl
    ]

    edited : StoreFile → StoreFile
    edited sf = record sf { node_infos = upsert info_id ni sf.node_infos }

    by_content : (c : Content) → IsSaved ni (record { content = c; writable = d.writable })
    by_content absent = elim (Bool-cases (d.writable (bump (edited new_store_file)))) [
      | inl written ↦ rw written (inl (refl, λ id. by_row id none))
      | inr refused ↦ rw refused (inr (write_failed, refl, refl))
    ]
    by_content unreadable = inr (read_failed, refl, refl)
    by_content (holds sf) = elim (Bool-cases (d.writable (bump (edited sf)))) [
      | inl written ↦ rw written (
          inl (
            refl,
            λ id.
                rw (find_by-upsert info_id id ni sf.node_infos)
                  (by_row id (find_by info_id id sf.node_infos)),
          ))
      | inr refused ↦ rw refused (inr (write_failed, refl, refl))
    ]

-- A record that is found is that of its own identifier.
pub inbounds_at-found :
    (id : String) (d : Disk) (ni : NodeInfo)
    → get_node_info id d ≡ ok ni
    → (ni.host.id ≡ id) × (inbounds_at id d ≡ ni.inbounds)
unfolding get_node_info query
inbounds_at-found id d ni h = by_content d.content h
  where
    by_row :
        (rows : List NodeInfo)
        → found (node_info_not_found id) (find_by info_id id rows) ≡ ok ni
        → ni.host.id ≡ id
    by_row [] e = cc
    by_row (x ∷ xs) e = elim (Bool-cases (info_id x =s id)) [
      | inl own ↦ ground (arith, e, own, =s_iff (info_id x) id)
      | inr other ↦ by_row xs (rw other at e)
    ]

    by_content :
        (c : Content)
        → get_node_info id (record { content = c; writable = d.writable }) ≡ ok ni
        → (ni.host.id ≡ id)
          × (inbounds_at id (record { content = c; writable = d.writable }) ≡ ni.inbounds)
    by_content absent e = cc
    by_content unreadable e = cc
    by_content (holds sf) e = (by_row sf.node_infos e, ap inbounds_of e)
