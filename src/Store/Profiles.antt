-- ===== src/Store/Profiles.antt =====
-- The `inbound_profiles` table of internal/chain/store.go.
use angry_box.Prelude.{
  or_else, String, Bool, List, [], ◌∷◌, map, Option, none, some, ◌=s◌, if◌then◌else◌, first, any,
  keep, find_by, upsert, remove_by, has_key,
}
use angry_box.Model.Base.{Time}
use angry_box.Model.Panel.{NodeInfo, NodeInbound}
use angry_box.Model.Chain.{Chain, ChainNode, InboundProfile}
use angry_box.Model.Levels.{all_nodes}
use angry_box.Store.Hosts.{info_id}
use angry_box.Store.{
  StoreFile, read_failed, profile_not_found, profile_in_use, Result, ok, err, Disk, M,
  new_store_file, update, query, found, stamp,
}

abbrev pub profile_id : InboundProfile → String
profile_id p = p.id

abbrev pub put_profile : InboundProfile → StoreFile → Result StoreFile
put_profile p sf = ok (record sf { inbound_profiles = upsert profile_id p sf.inbound_profiles })

-- `SaveInboundProfile`
unfoldable pub save_inbound_profile : InboundProfile → Time → M (Unit {0})
save_inbound_profile p now =
    update (ok new_store_file) (put_profile (record p { created_at = stamp now p.created_at }))

-- `GetInboundProfile`
unfoldable pub get_inbound_profile : String → Disk → Result InboundProfile
get_inbound_profile id =
    query (err (profile_not_found id))
      (λ sf. found (profile_not_found id) (find_by profile_id id sf.inbound_profiles))

-- `ListInboundProfiles`
unfoldable pub list_inbound_profiles : Disk → Result (List InboundProfile)
list_inbound_profiles = query (ok []) (λ sf. ok sf.inbound_profiles)

abbrev pub refers_to : String → ChainNode → Bool
refers_to id n = n.inbound_ref =s id

abbrev pub in_chain : Chain → Option ChainNode → Option (Chain × ChainNode)
in_chain c none = none
in_chain c (some n) = some (c, n)

-- The first node, of the first chain that has one, which refers to the profile.
abbrev pub first_use : String → List Chain → Option (Chain × ChainNode)
first_use id [] = none
first_use id (c ∷ cs) = or_else (in_chain c (first (refers_to id) (all_nodes c))) (first_use id cs)

abbrev pub refuse_used : String → Option (Chain × ChainNode) → Result StoreFile → Result StoreFile
refuse_used id none r = r
refuse_used id (some (c, n)) r = err (profile_in_use id c.name n.id)

abbrev pub drop_profile : String → StoreFile → Result StoreFile
drop_profile id sf =
    if has_key profile_id id sf.inbound_profiles
    then refuse_used id (first_use id sf.chains)
        (ok (record sf { inbound_profiles = remove_by profile_id id sf.inbound_profiles }))
    else err (profile_not_found id)

-- `DeleteInboundProfile`
unfoldable pub delete_inbound_profile : String → M (Unit {0})
delete_inbound_profile id = update (err read_failed) (drop_profile id)

abbrev pub from_profile : String → NodeInbound → Bool
from_profile id ib = ib.profile_id =s id

abbrev pub deployed_on : String → StoreFile → List String
deployed_on id sf = map info_id (keep (λ ni. any (from_profile id) ni.inbounds) sf.node_infos)

abbrev pub ok_or {ℓ} : {A : Type ℓ} → A → Result A → A
ok_or a (ok b) = b
ok_or a (err e) = a

-- `ProfileNodes`
unfoldable pub profile_nodes : String → Disk → List String
profile_nodes id d = ok_or [] (query (ok []) (λ sf. ok (deployed_on id sf)) d)

-- The loop of `ProfileInboundOn`, which goes on past a record of the node without the profile.
abbrev pub inbound_on : String → String → List NodeInfo → Option NodeInbound
inbound_on node id [] = none
inbound_on node id (ni ∷ nis) =
    let rest = inbound_on node id nis in
    if ni.host.id =s node then or_else (first (from_profile id) ni.inbounds) rest else rest

-- `ProfileInboundOn`
unfoldable pub profile_inbound_on : String → String → Disk → Option NodeInbound
profile_inbound_on node id d =
    ok_or none (query (ok none) (λ sf. ok (inbound_on node id sf.node_infos)) d)
