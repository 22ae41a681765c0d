-- ===== src/Tests/Upgrade.antt =====
-- A store of schema 0: two naive inbounds on one port, a flat chain whose exit comes first, and a legacy
-- MTProxy user.
use mathlib.Core.List.{Perm}
use angry_box.Prelude.{◌≡◌, refl, String, List, [], ◌∷◌, true, false, map, some, arith, any, length}
use angry_box.Model.Base.{MtproxyUser}
use angry_box.Model.Chain.{Chain, ChainNode}
use angry_box.Model.Panel.{User, NodeInbound, NodeInfo}
use angry_box.Model.Levels.{all_nodes}
use angry_box.Entry.{
  chain_user_port, chain_entry_nodes, chain_entry_index, chain_entry_port, chain_user_inbound_tag,
}
use angry_box.Store.{StoreFile, new_store_file, Disk, holds}
use angry_box.Store.Nodes.{empty_node_info, with_info_id, hosted}
use angry_box.Store.Migrations.{purge_orphans}
use angry_box.Store.Migrations.Profiles.{
  is_used, is_standalone, all_inbounds, unique_migration_profile_id, migration_profile_id_base,
  profile_group, migrate_standalone,
}
use angry_box.Store.Migrations.Profiles.Naming.{unique_migration_profile_id-fresh}
use angry_box.Store.Migrations.Profiles.Fields.{AllLinked, migrate_standalone-AllLinked}
use angry_box.Store.Migrations.Levels.{
  set_refs, entry_profile_id, part_of, materialize_chain_entry_inbound, materialize_on,
  migrate_chain_to_levels,
}
use angry_box.Store.Migrations.Levels.Order.{migrate_chain_to_levels-Perm}
use angry_box.Store.Migrations.Once.{migrate_mtproxy_users, migrate_inbound_profiles, migrate_once}
use angry_box.Store.Migrations.Once.Current.{migrate_once-current, migrate_once-idempotent}
use angry_box.Samples.{host, node, blank_chain, blank_inbound, user}

upgrade : Unit {0}
unfolding all_nodes chain_user_port chain_entry_nodes chain_entry_index chain_user_inbound_tag
    is_standalone unique_migration_profile_id migration_profile_id_base profile_group
    migrate_standalone part_of materialize_chain_entry_inbound materialize_on
    migrate_chain_to_levels migrate_mtproxy_users migrate_inbound_profiles purge_orphans
upgrade = tt

abbrev naive : NodeInbound
naive = record blank_inbound { protocol = "naive"; port = 443 }

abbrev info : String → List NodeInbound → NodeInfo
info id ibs = record (with_info_id id empty_node_info) { inbounds = ibs }

abbrev exit_node : ChainNode
exit_node = record (node "b") { role = "exit" }

abbrev flat : Chain
flat = record blank_chain {
  name = "c";
  nodes = exit_node ∷ node "a" ∷ record (node "d") { role = "entry" } ∷ [];
}

abbrev legacy : MtproxyUser
legacy = record {
  id = "u";
  node_id = "a";
  name = "old";
  secret_hex = "ee";
  fake_tls_domain = "";
  order_index = 0;
  enabled = true;
  created_at = 4;
}

abbrev file : StoreFile
file = record new_store_file {
  schema_version = 0;
  hosts = host "a" "a:22" ∷ host "b" "b:22" ∷ [];
  users = user "u" ∷ [];
  mtproxy_users = legacy ∷ [];
  chains = flat ∷ [];
  node_infos = info "a" (naive ∷ []) ∷ info "b" (naive ∷ []) ∷ info "gone" [] ∷ [];
}

abbrev old_disk : Disk
old_disk = record { content = holds file; writable = λ sf. true }

naming_tests :
    (unique_migration_profile_id ("prof-naive-443" ∷ "prof-naive-443-2" ∷ []) "prof-naive-443"
      ≡ some "prof-naive-443-3")
    × (migration_profile_id_base "VLESS_x/y" 0 ≡ "prof-vless-x-y")
unfolding upgrade
naming_tests = (refl, refl)

-- The exit comes last, and the transit node keeps a level of its own.
level_tests :
    (map (λ (n : ChainNode). n.id) (all_nodes (migrate_chain_to_levels 9 flat file).0)
      ≡ "d" ∷ "a" ∷ "b" ∷ [])
    × (length (migrate_chain_to_levels 9 flat file).0.levels ≡ 3)
    × (map (λ (ni : NodeInfo). ni.host.id) (migrate_chain_to_levels 9 flat file).1.node_infos
        ≡ "a" ∷ "b" ∷ "gone" ∷ "d" ∷ [])
unfolding upgrade
level_tests = (refl, refl, refl)

user_tests : map (λ (u : User). u.id) (migrate_mtproxy_users file).users ≡ "u" ∷ "u_mtp" ∷ []
unfolding upgrade
user_tests = refl

entry_tests :
    (chain_entry_port flat "d" ≡ 8443) × (chain_user_inbound_tag flat "d" ≡ "ch-c-user-in")
unfolding upgrade
entry_tests = (refl, refl)

unique_migration_profile_id-fresh_example :
    (id : String) × (unique_migration_profile_id ("prof-awg" ∷ []) "prof-awg" ≡ some id)
    × (is_used ("prof-awg" ∷ []) id ≡ false)
unique_migration_profile_id-fresh_example =
    unique_migration_profile_id-fresh ("prof-awg" ∷ []) "prof-awg"

migrate_standalone-AllLinked_example :
    (sf' : StoreFile) × (migrate_standalone 9 file ≡ some sf')
    × AllLinked sf'.inbound_profiles (all_inbounds file.node_infos) (all_inbounds sf'.node_infos)
    × (any is_standalone (all_inbounds sf'.node_infos) ≡ false)
migrate_standalone-AllLinked_example = migrate_standalone-AllLinked 9 file (refl, (refl, tt))

migrate_chain_to_levels-Perm_example :
    Perm
      (all_nodes (migrate_chain_to_levels 9 flat file).0)
      (set_refs (entry_profile_id flat) 0 flat.nodes)
migrate_chain_to_levels-Perm_example = migrate_chain_to_levels-Perm 9 flat file refl

migrate_once-current_example :
    (sf' : StoreFile) × ((migrate_once 9 old_disk).content ≡ holds sf')
    × (sf'.schema_version ≡ 3)
    × (sf'.node_infos ≡ hosted sf')
migrate_once-current_example = migrate_once-current 9 old_disk file refl (omega arith) (λ f. refl)

migrate_once-idempotent_example :
    (migrate_once 10 (record (migrate_once 9 old_disk) { writable = λ f. false })).content
    ≡ (migrate_once 9 old_disk).content
migrate_once-idempotent_example = migrate_once-idempotent 9 10 old_disk (λ f. false) (λ f. refl)
