-- ===== src/Tests/Migrations.antt =====
-- A file with the record and the metrics of a node whose host is gone.
use angry_box.Prelude.{◌≡◌, refl, [], ◌∷◌}
use angry_box.Store.{StoreFile, new_store_file}
use angry_box.Store.Nodes.{empty_node_info, with_info_id}
use angry_box.Store.Migrations.{purge_orphans}
use angry_box.Health.{healthy}
use angry_box.Samples.{host, metrics}

abbrev orphaned : StoreFile
orphaned = record new_store_file {
  hosts = host "b" "b:22" ∷ [];
  node_infos = with_info_id "a" empty_node_info ∷ with_info_id "b" empty_node_info ∷ [];
  metrics = metrics healthy 0 ∷ [];
}

purge_tests :
    ((purge_orphans orphaned).node_infos ≡ with_info_id "b" empty_node_info ∷ [])
    × ((purge_orphans orphaned).metrics ≡ [])
unfolding purge_orphans
purge_tests = (refl, refl)
