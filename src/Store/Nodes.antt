-- ===== src/Store/Nodes.antt =====
-- The `node_infos` and `metrics` tables of internal/chain/store.go.
pub mod Rows
use angry_box.Prelude.{
  String, false, ◌||◌, List, [], none, if◌then◌else◌, keep, find_by, upsert, remove_by, has_key,
}
use angry_box.Model.Base.{Time, Float64}
use angry_box.Model.Panel.{NodeInfo, NodeMetrics}
use angry_box.Store.Hosts.{host_id, info_id, metrics_id}
use angry_box.Store.{
  StoreFile, read_failed, node_info_not_found, metrics_not_found, Result, ok, err, Content, absent,
  unreadable, holds, Disk, M, new_store_file, write_store, update, query, found,
}

abbrev pub put_node_info : NodeInfo → StoreFile → Result StoreFile
put_node_info ni sf = ok (record sf { node_infos = upsert info_id ni sf.node_infos })

-- `SaveNodeInfo`
unfoldable pub save_node_info : NodeInfo → M (Unit {0})
save_node_info ni = update (ok new_store_file) (put_node_info ni)

-- `GetNodeInfo`
unfoldable pub get_node_info : String → Disk → Result NodeInfo
get_node_info id =
    query (err read_failed)
      (λ sf. found (node_info_not_found id) (find_by info_id id sf.node_infos))

-- The node records whose host is there.
abbrev pub hosted : StoreFile → List NodeInfo
hosted sf = keep (λ ni. has_key host_id ni.host.id sf.hosts) sf.node_infos

-- `ListNodeInfos`
unfoldable pub list_node_infos : Disk → Result (List NodeInfo)
list_node_infos = query (ok []) (λ sf. ok (hosted sf))

abbrev pub without_node : String → StoreFile → StoreFile
without_node id sf = record sf {
  node_infos = remove_by info_id id sf.node_infos;
  metrics = remove_by metrics_id id sf.metrics;
}

abbrev pub delete_found : String → Content → M (Unit {0})
delete_found id absent d = (ok tt, d)
delete_found id unreadable d = (err read_failed, d)
delete_found id (holds sf) d =
    if has_key info_id id sf.node_infos || has_key metrics_id id sf.metrics
    then write_store (without_node id sf) d
    else (ok tt, d)

-- `DeleteNodeInfo`: nothing is written where there is nothing to drop.
unfoldable pub delete_node_info : String → M (Unit {0})
delete_node_info id d = delete_found id d.content d

abbrev pub put_metrics : NodeMetrics → StoreFile → Result StoreFile
put_metrics m sf = ok (record sf { metrics = upsert metrics_id m sf.metrics })

-- `SaveMetrics`, which stamps the record with the time of the check.
unfoldable pub save_metrics : NodeMetrics → Time → M (Unit {0})
save_metrics m now = update (ok new_store_file) (put_metrics (record m { last_checked = now }))

-- `GetMetrics`
unfoldable pub get_metrics : String → Disk → Result NodeMetrics
get_metrics id =
    query (err read_failed) (λ sf. found (metrics_not_found id) (find_by metrics_id id sf.metrics))

-- `ListMetrics`
unfoldable pub list_metrics : Disk → Result (List NodeMetrics)
list_metrics = query (ok []) (λ sf. ok sf.metrics)

-- `&model.NodeInfo{}`
abbrev pub empty_node_info : NodeInfo
empty_node_info = record {
  host = record { id = ""; addr = ""; user = ""; key_path = "" };
  country = "";
  bandwidth = "";
  source = "";
  auto_apply = false;
  use_sudo = false;
  last_deployed_hash = "";
  last_deployed_at = 0;
  pos_x = 0;
  pos_y = 0;
  inbounds = [];
  awg_outbounds = [];
  pending_host_key_fingerprint = "";
  takeover = none;
  spare = false;
  auto_relocate = false;
  last_auto_relocate_at = 0;
  tls_domain = "";
  utilities = [];
  panel_relay = false;
  kernel_awg3_supported = false;
}

abbrev pub info_or_empty : Result NodeInfo → NodeInfo
info_or_empty (ok info) = info
info_or_empty (err e) = empty_node_info

abbrev pub with_info_id : String → NodeInfo → NodeInfo
with_info_id id info = record info {
  host = record {
    id = id;
    addr = info.host.addr;
    user = info.host.user;
    key_path = info.host.key_path;
  };
}

-- `SaveNodePosition`
unfoldable pub save_node_position : String → Float64 → Float64 → M (Unit {0})
unfolding get_node_info save_node_info
save_node_position id x y d =
    save_node_info
      (record (with_info_id id (info_or_empty (get_node_info id d))) { pos_x = x; pos_y = y }) d
