-- ===== src/Store/Hosts.antt =====
-- The `hosts` table of internal/chain/store.go.
pub mod Laws
use angry_box.Prelude.{
  ℕ, zero, suc, ◌+◌, ◌<◌, ◌≡◌, String, Bool, true, false, not, ◌&&◌, ◌||◌, List, [], ◌∷◌, ◌++◌, map,
  Option, none, some, ◌==◌, ◌=s◌, ltb, leb, if◌then◌else◌, first, any, keep, find_by, upsert,
  remove_by, remove_first, has_key,
}
use angry_box.Model.Base.{Host}
use angry_box.Model.Panel.{NodeInfo, NodeMetrics}
use angry_box.Model.Chain.{Chain}
use angry_box.Model.Levels.{mentions}
use angry_box.Store.{
  StoreFile, StoreError, read_failed, write_failed, host_not_found, chain_not_found, user_not_found,
  profile_not_found, node_info_not_found, metrics_not_found, rule_not_found, link_not_found,
  host_referenced, profile_in_use, secret_used, link_exists, token_empty, token_not_found,
  utility_unnamed, Result, ok, err, Content, absent, unreadable, holds, Disk, M, new_store_file,
  write_store, update, query, ask, found, stamp, get_revision,
}

abbrev pub host_id : Host → String
host_id h = h.id

abbrev pub info_id : NodeInfo → String
info_id n = n.host.id

abbrev pub metrics_id : NodeMetrics → String
metrics_id m = m.host_id

abbrev pub put_host : Host → StoreFile → Result StoreFile
put_host h sf = ok (record sf { hosts = upsert host_id h sf.hosts })

-- `SaveHost`
unfoldable pub save_host : Host → M (Unit {0})
save_host h = update (ok new_store_file) (put_host h)

-- `GetHost`
unfoldable pub get_host : String → Disk → Result Host
get_host id =
    query (err (host_not_found id)) (λ sf. found (host_not_found id) (find_by host_id id sf.hosts))

-- `ListHosts`
unfoldable pub list_hosts : Disk → Result (List Host)
list_hosts = query (ok []) (λ sf. ok sf.hosts)

abbrev pub refuse_referenced : String → Option Chain → Result StoreFile → Result StoreFile
refuse_referenced id none r = r
refuse_referenced id (some c) r = err (host_referenced id c.name)

-- The edit of `DeleteHost`: the host, its node record and its metrics go together, unless a chain
-- still holds the host.
abbrev pub drop_host : String → StoreFile → Result StoreFile
drop_host id sf = refuse_referenced id (first (mentions id) sf.chains) (
    if has_key host_id id sf.hosts
    then ok (record sf {
      hosts = remove_by host_id id sf.hosts;
      node_infos = remove_by info_id id sf.node_infos;
      metrics = remove_by metrics_id id sf.metrics;
    })
    else err (host_not_found id))

-- `DeleteHost`
unfoldable pub delete_host : String → M (Unit {0})
delete_host id = update (err (host_not_found id)) (drop_host id)
