-- ===== src/Store/Migrations/Once.antt =====
-- `migrateOnce` of internal/chain/store.go: the steps that bring a store to the current schema, run in order
-- and written once. The copies of the file made before a step and the log are left out. After the loop the
-- source drops orphans from the file it has read, and then forgets it; nothing of that reaches the disk.
pub mod Current
use angry_box.Prelude.{
  ℕ, zero, suc, ◌+◌, String, Bool, List, [], ◌∷◌, ◌++◌, map, Option, none, some, ◌=s◌, ltb,
  if◌then◌else◌, any, is_empty,
}
use angry_box.Prelude.Decimal.{◌+s◌}
use angry_box.Prelude.Int.{pos}
use angry_box.Model.Base.{Time, MtproxyUser}
use angry_box.Model.Panel.{User}
use angry_box.Store.{
  StoreFile, Content, holds, absent, unreadable, Disk, current_schema_version, write_store,
}
use angry_box.Store.Migrations.{purge_orphans}
use angry_box.Store.Migrations.Profiles.{migrate_standalone}
use angry_box.Store.Migrations.Levels.{migrate_chains}

abbrev pub mtproxy_domain_of : String → String
mtproxy_domain_of domain = if domain =s "" then "disk.yandex.ru" else domain

-- The user made from a legacy MTProxy user.
abbrev pub user_from : String → String → MtproxyUser → User
user_from id name m = record {
  id = id;
  name = name;
  telegram = "";
  telegram_id = pos 0;
  telegram_bind_code = "";
  telegram_bind_code_at = 0;
  email = "";
  expires_at = 0;
  active = m.enabled;
  protocols = [];
  imported_secret = "";
  secret_type = "";
  chain_names = [];
  vless_uuid = "";
  tuic_uuid = "";
  tuic_password = "";
  hysteria2_password = "";
  naive_username = "";
  naive_password = "";
  mieru_username = "";
  mieru_password = "";
  trusttunnel_username = "";
  trusttunnel_password = "";
  awg_private_key = "";
  awg_public_key = "";
  awg_address = "";
  awg_preshared_key = "";
  awg_rx_bytes = 0;
  awg_tx_bytes = 0;
  awg_rx_rate = 0;
  awg_tx_rate = 0;
  awg_traffic_at = 0;
  mtproxy_secret = m.secret_hex;
  mtproxy_domain = mtproxy_domain_of m.fake_tls_domain;
  mtproxy_order_index = m.order_index;
  mtproxy_nodes = m.node_id ∷ [];
  chain_exit = [];
  created_at = m.created_at;
  subscription_token = "";
  expire_strategy = "";
  usage_duration = 0;
  activation_deadline = 0;
  data_limit = 0;
  data_limit_reset_strategy = "";
  used_traffic = 0;
  lifetime_used_traffic = 0;
  first_use_at = 0;
  status = "";
  service_id = "";
  expiry_notified_at = 0;
}

abbrev pub is_taken : List String → String → Bool
is_taken names s = any (λ t. s =s t) names

abbrev pub mtproxy_id : List String → MtproxyUser → String
mtproxy_id ids m = if is_taken ids m.id then m.id +s "_mtp" else m.id

abbrev pub mtproxy_name : List String → MtproxyUser → String
mtproxy_name names m =
    if is_taken names m.name then m.name +s " (MTProxy @" +s m.node_id +s ")" else m.name

-- The loop over the legacy users, with the names and identifiers in use.
abbrev pub convert_users : List String → List String → List MtproxyUser → List User
convert_users names ids [] = []
convert_users names ids (m ∷ ms) =
    user_from (mtproxy_id ids m) (mtproxy_name names m) m
    ∷ convert_users (mtproxy_name names m ∷ names) (mtproxy_id ids m ∷ ids) ms

-- `migrateMtproxyUsers`
unfoldable pub migrate_mtproxy_users : StoreFile → StoreFile
migrate_mtproxy_users sf = if is_empty sf.mtproxy_users then sf else record sf {
  users =
      sf.users
      ++ convert_users (map (λ (u : User). u.name) sf.users) (map (λ (u : User). u.id) sf.users)
          sf.mtproxy_users;
  mtproxy_users = [];
}

abbrev pub with_chains : Time → Option StoreFile → Option StoreFile
with_chains now none = none
with_chains now (some sf) =
    let r = migrate_chains now sf.chains sf in some (record r.1 { chains = r.0 })

-- `migrateInboundProfiles` of internal/chain/migrate_v2.go
unfoldable pub migrate_inbound_profiles : Time → StoreFile → Option StoreFile
migrate_inbound_profiles now sf = with_chains now (migrate_standalone now sf)

-- `migrations[i]`
abbrev pub migration : Time → ℕ → StoreFile → Option StoreFile
migration now zero sf = some (migrate_mtproxy_users sf)
migration now (suc zero) sf = migrate_inbound_profiles now sf
migration now (suc (suc i)) sf = some (purge_orphans sf)

abbrev pub and_run : (StoreFile → Option StoreFile) → Option StoreFile → Option StoreFile
and_run rest none = none
and_run rest (some sf) = rest sf

-- The loop over the versions, from `i` on, for at most as many rounds as there are steps.
abbrev pub run_migrations : Time → ℕ → ℕ → StoreFile → Option StoreFile
run_migrations now zero i sf = some sf
run_migrations now (suc rounds) i sf =
    let next = run_migrations now rounds (suc i) in
    if ltb i current_schema_version
    then and_run (λ (sf' : StoreFile). next (record sf' { schema_version = suc i }))
        (migration now i sf)
    else some sf

abbrev pub write_migrated : Disk → Option StoreFile → Disk
write_migrated d none = d
write_migrated d (some sf) = (write_store sf d).1

abbrev pub migrate_content : Time → Disk → Content → Disk
migrate_content now d absent = d
migrate_content now d unreadable = d
migrate_content now d (holds sf) =
    if ltb sf.schema_version current_schema_version
    then write_migrated d (run_migrations now current_schema_version sf.schema_version sf)
    else d

-- `migrateOnce`
unfoldable pub migrate_once : Time → Disk → Disk
migrate_once now d = migrate_content now d d.content
