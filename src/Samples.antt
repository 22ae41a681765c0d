-- ===== src/Samples.antt =====
-- Small values for the tests: records with nothing set, and a disk with a few rows.
use angry_box.Prelude.{String, ℕ, true, false, List, [], ◌∷◌, none}
use angry_box.Prelude.Int.{ℤ, pos}
use angry_box.Model.Base.{Host, RouteRule}
use angry_box.Model.Panel.{User, NodeInbound, NodeMetrics, PanelSettings}
use angry_box.Model.Chain.{ChainNode, ChainLevel, Chain}
use angry_box.Store.{Disk, holds, new_store_file}

abbrev pub host : String → String → Host
host id addr = record { id = id; addr = addr; user = "root"; key_path = "/k" }

abbrev pub blank_user : User
blank_user = record {
  id = "";
  name = "";
  telegram = "";
  telegram_id = pos 0;
  telegram_bind_code = "";
  telegram_bind_code_at = 0;
  email = "";
  expires_at = 0;
  active = false;
  protocols = [];
  imported_secret = "";
  secret_type = "";
  chain_names = [];
  vless_uuid = "";
  tuic_uuid = "";
  tuic_password = "";
  hysteria2_password = "";
  naive_username = "";
  naive_password = "";
  mieru_username = "";
  mieru_password = "";
  trusttunnel_username = "";
  trusttunnel_password = "";
  awg_private_key = "";
  awg_public_key = "";
  awg_address = "";
  awg_preshared_key = "";
  awg_rx_bytes = 0;
  awg_tx_bytes = 0;
  awg_rx_rate = 0;
  awg_tx_rate = 0;
  awg_traffic_at = 0;
  mtproxy_secret = "";
  mtproxy_domain = "";
  mtproxy_order_index = 0;
  mtproxy_nodes = [];
  chain_exit = [];
  created_at = 0;
  subscription_token = "";
  expire_strategy = "";
  usage_duration = 0;
  activation_deadline = 0;
  data_limit = 0;
  data_limit_reset_strategy = "";
  used_traffic = 0;
  lifetime_used_traffic = 0;
  first_use_at = 0;
  status = "";
  service_id = "";
  expiry_notified_at = 0;
}

abbrev pub blank_inbound : NodeInbound
blank_inbound = record {
  protocol = "";
  port = 0;
  obfuscation = "";
  for_users = [];
  outbound_tag = "";
  source = "";
  tag = "";
  profile_id = "";
  uuid = "";
  server_priv_key = "";
  server_pub_key = "";
  short_id = "";
  server_name = "";
  obfs_password = "";
  tls_certificate = "";
  tls_private_key = "";
  awg_client_pub = "";
  awg_client_priv = "";
  awg_server_address = "";
  awg_cps_level = 0;
  awg_cps_mimicry = "";
  awg_cps_i1 = "";
  awg_cps_i2 = "";
  awg_cps_i3 = "";
  awg_cps_i4 = "";
  awg_cps_i5 = "";
  awg_h1 = "";
  awg_h2 = "";
  awg_h3 = "";
  awg_h4 = "";
  awg_version = "";
  awg3_mode = false;
  awg3_header_protection_key = "";
  awg3_content_padding_addition = "";
  awg3_rekey_after_time = "";
  mieru_transport = "";
}

abbrev pub blank_metrics : NodeMetrics
blank_metrics = record {
  host_id = "";
  online = false;
  state = "";
  state_reason = "";
  version = "";
  latency_ms = 0;
  bytes_sent = 0;
  bytes_recv = 0;
  last_checked = 0;
  state_changed_at = 0;
  consecutive_fails = 0;
  consecutive_oks = 0;
  os = "";
  sing_box_installed = false;
  awg_module_installed = false;
  awg_peer_transfer = [];
}

abbrev pub blank_node : ChainNode
blank_node = record {
  id = "";
  addr = "";
  user = "";
  key_path = "";
  port = 0;
  role = "";
  transit_priv_key = "";
  transit_short_id = "";
  transit_uuid = "";
  transit_awg_server_priv = "";
  transit_awg_server_pub = "";
  transit_awg_client_priv = "";
  transit_awg_client_pub = "";
  transit_awg_address = "";
  transit_awg_client_port = 0;
  exit_targets = [];
  exit_awg_links = [];
  exit_awg_server_priv = "";
  exit_awg_server_pub = "";
  exit_awg_listen_port = 0;
  inbound_ref = "";
  inbounds = [];
}

abbrev pub blank_chain : Chain
blank_chain = record {
  name = "";
  nodes = [];
  levels = [];
  strategy = "";
  transport = "";
  user_protocol = "";
  obfuscation_profile = "";
  user_entry_port = 0;
  awg_entry_server_priv = "";
  awg_entry_server_pub = "";
  awg_entry_client_pub = "";
  awg_cps_level = 0;
  awg_cps_mimicry = "";
  awg_cps_capture_domain = "";
  awg_cps_captured_domain = "";
  awg_cps_capture_failed_domain = "";
  awg_cps_i1 = "";
  awg_cps_i2 = "";
  awg_cps_i3 = "";
  awg_cps_i4 = "";
  awg_cps_i5 = "";
  awg_h1 = "";
  awg_h2 = "";
  awg_h3 = "";
  awg_h4 = "";
  tuic_entry_user_uuid = "";
  tuic_entry_user_password = "";
}

abbrev pub blank_rule : RouteRule
blank_rule = record {
  id = "";
  node_id = "";
  priority = pos 0;
  match_type = "";
  match_values = "";
  action = "";
  outbound_tag = "";
  user_ids = [];
  comment = "";
  enabled = false;
  created_at = 0;
}

abbrev pub blank_settings : PanelSettings
blank_settings = record {
  admin_password_hash = "";
  panel_country = "";
  language = "";
  metrics_interval = pos 0;
  ssh_keys = [];
  default_protocol = "";
  custom_presets = "";
  default_preset_by_protocol = [];
  default_ssh_key_id = "";
  default_reality_sni = "";
  services = "";
  offsite_backup = none;
  auto_relocate = none;
  telegram_bot = none;
}

abbrev pub user : String → User
user id = record blank_user { id = id; active = true }

abbrev pub metrics : String → ℕ → NodeMetrics
metrics state fails = record blank_metrics {
  host_id = "a";
  state = state;
  consecutive_fails = fails;
}

abbrev pub node : String → ChainNode
node id = record blank_node { id = id; addr = "old" }

abbrev pub level : List ChainNode → ChainLevel
level ns = record { id = "l"; strategy = "urltest"; nodes = ns }

abbrev pub two_levels : Chain
two_levels = record blank_chain {
  name = "c";
  levels = level (node "a" ∷ []) ∷ level (node "b" ∷ node "e" ∷ []) ∷ [];
}

abbrev pub rule : String → ℤ → RouteRule
rule id priority = record blank_rule { id = id; node_id = "a"; priority = priority }

-- Three hosts, one chain with two levels, three rules of one node.
abbrev pub disk : Disk
disk = record {
  content = holds (record new_store_file {
    revision = 7;
    hosts = host "a" "198.51.100.1" ∷ host "b" "198.51.100.2" ∷ host "e" "198.51.100.3" ∷ [];
    chains = two_levels ∷ [];
    route_rules = rule "r1" (pos 5) ∷ rule "r2" (pos 1) ∷ rule "r3" (pos 5) ∷ [];
  });
  writable = λ sf. true;
}
