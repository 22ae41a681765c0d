-- ===== src/Model/Panel.antt =====
-- internal/domain/model/panel.go: users, settings, nodes and their metrics.
use angry_box.Prelude.{ℕ, String, Bool, List, Option}
use angry_box.Prelude.Int.{ℤ}
use angry_box.Model.Base.{
  Time, Float64, Counters, Host, UtilityState, SshKeyEntry, AutoRelocateConfig, OffsiteBackupConfig,
  TelegramBotConfig,
}

pub record User : Type 0 where
  pub id : String
  pub name : String
  pub telegram : String
  pub telegram_id : ℤ
  pub telegram_bind_code : String
  pub telegram_bind_code_at : Time
  pub email : String
  pub expires_at : Time
  pub active : Bool
  pub protocols : List String
  pub imported_secret : String
  pub secret_type : String
  pub chain_names : List String
  pub vless_uuid : String
  pub tuic_uuid : String
  pub tuic_password : String
  pub hysteria2_password : String
  pub naive_username : String
  pub naive_password : String
  pub mieru_username : String
  pub mieru_password : String
  pub trusttunnel_username : String
  pub trusttunnel_password : String
  pub awg_private_key : String
  pub awg_public_key : String
  pub awg_address : String
  pub awg_preshared_key : String
  pub awg_rx_bytes : ℕ
  pub awg_tx_bytes : ℕ
  pub awg_rx_rate : ℕ
  pub awg_tx_rate : ℕ
  pub awg_traffic_at : Time
  pub mtproxy_secret : String
  pub mtproxy_domain : String
  pub mtproxy_order_index : ℕ
  pub mtproxy_nodes : List String
  pub chain_exit : List (String × String)
  pub created_at : Time
  pub subscription_token : String
  pub expire_strategy : String
  pub usage_duration : ℕ
  pub activation_deadline : Time
  pub data_limit : ℕ
  pub data_limit_reset_strategy : String
  pub used_traffic : ℕ
  pub lifetime_used_traffic : ℕ
  pub first_use_at : Time
  pub status : String
  pub service_id : String
  pub expiry_notified_at : Time

pub record PanelSettings : Type 0 where
  pub admin_password_hash : String
  pub panel_country : String
  pub language : String
  pub metrics_interval : ℤ
  pub ssh_keys : List SshKeyEntry
  pub default_protocol : String
  pub custom_presets : String
  pub default_preset_by_protocol : List (String × String)
  pub default_ssh_key_id : String
  pub default_reality_sni : String
  pub services : String
  pub offsite_backup : Option OffsiteBackupConfig
  pub auto_relocate : Option AutoRelocateConfig
  pub telegram_bot : Option TelegramBotConfig

pub record NodeMetrics : Type 0 where
  pub host_id : String
  pub online : Bool
  pub state : String
  pub state_reason : String
  pub version : String
  pub latency_ms : ℕ
  pub bytes_sent : ℕ
  pub bytes_recv : ℕ
  pub last_checked : Time
  pub state_changed_at : Time
  pub consecutive_fails : ℕ
  pub consecutive_oks : ℕ
  pub os : String
  pub sing_box_installed : Bool
  pub awg_module_installed : Bool
  pub awg_peer_transfer : List (String × Counters)

pub record TakeoverState : Type 0 where
  pub detected_type : String
  pub old_service_name : String
  pub old_config_path : String
  pub old_config_backup : String
  pub old_unit_backup : String
  pub old_enabled : Bool
  pub converted_inbounds : ℕ
  pub converted_at : Time
  pub status : String
  pub synthesized_user_ids : List String

pub record AwgOutbound : Type 0 where
  pub id : String
  pub tag : String
  pub enabled : Bool
  pub private_key : String
  pub address : String
  pub mtu : ℕ
  pub public_key : String
  pub preshared_key : String
  pub endpoint : String
  pub allowed_ips : String
  pub keepalive : ℕ
  pub jc : ℕ
  pub jmin : ℕ
  pub jmax : ℕ
  pub s1 : ℕ
  pub s2 : ℕ
  pub s3 : ℕ
  pub s4 : ℕ
  pub h1 : String
  pub h2 : String
  pub h3 : String
  pub h4 : String
  pub header_protection_key : String
  pub awg_version : String

pub record NodeInbound : Type 0 where
  pub protocol : String
  pub port : ℕ
  pub obfuscation : String
  pub for_users : List String
  pub outbound_tag : String
  pub source : String
  pub tag : String
  pub profile_id : String
  pub uuid : String
  pub server_priv_key : String
  pub server_pub_key : String
  pub short_id : String
  pub server_name : String
  pub obfs_password : String
  pub tls_certificate : String
  pub tls_private_key : String
  pub awg_client_pub : String
  pub awg_client_priv : String
  pub awg_server_address : String
  pub awg_cps_level : ℕ
  pub awg_cps_mimicry : String
  pub awg_cps_i1 : String
  pub awg_cps_i2 : String
  pub awg_cps_i3 : String
  pub awg_cps_i4 : String
  pub awg_cps_i5 : String
  pub awg_h1 : String
  pub awg_h2 : String
  pub awg_h3 : String
  pub awg_h4 : String
  pub awg_version : String
  pub awg3_mode : Bool
  pub awg3_header_protection_key : String
  pub awg3_content_padding_addition : String
  pub awg3_rekey_after_time : String
  pub mieru_transport : String

pub record NodeInfo : Type 0 where
  pub host : Host
  pub country : String
  pub bandwidth : String
  pub source : String
  pub auto_apply : Bool
  pub use_sudo : Bool
  pub last_deployed_hash : String
  pub last_deployed_at : Time
  pub pos_x : Float64
  pub pos_y : Float64
  pub inbounds : List NodeInbound
  pub awg_outbounds : List AwgOutbound
  pub pending_host_key_fingerprint : String
  pub takeover : Option TakeoverState
  pub spare : Bool
  pub auto_relocate : Bool
  pub last_auto_relocate_at : Time
  pub tls_domain : String
  pub utilities : List UtilityState
  pub panel_relay : Bool
  pub kernel_awg3_supported : Bool
