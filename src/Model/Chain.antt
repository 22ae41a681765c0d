-- ===== src/Model/Chain.antt =====
-- internal/domain/model/chain.go: chains, their levels and nodes.
use angry_box.Prelude.{ℕ, String, Bool, List}
use angry_box.Model.Base.{TransportType, Time}
use angry_box.Model.Panel.{NodeInbound}

abbrev pub Strategy : Type 0
Strategy = String

abbrev pub UserProtocol : Type 0
UserProtocol = String

abbrev pub ChainNodeRole : Type 0
ChainNodeRole = String

pub record AwgExitLink : Type 0 where
  pub target_id : String
  pub interface_name : String
  pub client_priv : String
  pub client_pub : String
  pub address : String
  pub client_port : ℕ

pub record ChainNode : Type 0 where
  pub id : String
  pub addr : String
  pub user : String
  pub key_path : String
  pub port : ℕ
  pub role : ChainNodeRole
  pub transit_priv_key : String
  pub transit_short_id : String
  pub transit_uuid : String
  pub transit_awg_server_priv : String
  pub transit_awg_server_pub : String
  pub transit_awg_client_priv : String
  pub transit_awg_client_pub : String
  pub transit_awg_address : String
  pub transit_awg_client_port : ℕ
  pub exit_targets : List String
  pub exit_awg_links : List AwgExitLink
  pub exit_awg_server_priv : String
  pub exit_awg_server_pub : String
  pub exit_awg_listen_port : ℕ
  pub inbound_ref : String
  pub inbounds : List NodeInbound

pub record ChainLevel : Type 0 where
  pub id : String
  pub strategy : Strategy
  pub nodes : List ChainNode

pub record Chain : Type 0 where
  pub name : String
  pub nodes : List ChainNode
  pub levels : List ChainLevel
  pub strategy : Strategy
  pub transport : TransportType
  pub user_protocol : UserProtocol
  pub obfuscation_profile : String
  pub user_entry_port : ℕ
  pub awg_entry_server_priv : String
  pub awg_entry_server_pub : String
  pub awg_entry_client_pub : String
  pub awg_cps_level : ℕ
  pub awg_cps_mimicry : String
  pub awg_cps_capture_domain : String
  pub awg_cps_captured_domain : String
  pub awg_cps_capture_failed_domain : String
  pub awg_cps_i1 : String
  pub awg_cps_i2 : String
  pub awg_cps_i3 : String
  pub awg_cps_i4 : String
  pub awg_cps_i5 : String
  pub awg_h1 : String
  pub awg_h2 : String
  pub awg_h3 : String
  pub awg_h4 : String
  pub tuic_entry_user_uuid : String
  pub tuic_entry_user_password : String

pub record InboundProfile : Type 0 where
  pub id : String
  pub name : String
  pub protocol : String
  pub port : ℕ
  pub obfuscation : String
  pub awg_cps_capture_domain : String
  pub awg_cps_mimicry : String
  pub awg_cps_level : ℕ
  pub awg_cps_i1 : String
  pub awg_cps_i2 : String
  pub awg_cps_i3 : String
  pub awg_cps_i4 : String
  pub awg_cps_i5 : String
  pub awg_h1 : String
  pub awg_h2 : String
  pub awg_h3 : String
  pub awg_h4 : String
  pub awg_cps_captured_domain : String
  pub awg_cps_capture_failed_domain : String
  pub awg_version : String
  pub awg3_mode : Bool
  pub awg3_header_protection_key : String
  pub awg3_content_padding_addition : String
  pub awg3_rekey_after_time : String
  pub mieru_transport : String
  pub server_name : String
  pub created_at : Time
