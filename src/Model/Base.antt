-- ===== src/Model/Base.antt =====
-- The scalar types of the panel's records, and internal/domain/model/backend.go with the small
-- records of panel.go. A Go time is the number of nanoseconds since the zero time, so that 0 is
-- `time.Time{}`; a float64 is its bit pattern, which the code stores and never computes with.
use angry_box.Prelude.{ℕ, String, Bool, List, ◌==◌}
use angry_box.Prelude.Int.{ℤ}

abbrev pub Time : Type 0
Time = ℕ

-- `t.IsZero()`
abbrev pub is_zero : Time → Bool
is_zero t = t == 0

abbrev pub Float64 : Type 0
Float64 = ℕ

abbrev pub TransportType : Type 0
TransportType = String

-- The pair of kernel byte counters of one peer, received and sent.
abbrev pub Counters : Type 0
Counters = ℕ × ℕ

pub record Host : Type 0 where
  pub id : String
  pub addr : String
  pub user : String
  pub key_path : String

pub record KnownHost : Type 0 where
  pub addr : String
  pub fingerprint : String
  pub first_seen : Time
  pub trusted : Bool

pub record Status : Type 0 where
  pub running : Bool
  pub version : String
  pub pid : ℕ
  pub uptime : String
  pub error : String
  pub os : String
  pub sing_box_installed : Bool
  pub awg_module_installed : Bool

pub record UtilityState : Type 0 where
  pub name : String
  pub installed : Bool
  pub version : String
  pub installed_at : Time
  pub revision : ℕ
  pub status : String

pub record SshKeyEntry : Type 0 where
  pub id : String
  pub name : String
  pub key_path : String
  pub key_data : String
  pub source : String
  pub fingerprint : String

pub record AutoRelocateConfig : Type 0 where
  pub enabled : Bool
  pub cooldown_hours : ℤ

pub record OffsiteBackupConfig : Type 0 where
  pub enabled : Bool
  pub host : String
  pub user : String
  pub ssh_key_id : String
  pub remote_path : String
  pub passphrase : String
  pub interval_min : ℤ
  pub last_backup_at : Time
  pub retention : ℤ
  pub scrypt_n : ℤ

pub record TelegramBotConfig : Type 0 where
  pub enabled : Bool
  pub token : String
  pub admin_ids : List ℤ
  pub notify_chat_id : ℤ

pub record HysteresisConfig : Type 0 where
  pub down_threshold : ℤ
  pub recover_threshold : ℤ

pub record ConnectionLink : Type 0 where
  pub id : String
  pub from_node_id : String
  pub to_node_id : String
  pub transport : TransportType
  pub chain_name : String
  pub label : String

pub record AuditLog : Type 0 where
  pub id : String
  pub actor : String
  pub action : String
  pub target_type : String
  pub target_id : String
  pub payload_json : String
  pub ts : Time

pub record RouteRule : Type 0 where
  pub id : String
  pub node_id : String
  pub priority : ℤ
  pub match_type : String
  pub match_values : String
  pub action : String
  pub outbound_tag : String
  pub user_ids : List String
  pub comment : String
  pub enabled : Bool
  pub created_at : Time

pub record MtproxyUser : Type 0 where
  pub id : String
  pub node_id : String
  pub name : String
  pub secret_hex : String
  pub fake_tls_domain : String
  pub order_index : ℕ
  pub enabled : Bool
  pub created_at : Time
