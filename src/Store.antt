-- ===== src/Store.antt =====
-- internal/chain/store.go: the JSON-file store behind the panel. A handler is a function of the disk:
-- it reads the whole file, edits one of its tables and writes the whole file back.
-- `Content` says what `readStore` would find; how bytes, the JSON text and the at-rest encryption
-- give that answer is below this model. A write either replaces the file (the temporary file was
-- renamed over it) or fails and leaves it. The store's mutex makes each handler one step.
-- List elements are never `nil`: no handler stores a nil pointer.
pub mod Laws
pub mod Hosts
pub mod Chains
pub mod Users
pub mod Nodes
pub mod Settings
pub mod Profiles
pub mod Routes
pub mod Utilities
pub mod Consistent
pub mod Migrations
pub mod Machine
use angry_box.Prelude.{
  ℕ, zero, suc, ◌+◌, String, Bool, true, false, List, [], ◌∷◌, Option, none, some, if◌then◌else◌,
}
use angry_box.Model.Base.{
  Time, is_zero, KnownHost, Host, ConnectionLink, AuditLog, RouteRule, MtproxyUser,
}
use angry_box.Model.Panel.{User, PanelSettings, NodeInfo, NodeMetrics}
use angry_box.Model.Chain.{Chain, InboundProfile}

pub record StoreFile : Type 0 where
  pub schema_version : ℕ
  pub revision : ℕ
  pub hosts : List Host
  pub chains : List Chain
  pub users : List User
  pub settings : Option PanelSettings
  pub node_infos : List NodeInfo
  pub metrics : List NodeMetrics
  pub known_hosts : List KnownHost
  pub route_rules : List RouteRule
  pub audit_logs : List AuditLog
  pub mtproxy_users : List MtproxyUser
  pub links : List ConnectionLink
  pub inbound_profiles : List InboundProfile

abbrev pub current_schema_version : ℕ
current_schema_version = 3

abbrev pub new_store_file : StoreFile
new_store_file = record {
  schema_version = current_schema_version;
  revision = 0;
  hosts = [];
  chains = [];
  users = [];
  settings = none;
  node_infos = [];
  metrics = [];
  known_hosts = [];
  route_rules = [];
  audit_logs = [];
  mtproxy_users = [];
  links = [];
  inbound_profiles = [];
}

-- The errors, with the values that their messages and sentinels carry.
pub data StoreError : Type 0 where
  read_failed write_failed : StoreError
  host_not_found chain_not_found user_not_found profile_not_found : String → StoreError
  node_info_not_found metrics_not_found rule_not_found link_not_found : String → StoreError
  host_referenced : (host chain : String) → StoreError
  profile_in_use : (profile chain node : String) → StoreError
  secret_used : (node : String) → StoreError
  link_exists : (from to chain : String) → StoreError
  token_empty token_not_found utility_unnamed : StoreError

pub data Result {ℓ} (A : Type ℓ) : Type ℓ where
  ok : A → Result A
  err : StoreError → Result A

pub data Content : Type 0 where
  absent : Content
  unreadable : Content
  holds : StoreFile → Content

-- `writable` says of each file whether a write of it would succeed, so that each write succeeds or fails on its
-- own: no two writes that succeed are of one file, since the revision grows.
pub record Disk : Type 0 where
  pub content : Content
  pub writable : StoreFile → Bool

abbrev pub M : Type 0 → Type 0
M A = Disk → Result A × Disk

-- What `readStore` answers; `missing` says what a handler makes of a file that is not there.
abbrev pub answer : Result StoreFile → Content → Result StoreFile
answer missing absent = missing
answer missing unreadable = err read_failed
answer missing (holds sf) = ok sf

abbrev pub bump : StoreFile → StoreFile
bump sf = record sf { revision = sf.revision + 1 }

-- `writeStore`: the revision grows by one with every write.
abbrev pub write_store : StoreFile → M (Unit {0})
write_store sf d =
    if d.writable (bump sf)
    then (ok tt, record d { content = holds (bump sf) })
    else (err write_failed, d)

abbrev pub revision_of : Content → ℕ
revision_of absent = 0
revision_of unreadable = 0
revision_of (holds sf) = sf.revision

-- `GetRevision`
abbrev pub get_revision : Disk → ℕ
get_revision d = revision_of d.content

-- A handler that edits the file: read it, edit the tables or refuse, write it back.
abbrev pub write_edited : Result StoreFile → M (Unit {0})
write_edited (ok sf) d = write_store sf d
write_edited (err e) d = (err e, d)

abbrev pub edit_read : (StoreFile → Result StoreFile) → Result StoreFile → M (Unit {0})
edit_read f (ok sf) d = write_edited (f sf) d
edit_read f (err e) d = (err e, d)

unfoldable pub update : Result StoreFile → (StoreFile → Result StoreFile) → M (Unit {0})
update missing f d = edit_read f (answer missing d.content) d

-- A handler that only reads, with what it answers where there is no file.
abbrev pub ask : {A : Type 0} → Result A → (StoreFile → Result A) → Content → Result A
ask missing f absent = missing
ask missing f unreadable = err read_failed
ask missing f (holds sf) = f sf

unfoldable pub query : {A : Type 0} → Result A → (StoreFile → Result A) → Disk → Result A
query missing f d = ask missing f d.content

abbrev pub found : {A : Type 0} → StoreError → Option A → Result A
found e none = err e
found e (some a) = ok a

-- `timeNow()` where the value has no creation time yet.
abbrev pub stamp : Time → Time → Time
stamp now t = if is_zero t then now else t
