-- ===== src/Store/Machine.antt =====
-- All the handlers of internal/chain/store.go and store_utilities.go that write, as the commands of one
-- machine over the disk.
pub mod Safety
pub mod Revision
pub mod Effects
pub mod Directory
pub mod Writes
use angry_box.Prelude.{String, List, [], ◌∷◌}
use angry_box.Model.Base.{Time, Float64, Host, RouteRule, ConnectionLink, UtilityState}
use angry_box.Model.Panel.{User, NodeInfo, NodeMetrics, PanelSettings}
use angry_box.Model.Chain.{Chain, InboundProfile}
use angry_box.Store.{Disk, M}
use angry_box.Store.Hosts
use angry_box.Store.Chains
use angry_box.Store.Users
use angry_box.Store.Nodes
use angry_box.Store.Settings
use angry_box.Store.Profiles
use angry_box.Store.Routes
use angry_box.Store.Utilities

-- A call of a handler; `fresh` and `now` are what `newID()` and `timeNow()` return in it.
pub data Handler : Type 0 where
  save_host : Host → Handler
  delete_host : String → Handler
  save_chain : Chain → Handler
  delete_chain : String → Handler
  save_user : User → (now : Time) → Handler
  delete_user : String → Handler
  save_settings : PanelSettings → Handler
  save_node_info : NodeInfo → Handler
  delete_node_info : String → Handler
  save_metrics : NodeMetrics → (now : Time) → Handler
  save_node_position : String → (x y : Float64) → Handler
  save_inbound_profile : InboundProfile → (now : Time) → Handler
  delete_inbound_profile : String → Handler
  save_route_rule : RouteRule → (fresh : String) → (now : Time) → Handler
  delete_route_rule : String → Handler
  save_link : ConnectionLink → (fresh : String) → Handler
  delete_link : String → Handler
  set_utility_state : String → UtilityState → Handler

unfoldable pub exec : Handler → M (Unit {0})
exec (save_host h) = Hosts.save_host h
exec (delete_host id) = Hosts.delete_host id
exec (save_chain c) = Chains.save_chain c
exec (delete_chain name) = Chains.delete_chain name
exec (save_user u now) = Users.save_user u now
exec (delete_user id) = Users.delete_user id
exec (save_settings s) = Settings.save_settings s
exec (save_node_info ni) = Nodes.save_node_info ni
exec (delete_node_info id) = Nodes.delete_node_info id
exec (save_metrics m now) = Nodes.save_metrics m now
exec (save_node_position id x y) = Nodes.save_node_position id x y
exec (save_inbound_profile p now) = Profiles.save_inbound_profile p now
exec (delete_inbound_profile id) = Profiles.delete_inbound_profile id
exec (save_route_rule r fresh now) = Routes.save_route_rule r fresh now
exec (delete_route_rule id) = Routes.delete_route_rule id
exec (save_link l fresh) = Routes.save_link l fresh
exec (delete_link id) = Routes.delete_link id
exec (set_utility_state node u) = Utilities.set_utility_state node u

-- The disk after a sequence of calls, whatever each of them answered.
unfoldable pub run : List Handler → Disk → Disk
run [] d = d
run (h ∷ hs) d = run hs (exec h d).1
