-- ===== src/Store/Consistent.antt =====
-- What the handlers of the store keep true of its tables: one row for each key, no edge of a chain
-- twice, and no MTProxy secret with two users of one node.
pub mod Edits
pub mod Pairs
use angry_box.Prelude.{◌≡◌, String, Bool, false, not, ◌&&◌, List, ◌=s◌, any, KeysDistinct}
use angry_box.Prelude.Apart.{Apart}
use angry_box.Model.Panel.{User}
use angry_box.Store.{StoreFile, Content, absent, unreadable, holds, Disk}
use angry_box.Store.Hosts.{host_id, info_id, metrics_id}
use angry_box.Store.Chains.{chain_name}
use angry_box.Store.Users.{user_id}
use angry_box.Store.Profiles.{profile_id}
use angry_box.Store.Routes.{rule_id, link_id, same_edge}

abbrev pub share_node : List String → List String → Bool
share_node xs ys = any (λ x. any (λ y. y =s x) ys) xs

-- Two users with one secret on one node.
abbrev pub share_secret : User → User → Bool
share_secret u v =
    not (u.id =s v.id)
    && not (u.mtproxy_secret =s "")
    && u.mtproxy_secret =s v.mtproxy_secret
    && share_node u.mtproxy_nodes v.mtproxy_nodes

pub record IsConsistent (sf : StoreFile) : Type 0 where
  pub hosts_distinct : KeysDistinct host_id sf.hosts
  pub chains_distinct : KeysDistinct chain_name sf.chains
  pub users_distinct : KeysDistinct user_id sf.users
  pub infos_distinct : KeysDistinct info_id sf.node_infos
  pub metrics_distinct : KeysDistinct metrics_id sf.metrics
  pub rules_distinct : KeysDistinct rule_id sf.route_rules
  pub links_distinct : KeysDistinct link_id sf.links
  pub profiles_distinct : KeysDistinct profile_id sf.inbound_profiles
  pub edges_apart : Apart same_edge sf.links
  pub secrets_apart : Apart share_secret sf.users

-- The file on the disk is consistent, if there is one that can be read.
abbrev pub IsSound : Content → Type 0
IsSound absent = Unit
IsSound unreadable = Unit
IsSound (holds sf) = IsConsistent sf
