-- ===== src/Store/Consistent/Edits.antt =====
-- Each edit keeps the revision and the consistency of the tables.
use angry_box.Prelude.{
  first, remove_by, ◌≡◌, refl, String, Bool, true, false, not, Option, none, some, arith, ◌=s◌,
  if◌then◌else◌, Bool-cases, inl, inr, upsert-KeysDistinct, remove_by-KeysDistinct, has_key,
}
use angry_box.Prelude.Apart.{Apart-keep}
use angry_box.Model.Base.{Host, RouteRule}
use angry_box.Model.Panel.{NodeInfo, NodeMetrics, PanelSettings}
use angry_box.Model.Chain.{Chain, InboundProfile}
use angry_box.Model.Levels.{mentions}
use angry_box.Store.{StoreFile, StoreError, Result, ok, err}
use angry_box.Store.Hosts.{host_id, info_id, metrics_id, put_host, drop_host, refuse_referenced}
use angry_box.Store.Chains.{chain_name, put_chain, drop_chain, flattened}
use angry_box.Model.Chain.{ChainNode}
use angry_box.Store.{host_not_found}
use angry_box.Store.Nodes.{put_node_info, put_metrics, without_node}
use angry_box.Store.Profiles.{profile_id, put_profile, drop_profile, first_use, refuse_used}
use angry_box.Store.Routes.{rule_id, put_rule}
use angry_box.Store.Settings.{put_settings}
use angry_box.Store.Users.{user_id, drop_user}
use angry_box.Store.Consistent.{IsConsistent, share_secret}

abbrev pub Keeps : (StoreFile → Result StoreFile) → Type 0
Keeps f =
    (sf sf' : StoreFile)
    → f sf ≡ ok sf'
    → (sf'.revision ≡ sf.revision) × (IsConsistent sf → IsConsistent sf')

-- The value of a result.
ok-injective : {sf sf' : StoreFile} → ok sf ≡ ok sf' → sf ≡ sf'
ok-injective h = cc

pub keeps_of_eq :
    {sf sf' t : StoreFile}
    → ok t ≡ ok sf'
    → t.revision ≡ sf.revision
    → (IsConsistent sf → IsConsistent t)
    → (sf'.revision ≡ sf.revision) × (IsConsistent sf → IsConsistent sf')
keeps_of_eq h r c = rw (← ok-injective h) (r, c)

pub put_host-Keeps : (h : Host) → Keeps (put_host h)
put_host-Keeps h sf sf' e =
    keeps_of_eq e refl (λ c. assumption (upsert-KeysDistinct host_id h sf.hosts c.hosts_distinct))

pub put_chain-Keeps : (c : Chain) → Keeps (put_chain c)
put_chain-Keeps c sf sf' e =
    keeps_of_eq e refl
      (λ k. assumption (upsert-KeysDistinct chain_name (flattened c) sf.chains k.chains_distinct))

pub put_node_info-Keeps : (ni : NodeInfo) → Keeps (put_node_info ni)
put_node_info-Keeps ni sf sf' e =
    keeps_of_eq e refl
      (λ c. assumption (upsert-KeysDistinct info_id ni sf.node_infos c.infos_distinct))

pub put_metrics-Keeps : (m : NodeMetrics) → Keeps (put_metrics m)
put_metrics-Keeps m sf sf' e =
    keeps_of_eq e refl
      (λ c. assumption (upsert-KeysDistinct metrics_id m sf.metrics c.metrics_distinct))

pub put_profile-Keeps : (p : InboundProfile) → Keeps (put_profile p)
put_profile-Keeps p sf sf' e =
    keeps_of_eq e refl
      (λ c. assumption (upsert-KeysDistinct profile_id p sf.inbound_profiles c.profiles_distinct))

pub put_rule-Keeps : (r : RouteRule) → Keeps (put_rule r)
put_rule-Keeps r sf sf' e =
    keeps_of_eq e refl
      (λ c. assumption (upsert-KeysDistinct rule_id r sf.route_rules c.rules_distinct))

pub put_settings-Keeps : (s : PanelSettings) → Keeps (put_settings s)
put_settings-Keeps s sf sf' e = keeps_of_eq e refl (λ c. assumption)

-- An edit that refuses where a test fails.
pub keeps_if :
    (b : Bool) (x : StoreError) {sf sf' t : StoreFile}
    → (if b then ok t else err x) ≡ ok sf'
    → t.revision ≡ sf.revision
    → (IsConsistent sf → IsConsistent t)
    → (sf'.revision ≡ sf.revision) × (IsConsistent sf → IsConsistent sf')
keeps_if true x e r c = keeps_of_eq e r c
keeps_if false x e r c = absurd (cc)

pub drop_chain-Keeps : (name : String) → Keeps (drop_chain name)
drop_chain-Keeps name sf sf' e =
    keeps_if (has_key chain_name name sf.chains) _ e refl
      (λ c. assumption (remove_by-KeysDistinct chain_name name sf.chains c.chains_distinct))

pub drop_user-Keeps : (id : String) → Keeps (drop_user id)
drop_user-Keeps id sf sf' e = keeps_if (has_key user_id id sf.users) _ e refl (λ c. assumption (
  remove_by-KeysDistinct user_id id sf.users c.users_distinct,
  Apart-keep share_secret (λ u. not (u.id =s id)) sf.users c.secrets_apart,
))

pub without_node-IsConsistent :
    (id : String) (sf : StoreFile) → IsConsistent sf → IsConsistent (without_node id sf)
without_node-IsConsistent id sf c = assumption (
  remove_by-KeysDistinct info_id id sf.node_infos c.infos_distinct,
  remove_by-KeysDistinct metrics_id id sf.metrics c.metrics_distinct,
)

pub drop_host-Keeps : (id : String) → Keeps (drop_host id)
drop_host-Keeps id sf sf' e = go (first (mentions id) sf.chains) e
  where
    go :
        (o : Option Chain)
        → refuse_referenced id o (
            if has_key host_id id sf.hosts
            then ok (record (without_node id sf) { hosts = remove_by host_id id sf.hosts })
            else err (host_not_found id))
          ≡ ok sf'
        → (sf'.revision ≡ sf.revision) × (IsConsistent sf → IsConsistent sf')
    go none h = keeps_if (has_key host_id id sf.hosts) _ h refl (λ c. assumption (
      remove_by-KeysDistinct host_id id sf.hosts c.hosts_distinct,
      remove_by-KeysDistinct info_id id sf.node_infos c.infos_distinct,
      remove_by-KeysDistinct metrics_id id sf.metrics c.metrics_distinct,
    ))
    go (some c) h = absurd (cc)

pub drop_profile-Keeps : (id : String) → Keeps (drop_profile id)
drop_profile-Keeps id sf sf' e = elim (Bool-cases (has_key profile_id id sf.inbound_profiles)) [
  | inl there ↦ go (first_use id sf.chains) (rw there at e)
  | inr gone ↦ absurd (ground arith)
]
  where
    go :
        (o : Option (Chain × ChainNode))
        → refuse_used id o
            (ok (record sf { inbound_profiles = remove_by profile_id id sf.inbound_profiles }))
          ≡ ok sf'
        → (sf'.revision ≡ sf.revision) × (IsConsistent sf → IsConsistent sf')
    go none h = keeps_of_eq h refl (λ c.
        assumption (remove_by-KeysDistinct profile_id id sf.inbound_profiles c.profiles_distinct))
    go (some (c, n)) h = absurd (cc)
