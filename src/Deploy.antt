-- ===== src/Deploy.antt =====
-- internal/chain/profile_deploy.go: `ApplyProfileToNodes`, which brings an inbound profile to the nodes that are
-- asked for and takes it from the others. The loops run over a state with the report, the node records that the
-- first pass keeps for the last one, and the disk. What the key generators draw for a node is an argument. A port
-- is not negative.
pub mod Inbounds
pub mod Kept
pub mod Unsaved
pub mod Passes
pub mod Others
pub mod Refusal
pub mod Completion
pub mod Marks
pub mod Placement
use angry_box.Prelude.{
  ℕ, ◌+◌, String, Bool, true, false, not, ◌&&◌, ◌||◌, List, [], ◌∷◌, ◌++◌, map, Option, none, some,
  ◌==◌, ◌=s◌, if◌then◌else◌, first, any, keep, length, is_empty, find_by, upsert,
}
use angry_box.Model.Base.{Host}
use angry_box.Model.Panel.{NodeInbound, NodeInfo}
use angry_box.Model.Chain.{Chain, ChainNode, InboundProfile}
use angry_box.Model.Levels.{all_nodes, has_id}
use angry_box.Store.{StoreError, Result, ok, err, Disk}
use angry_box.Store.Hosts.{get_host}
use angry_box.Store.Nodes.{get_node_info, save_node_info, empty_node_info}
use angry_box.Store.Chains.{list_chains}
use angry_box.Store.Profiles.{from_profile, profile_nodes}
use angry_box.Awg.Presets.{PresetTable}
use angry_box.Awg.Material.{Generators}
use angry_box.Deploy.Inbounds.{
  Minted, Minting, inbound_port_conflict, sync_inbound, build_profile_inbound,
}

-- `ProfileDeployResult`
pub record ProfileDeployResult : Type 0 where
  pub added : List String
  pub removed : List String
  pub updated : List String
  pub blocked : List String
  pub users_lost_on : List (String × ℕ)

abbrev pub no_changes : ProfileDeployResult
no_changes = record { added = []; removed = []; updated = []; blocked = []; users_lost_on = [] }

-- `AffectedNodes`
unfoldable pub affected_nodes : ProfileDeployResult → List String
affected_nodes r = r.added ++ (r.removed ++ r.updated)

pub data DeployError : Type 0 where
  chains_unread : StoreError → DeployError
  node_unknown : String → StoreError → DeployError
  port_conflict : String → NodeInbound → DeployError
  not_built : String → DeployError
  not_saved : String → StoreError → DeployError

pub record Deploying : Type 0 where
  pub result : ProfileDeployResult
  pub targets : List NodeInfo
  pub disk : Disk

pub data Outcome : Type 0 where
  going : Deploying → Outcome
  stopped : DeployError → Deploying → Outcome

abbrev pub and_then : Outcome → (Deploying → Outcome) → Outcome
and_then (going s) k = k s
and_then (stopped e s) k = stopped e s

abbrev pub for_each : (String → Deploying → Outcome) → List String → Deploying → Outcome
for_each body [] s = going s
for_each body (id ∷ ids) s = and_then (body id s) (for_each body ids)

-- `curSet[id]`, `desSet[id]`
abbrev pub is_in : String → List String → Bool
is_in id ids = any (λ i. i =s id) ids

abbrev pub target_id : NodeInfo → String
target_id ni = ni.host.id

-- The node record that the first pass works with, new where the node has a host only.
abbrev pub host_record : Result Host → Result NodeInfo
host_record (ok h) = ok (record empty_node_info { host = h })
host_record (err e) = err e

abbrev pub record_or : Result NodeInfo → Result NodeInfo → Result NodeInfo
record_or (ok ni) other = ok ni
record_or (err e) other = other

abbrev pub node_record : String → Disk → Result NodeInfo
node_record id d = record_or (get_node_info id d) (host_record (get_host id d))

abbrev pub unless_conflict : String → NodeInfo → Option NodeInbound → Deploying → Outcome
unless_conflict id ni (some ib) s = stopped (port_conflict id ib) s
unless_conflict id ni none s = going (record s { targets = upsert target_id ni s.targets })

abbrev pub check_record : InboundProfile → String → Result NodeInfo → Deploying → Outcome
check_record prof id (err e) s = stopped (node_unknown id e) s
check_record prof id (ok ni) s =
    unless_conflict id ni (inbound_port_conflict ni prof.port prof.id) s

-- The pass before anything is written.
unfoldable pub preflight : InboundProfile → List String → String → Deploying → Outcome
preflight prof current id s =
    if is_in id current then going s else check_record prof id (node_record id s.disk) s

abbrev pub refers : String → String → ChainNode → Bool
refers profile_id node_id n = has_id node_id n && n.inbound_ref =s profile_id

-- `chainReferencingProfileOn`; the code takes a chain without a name for none.
unfoldable pub chain_referencing_profile_on : List Chain → String → String → String
chain_referencing_profile_on [] profile_id node_id = ""
chain_referencing_profile_on (c ∷ cs) profile_id node_id =
    let rest = chain_referencing_profile_on cs profile_id node_id in
    if any (refers profile_id node_id) (all_nodes c) then c.name else rest

-- What is left to say of a node whose record is to be written.
abbrev pub after_save :
    String → (Deploying → Deploying) → Result (Unit {0}) × Disk → Deploying → Outcome
after_save id note (ok u, d) s = going (note (record s { disk = d }))
after_save id note (err e, d) s = stopped (not_saved id e) (record s { disk = d })

abbrev pub save : NodeInfo → String → (Deploying → Deploying) → Deploying → Outcome
save ni id note s = after_save id note (save_node_info ni s.disk) s

-- `res.UsersLostOn[nodeID]`: the users of the last such inbound that has any.
abbrev pub lost_users : ℕ → List NodeInbound → ℕ
lost_users n [] = n
lost_users n (ib ∷ ibs) = lost_users (if is_empty ib.for_users then n else length ib.for_users) ibs

abbrev pub lost_on : String → ℕ → List (String × ℕ) → List (String × ℕ)
lost_on id n lost = if n == 0 then lost else (id, n) ∷ lost

abbrev pub note_removed : String → Deploying → Deploying
note_removed id s = record s { result = record s.result { removed = s.result.removed ++ id ∷ [] } }

abbrev pub note_lost : String → ℕ → Deploying → Deploying
note_lost id n s = record s {
  result = record s.result { users_lost_on = lost_on id n s.result.users_lost_on };
}

abbrev pub note_blocked : String → Deploying → Deploying
note_blocked id s = record s { result = record s.result { blocked = s.result.blocked ++ id ∷ [] } }

abbrev pub note_updated : String → Deploying → Deploying
note_updated id s = record s { result = record s.result { updated = s.result.updated ++ id ∷ [] } }

abbrev pub note_added : String → Deploying → Deploying
note_added id s = record s { result = record s.result { added = s.result.added ++ id ∷ [] } }

abbrev pub without_profile : String → NodeInfo → NodeInfo
without_profile profile_id ni = record ni {
  inbounds = keep (λ ib. not (from_profile profile_id ib)) ni.inbounds;
}

abbrev pub of_profile : String → NodeInfo → List NodeInbound
of_profile profile_id ni = keep (from_profile profile_id) ni.inbounds

abbrev pub remove_record : String → String → Result NodeInfo → Deploying → Outcome
remove_record profile_id id (err e) s = going s
remove_record profile_id id (ok ni) s =
    if is_empty (of_profile profile_id ni)
    then going s
    else save (without_profile profile_id ni) id (note_removed id)
        (note_lost id (lost_users 0 (of_profile profile_id ni)) s)

-- The pass over the nodes that lose the profile.
unfoldable pub removal : InboundProfile → List Chain → List String → String → Deploying → Outcome
removal prof chains desired id s =
    if is_in id desired
    then going s
    else if not (chain_referencing_profile_on chains prof.id id =s "")
    then going (note_blocked id s)
    else remove_record prof.id id (get_node_info id s.disk) s

module _ (table : PresetTable) (g : Generators) (mint : Minting) where
  abbrev pub synced : InboundProfile → NodeInfo → NodeInfo
  synced prof ni = record ni { inbounds = map (λ ib. (sync_inbound table g prof ib).0) ni.inbounds }

  abbrev pub is_changed : InboundProfile → NodeInfo → Bool
  is_changed prof ni = any (λ ib. (sync_inbound table g prof ib).1) ni.inbounds

  abbrev pub update_record : InboundProfile → String → Result NodeInfo → Deploying → Outcome
  update_record prof id (err e) s = going s
  update_record prof id (ok ni) s =
      if is_changed prof ni then save (synced prof ni) id (note_updated id) s else going s

  -- The pass over the nodes that keep the profile.
  unfoldable pub refresh : InboundProfile → List String → String → Deploying → Outcome
  refresh prof desired id s =
      if not (is_in id desired) then going s else update_record prof id (get_node_info id s.disk) s

  -- The record is the one that `addTargets` points to: a second round for the node finds the inbound in it.
  abbrev pub add_built : String → NodeInfo → Option NodeInbound → Deploying → Outcome
  add_built id ni none s = stopped (not_built id) s
  add_built id ni (some ib) s =
      let ni' = record ni { inbounds = ni.inbounds ++ ib ∷ [] } in
      save ni' id (note_added id) (record s { targets = upsert target_id ni' s.targets })

  abbrev pub add_target : InboundProfile → String → Option NodeInfo → Deploying → Outcome
  add_target prof id none s = going s
  add_target prof id (some ni) s =
      add_built id ni (build_profile_inbound table g (mint ni) prof ni) s

  -- The pass over the nodes that get the profile.
  unfoldable pub addition : InboundProfile → List String → String → Deploying → Outcome
  addition prof current id s =
      if is_in id current then going s else add_target prof id (find_by target_id id s.targets) s

  abbrev pub passes : InboundProfile → List String → List String → List Chain → Deploying → Outcome
  passes prof current desired chains s =
      and_then (for_each (preflight prof current) desired s) (λ s1.
        and_then (for_each (removal prof chains desired) current s1) (λ s2.
          and_then (for_each (refresh prof desired) current s2)
            (for_each (addition prof current) desired)))

  abbrev pub with_chains :
      InboundProfile → List String → List String → Result (List Chain) → Deploying → Outcome
  with_chains prof current desired (err e) s = stopped (chains_unread e) s
  with_chains prof current desired (ok chains) s = passes prof current desired chains s

  abbrev pub start : Disk → Deploying
  start d = record { result = no_changes; targets = []; disk = d }

  -- `ApplyProfileToNodes`
  unfoldable pub apply_profile_to_nodes : InboundProfile → List String → Disk → Outcome
  apply_profile_to_nodes prof desired d =
      with_chains prof (profile_nodes prof.id d) desired (list_chains d) (start d)
