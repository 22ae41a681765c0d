-- ===== src/Deploy/Others.antt =====
-- The inbounds that are not of the profile, through `ApplyProfileToNodes`.
pub mod Steps
pub mod Untouched
use angry_box.Store.Chains.{list_chains}
use angry_box.Awg.Material.{Generators}
use angry_box.Awg.Presets.{PresetTable}
use angry_box.Deploy.Kept.{
  profile_id-sync_inbound, other-sync_inbound, profile_id-build_profile_inbound,
}
use angry_box.Prelude.{
  ◌≡◌, refl, sym, ap, ◌∙◌, inl, inr, String, Bool, not, List, Option, none, some, ◌=s◌, =s_iff,
  if◌then◌else◌, keep, keep-keep, is_empty, All, All-upsert, Bool-cases, map, ◌++◌, [], upsert,
  =s_refl, find_by, arith,
}
use angry_box.Model.Panel.{NodeInbound, NodeInfo}
use angry_box.Model.Chain.{Chain, InboundProfile}
use angry_box.Store.{Result, ok, err, Disk}
use angry_box.Store.Nodes.{get_node_info}
use angry_box.Store.Profiles.{from_profile, profile_nodes}
use angry_box.Deploy.Inbounds.{inbound_port_conflict, Minting, sync_inbound, build_profile_inbound}
use angry_box.Deploy.{
  Deploying, preflight, removal, is_in, node_record, check_record, unless_conflict, remove_record,
  target_id, of_profile, without_profile, chain_referencing_profile_on, note_removed, note_lost,
  lost_users, apply_profile_to_nodes, Outcome, PresetTable, Generators, Minting, addition, refresh,
  going, stopped, update_record, add_built, add_target, synced, is_changed, note_updated,
  note_added, with_chains, start, ◌∷◌,
}
use angry_box.Store.Nodes.Rows.{inbounds_at, inbounds_at-found}
use angry_box.Deploy.Passes.{
  Ends, Ends-save, node_record-found, Ends-and_then, Ends-for_each, All-find_by,
}

module _ (prof : InboundProfile) where
  abbrev pub is_other : NodeInbound → Bool
  is_other ib = not (from_profile prof.id ib)

  -- The inbounds of other profiles, and of none, on a node.
  abbrev pub others_at : String → Disk → List NodeInbound
  others_at id d = keep is_other (inbounds_at id d)

  module _ (d0 : Disk) where
    abbrev pub Unharmed : Deploying → Type 0
    Unharmed s = (id : String) → others_at id s.disk ≡ others_at id d0

    abbrev pub IsTarget : NodeInfo → Type 0
    IsTarget t = keep is_other t.inbounds ≡ others_at t.host.id d0

    abbrev pub Going : Deploying → Type 0
    Going s = Unharmed s × All IsTarget s.targets

    pub preflight-Going :
        (current : List String) (id : String) (s : Deploying)
        → Going s
        → Ends Going Unharmed (preflight prof current id s)
    unfolding preflight
    preflight-Going current id s (same, targets) = elim (Bool-cases (is_in id current)) [
      | inl old ↦ rw old (same, targets)
      | inr new ↦ rw new (by_record (node_record id s.disk) refl)
    ]
      where
        by_conflict :
            (ni : NodeInfo) (o : Option NodeInbound)
            → node_record id s.disk ≡ ok ni
            → Ends Going Unharmed (unless_conflict id ni o s)
        by_conflict ni (some ib) at = same
        by_conflict ni none at =
            let (own, rows) = node_record-found id s.disk ni at in
            let target : IsTarget ni =
              sym (ap (keep is_other) rows) ∙ same id ∙ ap (λ i. others_at i d0) (sym own) in
            (same, All-upsert IsTarget target_id ni s.targets target targets)

        by_record :
            (r : Result NodeInfo)
            → node_record id s.disk ≡ r
            → Ends Going Unharmed (check_record prof id r s)
        by_record (err e) at = same
        by_record (ok ni) at = by_conflict ni (inbound_port_conflict ni prof.port prof.id) at

    -- Rows that are written keep the inbounds of others where the new record does.
    pub saved-Unharmed :
        (ni : NodeInfo) (s : Deploying) (d : Disk)
        → keep is_other ni.inbounds ≡ others_at ni.host.id d0
        → Unharmed s
        → ((i : String)
            → inbounds_at i d ≡ (if ni.host.id =s i then ni.inbounds else inbounds_at i s.disk))
        → (i : String) → others_at i d ≡ others_at i d0
    saved-Unharmed ni s d kept same rows i = elim (Bool-cases (ni.host.id =s i)) [
      | inl own ↦
          ap (keep is_other) (rows i ∙ rw own refl)
          ∙ kept
          ∙ ap (λ j. others_at j d0) ((=s_iff ni.host.id i).0 own)
      | inr other ↦ ap (keep is_other) (rows i ∙ rw other refl) ∙ same i
    ]

    pub removal-Going :
        (chains : List Chain) (desired : List String) (id : String) (s : Deploying)
        → Going s
        → Ends Going Unharmed (removal prof chains desired id s)
    unfolding removal
    removal-Going chains desired id s (same, targets) = elim (Bool-cases (is_in id desired)) [
      | inl kept ↦ rw kept (same, targets)
      | inr dropped ↦ elim (Bool-cases (chain_referencing_profile_on chains prof.id id =s "")) [
        | inr blocked ↦ rw (dropped, blocked) (same, targets)
        | inl free ↦ rw (dropped, free) (by_record (get_node_info id s.disk) refl)
      ]
    ]
      where
        by_record :
            (r : Result NodeInfo)
            → get_node_info id s.disk ≡ r
            → Ends Going Unharmed (remove_record prof.id id r s)
        by_record (err e) at = (same, targets)
        by_record (ok ni) at = elim (Bool-cases (is_empty (of_profile prof.id ni))) [
          | inl nothing ↦ rw nothing (same, targets)
          | inr some_of ↦
              let (own, rows) = inbounds_at-found id s.disk ni at in
              let ni' = without_profile prof.id ni in
              let lost = note_lost id (lost_users 0 (of_profile prof.id ni)) s in
              let kept : keep is_other ni'.inbounds ≡ others_at ni'.host.id d0 =
                keep-keep is_other ni.inbounds
                ∙ sym (ap (keep is_other) rows)
                ∙ same id
                ∙ ap (λ i. others_at i d0) (sym own) in
              rw some_of (
                Ends-save Going Unharmed ni' id (note_removed id) lost
                  (λ after. (saved-Unharmed ni' lost _ kept same after, targets)) same)
        ]
