-- ===== src/Deploy/Others/Steps.antt =====
-- The inbounds that are not of the profile, through its update and its addition.
use angry_box.Deploy.Others.{others_at, is_other, IsTarget, Going, Unharmed, saved-Unharmed}
use angry_box.Awg.Material.{Generators}
use angry_box.Awg.Presets.{PresetTable}
use angry_box.Deploy.Kept.{
  profile_id-sync_inbound, other-sync_inbound, profile_id-build_profile_inbound,
}
use angry_box.Prelude.{
  ◌≡◌, refl, sym, ap, ◌∙◌, inl, inr, String, List, Option, none, some, keep, All-upsert, Bool-cases,
  map, ◌++◌, [], upsert, =s_refl, find_by, arith,
}
use angry_box.Model.Panel.{NodeInbound, NodeInfo}
use angry_box.Model.Chain.{InboundProfile}
use angry_box.Store.{Result, ok, err, Disk}
use angry_box.Store.Nodes.{get_node_info}
use angry_box.Store.Profiles.{from_profile}
use angry_box.Deploy.Inbounds.{Minting, sync_inbound, build_profile_inbound}
use angry_box.Deploy.{
  Deploying, is_in, target_id, PresetTable, Generators, Minting, addition, refresh, update_record,
  add_built, add_target, synced, is_changed, note_updated, note_added, ◌∷◌,
}
use angry_box.Store.Nodes.Rows.{inbounds_at-found}
use angry_box.Deploy.Passes.{Ends, Ends-save, All-find_by}

module _ (table : PresetTable) (g : Generators) (mint : Minting) (prof : InboundProfile)
    (d0 : Disk) where
  keep-synced :
      (ibs : List NodeInbound)
      → keep (is_other prof) (map (λ ib. (sync_inbound table g prof ib).0) ibs)
        ≡ keep (is_other prof) ibs
  keep-synced [] = refl
  keep-synced (ib ∷ ibs) = elim (Bool-cases (from_profile prof.id ib)) [
    | inl own ↦ rw (profile_id-sync_inbound table g prof ib, own) (keep-synced ibs)
    | inr other ↦
        rw (other-sync_inbound table g prof ib other, other) (ap (λ xs. ib ∷ xs) (keep-synced ibs))
  ]

  pub refresh-Going :
      (desired : List String) (id : String) (s : Deploying)
      → Going prof d0 s
      → Ends (Going prof d0) (Unharmed prof d0) (refresh table g mint prof desired id s)
  unfolding refresh
  refresh-Going desired id s (same, targets) = elim (Bool-cases (is_in id desired)) [
    | inr dropped ↦ rw dropped (same, targets)
    | inl kept ↦ rw kept (by_record (get_node_info id s.disk) refl)
  ]
    where
      by_record :
          (r : Result NodeInfo)
          → get_node_info id s.disk ≡ r
          → Ends (Going prof d0) (Unharmed prof d0) (update_record table g mint prof id r s)
      by_record (err e) at = (same, targets)
      by_record (ok ni) at = elim (Bool-cases (is_changed table g mint prof ni)) [
        | inr nothing ↦ rw nothing (same, targets)
        | inl changed ↦
            let (own, rows) = inbounds_at-found id s.disk ni at in
            let ni' = synced table g mint prof ni in
            let kept : keep (is_other prof) ni'.inbounds ≡ others_at prof ni'.host.id d0 =
              keep-synced ni.inbounds
              ∙ sym (ap (keep (is_other prof)) rows)
              ∙ same id
              ∙ ap (λ i. others_at prof i d0) (sym own) in
            rw changed (
              Ends-save (Going prof d0) (Unharmed prof d0) ni' id (note_updated id) s
                (λ after. (saved-Unharmed prof d0 ni' s _ kept same after, targets)) same)
      ]

  keep-own :
      (ibs : List NodeInbound) (ib : NodeInbound)
      → ib.profile_id ≡ prof.id
      → keep (is_other prof) (ibs ++ ib ∷ []) ≡ keep (is_other prof) ibs
  keep-own [] ib own = rw (own, =s_refl prof.id) refl
  keep-own (x ∷ xs) ib own = ground (arith, keep-own xs ib own)

  pub addition-Going :
      (current : List String) (id : String) (s : Deploying)
      → Going prof d0 s
      → Ends (Going prof d0) (Unharmed prof d0) (addition table g mint prof current id s)
  unfolding addition
  addition-Going current id s (same, targets) = elim (Bool-cases (is_in id current)) [
    | inl old ↦ rw old (same, targets)
    | inr new ↦ rw new (by_target (find_by target_id id s.targets) refl)
  ]
    where
      by_built :
          (ni : NodeInfo) (o : Option NodeInbound)
          → IsTarget prof d0 ni
          → build_profile_inbound table g (mint ni) prof ni ≡ o
          → Ends (Going prof d0) (Unharmed prof d0) (add_built table g mint id ni o s)
      by_built ni none target at = same
      by_built ni (some ib) target at =
          let ni' = record ni { inbounds = ni.inbounds ++ ib ∷ [] } in
          let own = profile_id-build_profile_inbound table g prof (mint ni) ni ib at in
          let kept : IsTarget prof d0 ni' = keep-own ni.inbounds ib own ∙ target in
          let s' = record s { targets = upsert target_id ni' s.targets } in
          Ends-save (Going prof d0) (Unharmed prof d0) ni' id (note_added id) s'
            (λ after. (
              saved-Unharmed prof d0 ni' s' _ kept same after,
              All-upsert (IsTarget prof d0) target_id ni' s.targets kept targets,
            ))
            same

      by_target :
          (o : Option NodeInfo)
          → find_by target_id id s.targets ≡ o
          → Ends (Going prof d0) (Unharmed prof d0) (add_target table g mint prof id o s)
      by_target none at = (same, targets)
      by_target (some ni) at =
          by_built ni (build_profile_inbound table g (mint ni) prof ni)
            (All-find_by (IsTarget prof d0) target_id id s.targets ni targets at).0 refl
