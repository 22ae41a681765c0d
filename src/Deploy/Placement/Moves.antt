-- ===== src/Deploy/Placement/Moves.antt =====
-- The passes of `ApplyProfileToNodes` that remove and update inbounds, followed at one node `id`.
use angry_box.Prelude.{
  ◌≡◌, refl, sym, ap, ◌∙◌, inl, inr, String, Bool, true, false, not, ◌&&◌, List, [], ◌∷◌, map, ◌=s◌,
  if◌then◌else◌, any, is_empty, Bool-cases,
}
use angry_box.Model.Panel.{NodeInbound, NodeInfo}
use angry_box.Model.Chain.{Chain, InboundProfile}
use angry_box.Store.{Result, ok, err}
use angry_box.Store.Nodes.{get_node_info, save_node_info}
use angry_box.Store.Profiles.{from_profile}
use angry_box.Awg.Presets.{PresetTable}
use angry_box.Awg.Material.{Generators}
use angry_box.Deploy.Inbounds.{Minting, sync_inbound}
use angry_box.Deploy.{
  Deploying, removal, refresh, is_in, remove_record, update_record, of_profile, without_profile,
  synced, is_changed, chain_referencing_profile_on, note_removed, note_lost, note_updated,
  lost_users,
}
use angry_box.Store.Nodes.Rows.{inbounds_of, inbounds_at-found}
use angry_box.Deploy.Kept.{profile_id-sync_inbound}
use angry_box.Deploy.Passes.{Ends, Ends-save}
use angry_box.Deploy.Marks.{Anything, Marked, carries}
use angry_box.Deploy.Placement.{
  any-none, any-without, has_it, is_target, carries-saved, at_id, unmet, met,
}

module _ (prof : InboundProfile) (id : String) (b : Bool) where
  abbrev pub Keeps : Deploying → Type 0
  Keeps s = is_target prof id s ≡ b

  abbrev pub is_loser : List Chain → List String → Bool
  is_loser chains desired =
      not (is_in id desired) && chain_referencing_profile_on chains prof.id id =s ""

  abbrev pub Removed : List Chain → List String → String → Deploying → Deploying → Type 0
  Removed chains desired x s =
      Marked Keeps (has_it prof id) (is_loser chains desired) false id (x =s id) (has_it prof id s)

  pub removal-Marked :
      (chains : List Chain) (desired : List String) (x : String) (s : Deploying)
      → Keeps s
      → Ends (Removed chains desired x s) Anything (removal prof chains desired x s)
  unfolding removal
  removal-Marked chains desired x s h = elim (Bool-cases (is_in x desired)) [
    | inl kept ↦ rw kept (h, spared (rw kept refl))
    | inr dropped ↦ elim (Bool-cases (chain_referencing_profile_on chains prof.id x =s "")) [
      | inr blocked ↦ rw (dropped, blocked) (h, spared (rw (dropped, blocked) refl))
      | inl free ↦
          rw (dropped, free) (by_record (get_node_info x s.disk) (rw (dropped, free) refl) refl)
    ]
  ]
    where
      loser : String → Bool
      loser i = not (is_in i desired) && chain_referencing_profile_on chains prof.id i =s ""

      spared :
          loser x ≡ false
          → has_it prof id s
            ≡ (if x =s id && is_loser chains desired then false else has_it prof id s)
      spared e =
          unmet prof id x (is_loser chains desired) false (has_it prof id s)
            (at_id prof id loser false x e)

      gone :
          loser x ≡ true
          → carries prof.id x s.disk ≡ false
          → has_it prof id s
            ≡ (if x =s id && is_loser chains desired then false else has_it prof id s)
      gone e lacks = elim (Bool-cases (x =s id)) [
        | inl same ↦
            rw (same, at_id prof id loser true x e same)
              (at_id prof id (λ i. carries prof.id i s.disk) false x lacks same)
        | inr other ↦ rw other refl
      ]

      by_record :
          (r : Result NodeInfo)
          → loser x ≡ true
          → get_node_info x s.disk ≡ r
          → Ends (Removed chains desired x s) Anything (remove_record prof.id x r s)
      by_record (err e) lost at =
          (h, gone lost (ap (λ r. any (from_profile prof.id) (inbounds_of r)) at))
      by_record (ok ni) lost at = elim (Bool-cases (is_empty (of_profile prof.id ni))) [
        | inl nothing ↦ rw nothing (
          h,
          gone lost (
              ap (λ r. any (from_profile prof.id) (inbounds_of r)) at
              ∙ any-none prof.id ni.inbounds nothing),
        )
        | inr some_of ↦
            let (own, rows) = inbounds_at-found x s.disk ni at in
            let ni' = without_profile prof.id ni in
            let noted = note_lost x (lost_users 0 (of_profile prof.id ni)) s in
            rw some_of (
              Ends-save (Removed chains desired x s) Anything ni' x (note_removed x) noted
                (λ after. (
                  h,
                  carries-saved prof id ni' s.disk (save_node_info ni' s.disk).1 x own after
                      ∙ rw (any-without prof.id ni.inbounds) (
                          met prof id x (is_loser chains desired) false (has_it prof id s)
                            (at_id prof id loser true x lost)),
                ))
                tt)
      ]

  module _ (table : PresetTable) (g : Generators) (mint : Minting) where
    any-synced :
        (ibs : List NodeInbound)
        → any (from_profile prof.id) (map (λ ib. (sync_inbound table g prof ib).0) ibs)
          ≡ any (from_profile prof.id) ibs
    any-synced [] = refl
    any-synced (ib ∷ ibs) = rw (profile_id-sync_inbound table g prof ib, any-synced ibs) refl

    abbrev pub Refreshed : String → Deploying → Deploying → Type 0
    Refreshed x s = Marked Keeps (has_it prof id) false false id (x =s id) (has_it prof id s)

    pub refresh-Marked :
        (desired : List String) (x : String) (s : Deploying)
        → Keeps s
        → Ends (Refreshed x s) Anything (refresh table g mint prof desired x s)
    unfolding refresh
    refresh-Marked desired x s h = elim (Bool-cases (is_in x desired)) [
      | inr dropped ↦ rw dropped (h, same)
      | inl kept ↦ rw kept (by_record (get_node_info x s.disk) refl)
    ]
      where
        same : has_it prof id s ≡ (if x =s id && false then false else has_it prof id s)
        same = unmet prof id x false false (has_it prof id s) (λ e. refl)

        back :
            (ni : NodeInfo)
            → get_node_info x s.disk ≡ ok ni
            → (if x =s id then any (from_profile prof.id) ni.inbounds else has_it prof id s)
              ≡ (if x =s id && false then false else has_it prof id s)
        back ni at = elim (Bool-cases (x =s id)) [
          | inl own ↦ rw own (
              sym (
                at_id prof id (λ i. carries prof.id i s.disk)
                  (any (from_profile prof.id) ni.inbounds) x
                  (ap (any (from_profile prof.id)) (inbounds_at-found x s.disk ni at).1) own))
          | inr other ↦ rw other refl
        ]

        by_record :
            (r : Result NodeInfo)
            → get_node_info x s.disk ≡ r
            → Ends (Refreshed x s) Anything (update_record table g mint prof x r s)
        by_record (err e) at = (h, same)
        by_record (ok ni) at = elim (Bool-cases (is_changed table g mint prof ni)) [
          | inr nothing ↦ rw nothing (h, same)
          | inl changed ↦
              let (own, rows) = inbounds_at-found x s.disk ni at in
              let ni' = synced table g mint prof ni in
              rw changed (
                Ends-save (Refreshed x s) Anything ni' x (note_updated x) s
                  (λ after. (
                    h,
                    carries-saved prof id ni' s.disk (save_node_info ni' s.disk).1 x own after
                        ∙ rw (any-synced ni.inbounds) (back ni at),
                  ))
                  tt)
        ]
