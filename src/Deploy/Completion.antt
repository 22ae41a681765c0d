-- ===== src/Deploy/Completion.antt =====
-- `ApplyProfileToNodes` goes through where nothing stands against it.
use mathlib.Core.Path.{subst}
use angry_box.Prelude.{
  ◌≡◌, refl, sym, inl, inr, String, true, false, List, [], ◌∷◌, Option, none, some, ◌=s◌, All,
  Bool-cases, find_by, is_empty, ◌++◌, upsert,
}
use angry_box.Model.Panel.{NodeInbound, NodeInfo}
use angry_box.Model.Chain.{Chain, InboundProfile}
use angry_box.Store.{Result, ok, err, Disk, holds, StoreFile, update, query}
use angry_box.Store.Nodes.{get_node_info, save_node_info}
use angry_box.Store.Chains.{list_chains}
use angry_box.Store.Profiles.{profile_nodes}
use angry_box.Awg.Presets.{PresetTable}
use angry_box.Awg.Material.{Generators}
use angry_box.Deploy.Inbounds.{Minting, build_profile_inbound}
use angry_box.Deploy.{
  Deploying, Outcome, going, stopped, for_each, preflight, removal, refresh, addition, is_in,
  remove_record, update_record, add_target, target_id, of_profile, is_changed,
  chain_referencing_profile_on, save, apply_profile_to_nodes, passes, start, without_profile,
  note_removed, note_lost, lost_users, synced, note_updated, note_added,
}
use angry_box.Deploy.Passes.{Ends, Ends-and_then, Ends-for_each}
use angry_box.Deploy.Refusal.{is_fine, Untouched, preflight-Ends}

-- The file is there, and every write succeeds.
abbrev pub Usable : Disk → Type 0
Usable d = ((sf : StoreFile) → d.writable sf ≡ true) × ((sf : StoreFile) × (d.content ≡ holds sf))

abbrev Running : Deploying → Type 0
Running s = Usable s.disk

abbrev Never : Deploying → Type 0
Never s = ⊥

save-Usable :
    (ni : NodeInfo) (d : Disk)
    → Usable d
    → ((save_node_info ni d).0 ≡ ok tt) × Usable (save_node_info ni d).1
unfolding save_node_info update
save-Usable ni d (w, (sf, e)) = rw (e, w) (refl, (w, (_, refl)))

save-Running :
    (ni : NodeInfo) (id : String) (note : Deploying → Deploying) (s : Deploying)
    → ((t : Deploying) → (note t).disk ≡ t.disk)
    → Running s
    → Ends Running Never (save ni id note s)
save-Running ni id note s same h =
    let (done, usable) = save-Usable ni s.disk h in
    rw done (subst Usable (sym (same (record s { disk = (save_node_info ni s.disk).1 }))) usable)

removal-Running :
    (prof : InboundProfile) (chains : List Chain) (desired : List String) (id : String)
    (s : Deploying)
    → Running s
    → Ends Running Never (removal prof chains desired id s)
unfolding removal
removal-Running prof chains desired id s h = elim (Bool-cases (is_in id desired)) [
  | inl kept ↦ rw kept h
  | inr dropped ↦ elim (Bool-cases (chain_referencing_profile_on chains prof.id id =s "")) [
    | inr blocked ↦ rw (dropped, blocked) h
    | inl free ↦ rw (dropped, free) (by_record (get_node_info id s.disk))
  ]
]
  where
    by_record : (r : Result NodeInfo) → Ends Running Never (remove_record prof.id id r s)
    by_record (err e) = h
    by_record (ok ni) = elim (Bool-cases (is_empty (of_profile prof.id ni))) [
      | inl nothing ↦ rw nothing h
      | inr some_of ↦ rw some_of (
          save-Running (without_profile prof.id ni) id (note_removed id)
            (note_lost id (lost_users 0 (of_profile prof.id ni)) s) (λ t. refl) h)
    ]

module _ (table : PresetTable) (g : Generators) (mint : Minting) (prof : InboundProfile) where
  -- Every inbound of the profile can be made.
  abbrev pub Builds : Type 0
  Builds =
      (ni : NodeInfo)
      → (ib : NodeInbound) × (build_profile_inbound table g (mint ni) prof ni ≡ some ib)

  refresh-Running :
      (desired : List String) (id : String) (s : Deploying)
      → Running s
      → Ends Running Never (refresh table g mint prof desired id s)
  unfolding refresh
  refresh-Running desired id s h = elim (Bool-cases (is_in id desired)) [
    | inr dropped ↦ rw dropped h
    | inl kept ↦ rw kept (by_record (get_node_info id s.disk))
  ]
    where
      by_record :
          (r : Result NodeInfo) → Ends Running Never (update_record table g mint prof id r s)
      by_record (err e) = h
      by_record (ok ni) = elim (Bool-cases (is_changed table g mint prof ni)) [
        | inr nothing ↦ rw nothing h
        | inl changed ↦
            rw changed
              (save-Running (synced table g mint prof ni) id (note_updated id) s (λ t. refl) h)
      ]

  addition-Running :
      (current : List String) (id : String) (s : Deploying)
      → Builds
      → Running s
      → Ends Running Never (addition table g mint prof current id s)
  unfolding addition
  addition-Running current id s builds h = elim (Bool-cases (is_in id current)) [
    | inl old ↦ rw old h
    | inr new ↦ rw new (by_target (find_by target_id id s.targets))
  ]
    where
      by_target : (o : Option NodeInfo) → Ends Running Never (add_target table g mint prof id o s)
      by_target none = h
      by_target (some ni) =
          let (ib, built) = builds ni in
          let ni' = record ni { inbounds = ni.inbounds ++ ib ∷ [] } in
          rw built (
            save-Running ni' id (note_added id)
              (record s { targets = upsert target_id ni' s.targets }) (λ t. refl) h)

  preflight-Running :
      (current xs : List String) (d : Disk) (s : Deploying)
      → All (λ x. is_fine prof current d x ≡ true) xs
      → Untouched d s
      → Ends (Untouched d) Never (for_each (preflight prof current) xs s)
  preflight-Running current [] d s fine h = h
  preflight-Running current (x ∷ xs) d s (p, fine) h =
      Ends-and_then (Untouched d) Never (Untouched d) (preflight prof current x s)
        (for_each (preflight prof current) xs)
        (goes (preflight prof current x s) (preflight-Ends prof current d x s h))
        (λ s' h'. preflight-Running current xs d s' fine h')
    where
      goes :
          (o : Outcome)
          → Ends
              (λ s'. Untouched d s' × (is_fine prof current d x ≡ true))
              (λ s'. Untouched d s' × (is_fine prof current d x ≡ false))
              o
          → Ends (Untouched d) Never o
      goes (going s') k = k.0
      goes (stopped e s') k = absurd (cc)

list_chains-holds :
    (d : Disk) (sf : StoreFile) → d.content ≡ holds sf → list_chains d ≡ ok sf.chains
unfolding list_chains query
list_chains-holds d sf e = rw e refl

-- On a store that can be read and written, where every node that is asked for has the profile or fits it, and the
-- generators and the profile's protocol give an inbound, `ApplyProfileToNodes` goes through.
pub apply_profile_to_nodes-completes :
    (table : PresetTable) (g : Generators) (mint : Minting) (prof : InboundProfile)
    (desired : List String) (d : Disk)
    → Usable d
    → All (λ x. is_fine prof (profile_nodes prof.id d) d x ≡ true) desired
    → Builds table g mint prof
    → (s : Deploying) × (apply_profile_to_nodes table g mint prof desired d ≡ going s)
unfolding apply_profile_to_nodes
apply_profile_to_nodes-completes table g mint prof desired d (w, (sf, e)) fine builds =
    rw (list_chains-holds d sf e) (
      goes
        (passes table g mint prof (profile_nodes prof.id d) desired sf.chains
          (start table g mint d))
        all_passes)
  where
    goes : (o : Outcome) → Ends Running Never o → (s : Deploying) × (o ≡ going s)
    goes (going s) h = (s, refl)
    goes (stopped why s) h = absurd h

    all_passes : Ends Running Never (
        passes table g mint prof (profile_nodes prof.id d) desired sf.chains (start table g mint d))
    all_passes =
        let current = profile_nodes prof.id d in
        Ends-and_then (Untouched d) Never Running _ _
          (preflight-Running table g mint prof current desired d (start table g mint d) fine
            (refl, refl))
          (λ s1 h1.
            Ends-and_then Running Never Running _ _
              (Ends-for_each Running Never (removal prof sf.chains desired) current s1
                (removal-Running prof sf.chains desired) (subst Usable (sym h1.0) (w, (sf, e))))
              (λ s2 h2.
                Ends-and_then Running Never Running _ _
                  (Ends-for_each Running Never (refresh table g mint prof desired) current s2
                    (refresh-Running table g mint prof desired) h2)
                  (λ s3 h3.
                    Ends-for_each Running Never (addition table g mint prof current) desired s3
                      (λ id s k. addition-Running table g mint prof current id s builds k) h3)))
