-- ===== src/Deploy/Others/Untouched.antt =====
-- The inbounds that are not of the profile, through the whole of `ApplyProfileToNodes`.
use angry_box.Deploy.Others.{others_at, Going, Unharmed, preflight-Going, removal-Going}
use angry_box.Deploy.Others.Steps.{refresh-Going, addition-Going}
use angry_box.Store.Chains.{list_chains}
use angry_box.Awg.Material.{Generators}
use angry_box.Awg.Presets.{PresetTable}
use angry_box.Prelude.{◌≡◌, refl, String, List}
use angry_box.Model.Chain.{Chain, InboundProfile}
use angry_box.Store.{Result, ok, err, Disk}
use angry_box.Store.Profiles.{profile_nodes}
use angry_box.Deploy.Inbounds.{Minting}
use angry_box.Deploy.{
  apply_profile_to_nodes, Outcome, PresetTable, Generators, Minting, going, stopped, with_chains,
  start,
}
use angry_box.Deploy.Passes.{Ends, Ends-and_then, Ends-for_each}

-- The disk that `ApplyProfileToNodes` leaves, whether it ends or stops.
abbrev pub disk_after : Outcome → Disk
disk_after (going s) = s.disk
disk_after (stopped e s) = s.disk

-- However `ApplyProfileToNodes` ends, with all nodes brought up to date or with any of its errors, on every node
-- the inbounds that are not of the profile are the same as before, in the same order.
pub others_at-apply_profile_to_nodes :
    (table : PresetTable) (g : Generators) (mint : Minting) (prof : InboundProfile)
    (desired : List String) (d : Disk) (id : String)
    → others_at prof id (disk_after (apply_profile_to_nodes table g mint prof desired d))
      ≡ others_at prof id d
unfolding apply_profile_to_nodes
others_at-apply_profile_to_nodes table g mint prof desired d id =
    of_ends
      (with_chains table g mint prof (profile_nodes prof.id d) desired (list_chains d)
        (start table g mint d))
      (by_chains (list_chains d))
  where
    of_ends :
        (o : Outcome)
        → Ends (Going prof d) (Unharmed prof d) o
        → others_at prof id (disk_after o) ≡ others_at prof id d
    of_ends (going s) h = h.0 id
    of_ends (stopped e s) h = h id

    begun : Going prof d (start table g mint d)
    begun = (λ i. refl, tt)

    by_chains :
        (r : Result (List Chain))
        → Ends (Going prof d) (Unharmed prof d) (
            with_chains table g mint prof
              (profile_nodes prof.id d)
              desired
              r
              (start table g mint d))
    by_chains (err e) = λ i. refl
    by_chains (ok chains) =
        let current = profile_nodes prof.id d in
        let P = Going prof d in
        let Q = Unharmed prof d in
        Ends-and_then P Q P _ _
          (Ends-for_each P Q _ desired _ (preflight-Going prof d current) begun)
          (λ s1 h1.
            Ends-and_then P Q P _ _
              (Ends-for_each P Q _ current s1 (removal-Going prof d chains desired) h1)
              (λ s2 h2.
                Ends-and_then P Q P _ _
                  (Ends-for_each P Q _ current s2 (refresh-Going table g mint prof d desired) h2)
                  (λ s3 h3.
                    Ends-for_each P Q _ desired s3 (addition-Going table g mint prof d current)
                      h3)))
