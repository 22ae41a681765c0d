-- ===== src/Deploy/Placement/Exact.antt =====
-- The nodes with the profile after `ApplyProfileToNodes` has gone through.
use mathlib.Core.Path.{subst}
use angry_box.Prelude.{
  ◌≡◌, refl, sym, ap, ◌∙◌, String, Bool, true, false, not, ◌&&◌, ◌||◌, List, [], ◌=s◌,
  if◌then◌else◌, KeysDistinct,
}
use angry_box.Model.Chain.{Chain, InboundProfile}
use angry_box.Store.{Result, ok, err, Disk, holds, StoreFile}
use angry_box.Store.Hosts.{info_id}
use angry_box.Store.Chains.{list_chains}
use angry_box.Store.Profiles.{ok_or, profile_nodes}
use angry_box.Awg.Presets.{PresetTable}
use angry_box.Awg.Material.{Generators}
use angry_box.Deploy.Inbounds.{Minting}
use angry_box.Deploy.{
  Deploying, Outcome, going, stopped, preflight, removal, refresh, addition, is_in,
  chain_referencing_profile_on, apply_profile_to_nodes, passes, with_chains, start,
}
use angry_box.Deploy.Passes.{Ends, Ends-and_then}
use angry_box.Deploy.Marks.{Anything, Marked, Ends-marks, Ends-map, carries, profile_nodes-carries}
use angry_box.Deploy.Placement.{has_it, is_target, preflight-Marked}
use angry_box.Deploy.Placement.Additions.{addition-Marked}
use angry_box.Deploy.Placement.Moves.{is_loser, removal-Marked, refresh-Marked, Keeps}

-- A chain of the store that has a name names the profile on the node.
abbrev pub is_referenced : String → String → Disk → Bool
is_referenced profile_id id d =
    not (chain_referencing_profile_on (ok_or [] (list_chains d)) profile_id id =s "")

module _ (table : PresetTable) (g : Generators) (mint : Minting) (prof : InboundProfile)
    (desired : List String) (d : Disk) (id : String) where
  abbrev Placed : List Chain → Deploying → Type 0
  Placed chains s = has_it prof id s ≡ (
      is_in id desired
      || carries prof.id id d && not (chain_referencing_profile_on chains prof.id id =s ""))

  -- What the four passes make of a node.
  four_passes :
      (was asked free : Bool)
      → (if asked && (not was && (if asked && not was then true else false))
          then true
          else (if was && false
              then false
              else (if was && (not asked && free) then false else was)))
        ≡ (asked || was && not free)
  four_passes true true true = refl
  four_passes true true false = refl
  four_passes true false true = refl
  four_passes true false false = refl
  four_passes false true true = refl
  four_passes false true false = refl
  four_passes false false true = refl
  four_passes false false false = refl

  abbrev current : List String
  current = profile_nodes prof.id d

  abbrev is_new : Bool
  is_new = not (is_in id current)

  abbrev is_kept_target : Bool
  is_kept_target = if is_in id desired && is_new then true else false

  abbrev Checked : Deploying → Type 0
  Checked s = Marked (λ s. s.disk ≡ d) (is_target prof id) is_new true id (is_in id desired) false s

  abbrev Step : Bool → Bool → List String → Deploying → Deploying → Type 0
  Step cond v ids before s =
      Marked (Keeps prof id is_kept_target) (has_it prof id) cond v id (is_in id ids)
        (has_it prof id before) s

  placed :
      (chains : List Chain) (s1 s2 s3 s4 : Deploying)
      → is_in id current ≡ carries prof.id id d
      → s1.disk ≡ d
      → Step (is_loser prof id is_kept_target chains desired) false current s1 s2
      → Step false false current s2 s3
      → Step (is_new && is_kept_target) true desired s3 s4
      → Placed chains s4
  placed chains s1 s2 s3 s4 listed same (k2, e2) (k3, e3) (k4, e4) =
      let begun = ap (carries prof.id id) same ∙ sym listed in
      e4
      ∙ rw (e3, e2, begun)
          (four_passes (is_in id current) (is_in id desired)
              (chain_referencing_profile_on chains prof.id id =s "")
            ∙ ap
                (λ was.
                  is_in id desired
                  || was && not (chain_referencing_profile_on chains prof.id id =s ""))
                listed)

  passes-Placed :
      (chains : List Chain)
      → is_in id current ≡ carries prof.id id d
      → Ends
          (Placed chains)
          Anything
          (passes table g mint prof current desired chains (start table g mint d))
  passes-Placed chains listed =
      let loser = is_loser prof id is_kept_target chains desired in
      Ends-and_then Checked Anything (Placed chains) _ _
        (Ends-marks (λ s. s.disk ≡ d) (is_target prof id) is_new true id (preflight prof current)
          desired (start table g mint d) (preflight-Marked prof id d current) refl)
        (λ s1 h1.
          Ends-and_then (Step loser false current s1) Anything (Placed chains) _ _
            (Ends-marks (Keeps prof id is_kept_target) (has_it prof id) loser false id
              (removal prof chains desired) current s1
              (removal-Marked prof id is_kept_target chains desired) h1.1)
            (λ s2 h2.
              Ends-and_then (Step false false current s2) Anything (Placed chains) _ _
                (Ends-marks (Keeps prof id is_kept_target) (has_it prof id) false false id
                  (refresh table g mint prof desired) current s2
                  (refresh-Marked prof id is_kept_target table g mint desired) h2.0)
                (λ s3 h3.
                  Ends-map (Step (is_new && is_kept_target) true desired s3) (Placed chains)
                    Anything _ (λ s4 h4. placed chains s1 s2 s3 s4 listed h1.0 h2 h3 h4)
                    (Ends-marks (Keeps prof id is_kept_target) (has_it prof id)
                      (is_new && is_kept_target) true id (addition table g mint prof current)
                      desired s3 (addition-Marked prof id is_kept_target table g mint current)
                      h3.0))))

-- In a store whose nodes have one record each, where `ApplyProfileToNodes` goes through without an error, a node
-- has an inbound of the profile afterwards exactly if it was asked for, or if it had one and a chain names the
-- profile on it.
pub apply_profile_to_nodes-exact :
    (table : PresetTable) (g : Generators) (mint : Minting) (prof : InboundProfile)
    (desired : List String) (d : Disk) (sf : StoreFile) (s : Deploying) (id : String)
    → d.content ≡ holds sf
    → KeysDistinct info_id sf.node_infos
    → apply_profile_to_nodes table g mint prof desired d ≡ going s
    → carries prof.id id s.disk
      ≡ (is_in id desired || carries prof.id id d && is_referenced prof.id id d)
unfolding apply_profile_to_nodes
apply_profile_to_nodes-exact table g mint prof desired d sf s id e distinct h =
    by_chains (list_chains d) refl h
  where
    of_ends :
        (chains : List Chain) (o : Outcome)
        → Ends (Placed table g mint prof desired d id chains) Anything o
        → o ≡ going s
        → Placed table g mint prof desired d id chains s
    of_ends chains (going s') h same =
        let eq : s' ≡ s = cc in subst (Placed table g mint prof desired d id chains) eq h
    of_ends chains (stopped why s') h same = absurd (cc)

    by_chains :
        (r : Result (List Chain))
        → list_chains d ≡ r
        → with_chains table g mint prof (profile_nodes prof.id d) desired r (start table g mint d)
          ≡ going s
        → carries prof.id id s.disk
          ≡ (is_in id desired || carries prof.id id d && is_referenced prof.id id d)
    by_chains (err why) at same = absurd (cc)
    by_chains (ok chains) at same = rw at (
        of_ends chains
          (passes table g mint prof (profile_nodes prof.id d) desired chains (start table g mint d))
          (passes-Placed table g mint prof desired d id chains
            (profile_nodes-carries prof.id id d sf e distinct))
          same)
