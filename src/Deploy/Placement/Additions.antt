-- ===== src/Deploy/Placement/Additions.antt =====
-- Which nodes have the profile after the pass that adds it.
use angry_box.Deploy.Placement.Moves.{Keeps}
use angry_box.Prelude.{
  ◌≡◌, refl, sym, ◌∙◌, inl, inr, String, Bool, true, false, not, ◌&&◌, List, [], ◌∷◌, ◌++◌, Option,
  none, some, arith, ◌=s◌, =s_iff, if◌then◌else◌, find_by, upsert, has_key, has_key-find_by,
  has_key-upsert, Bool-cases,
}
use angry_box.Model.Panel.{NodeInbound, NodeInfo}
use angry_box.Model.Chain.{InboundProfile}
use angry_box.Store.Nodes.{save_node_info}
use angry_box.Awg.Presets.{PresetTable}
use angry_box.Awg.Material.{Generators}
use angry_box.Deploy.Inbounds.{Minting, build_profile_inbound}
use angry_box.Deploy.{Deploying, addition, is_in, add_built, add_target, target_id, note_added}
use angry_box.Deploy.Kept.{profile_id-build_profile_inbound}
use angry_box.Deploy.Passes.{Ends, Ends-save}
use angry_box.Deploy.Marks.{Anything, Marked}
use angry_box.Deploy.Placement.{any-added, has_it, carries-saved, at_id, unmet, met}

find_by-key :
    (k : String) (ts : List NodeInfo) (t : NodeInfo)
    → find_by target_id k ts ≡ some t
    → t.host.id ≡ k
find_by-key k [] t e = cc
find_by-key k (x ∷ xs) t e = ground (arith, e, =s_iff (target_id x) k, find_by-key k xs t)

find_by-there :
    (k : String) (ts : List NodeInfo) (t : NodeInfo)
    → find_by target_id k ts ≡ some t
    → has_key target_id k ts ≡ true
find_by-there k [] t e = cc
find_by-there k (x ∷ xs) t e = ground (arith, e, find_by-there k xs t)

both : (a : Bool) {b : Bool} → a ≡ true → b ≡ true → (a && b) ≡ true
both a e h = ground (arith, e, h)

and_false : (a : Bool) {b : Bool} → b ≡ false → (a && b) ≡ false
and_false true e = e
and_false false e = refl

module _ (prof : InboundProfile) (id : String) (b : Bool) where
  module _ (table : PresetTable) (g : Generators) (mint : Minting) where
    abbrev pub Added : List String → String → Deploying → Deploying → Type 0
    Added current x s =
        Marked (Keeps prof id b) (has_it prof id) (not (is_in id current) && b) true id (x =s id)
          (has_it prof id s)

    pub addition-Marked :
        (current : List String) (x : String) (s : Deploying)
        → Keeps prof id b s
        → Ends (Added current x s) Anything (addition table g mint prof current x s)
    unfolding addition
    addition-Marked current x s h = elim (Bool-cases (is_in x current)) [
      | inl old ↦
          rw old (h, spared (at_id prof id (λ i. not (is_in i current)) false x (rw old refl)))
      | inr new ↦ rw new (by_target (find_by target_id x s.targets) new refl)
    ]
      where
        spared :
            ((x =s id) ≡ true → not (is_in id current) ≡ false)
            → has_it prof id s
              ≡ (if x =s id && (not (is_in id current) && b) then true else has_it prof id s)
        spared e =
            unmet prof id x (not (is_in id current) && b) true (has_it prof id s)
              (λ same. rw (e same) refl)

        b_is : (v : Bool) → has_key target_id id s.targets ≡ v → b ≡ v
        b_is v e = sym h ∙ e

        keys :
            (ni : NodeInfo)
            → ni.host.id ≡ x
            → has_key target_id x s.targets ≡ true
            → has_key target_id id (upsert target_id ni s.targets) ≡ b
        keys ni own there =
            rw (has_key-upsert target_id id ni s.targets, own)
              (elim (Bool-cases (x =s id)) [
                | inl same ↦ rw same (
                    sym (
                      b_is true
                        (at_id prof id (λ i. has_key target_id i s.targets) true x there same)))
                | inr other ↦ rw other h
              ])

        by_built :
            (ni : NodeInfo) (o : Option NodeInbound)
            → is_in x current ≡ false
            → ni.host.id ≡ x
            → has_key target_id x s.targets ≡ true
            → build_profile_inbound table g (mint ni) prof ni ≡ o
            → Ends (Added current x s) Anything (add_built table g mint x ni o s)
        by_built ni none new own there at = tt
        by_built ni (some ib) new own there at =
            let ni' = record ni { inbounds = ni.inbounds ++ ib ∷ [] } in
            let s' = record s { targets = upsert target_id ni' s.targets } in
            let of_it = profile_id-build_profile_inbound table g prof (mint ni) ni ib at in
            Ends-save (Added current x s) Anything ni' x (note_added x) s'
              (λ after. (
                keys ni' own there,
                carries-saved prof id ni' s.disk (save_node_info ni' s.disk).1 x own after
                    ∙ rw (any-added prof.id ni.inbounds ib of_it) (
                        met prof id x (not (is_in id current) && b) true (has_it prof id s) (λ same.
                          both (not (is_in id current))
                            (at_id prof id (λ i. not (is_in i current)) true x (rw new refl) same)
                            (b_is true (
                              at_id prof id (λ i. has_key target_id i s.targets) true x there
                                same)))),
              ))
              tt

        by_target :
            (o : Option NodeInfo)
            → is_in x current ≡ false
            → find_by target_id x s.targets ≡ o
            → Ends (Added current x s) Anything (add_target table g mint prof x o s)
        by_target none new at = (
          h,
          unmet prof id x (not (is_in id current) && b) true (has_it prof id s) (λ same.
              and_false (not (is_in id current)) (
                b_is false (
                  at_id prof id (λ i. has_key target_id i s.targets) false x
                    ((has_key-find_by target_id x s.targets).1 at) same))),
        )
        by_target (some ni) new at =
            by_built ni (build_profile_inbound table g (mint ni) prof ni) new
              (find_by-key x s.targets ni at) (find_by-there x s.targets ni at) refl
