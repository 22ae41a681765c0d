-- ===== src/Deploy/Placement.antt =====
-- Which nodes have the profile after `ApplyProfileToNodes`. Each pass is followed at one node `id`.
pub mod Moves
pub mod Additions
pub mod Exact
use mathlib.Core.Path.{subst}
use angry_box.Prelude.{
  ◌≡◌, refl, ap, ◌∙◌, inl, inr, String, Bool, true, false, not, ◌&&◌, List, [], ◌∷◌, ◌++◌, Option,
  none, some, arith, ◌=s◌, =s_iff, =s_refl, if◌then◌else◌, keep, any, is_empty, has_key,
  has_key-upsert, Bool-cases,
}
use angry_box.Model.Panel.{NodeInbound, NodeInfo}
use angry_box.Model.Chain.{InboundProfile}
use angry_box.Store.{Result, ok, err, Disk}
use angry_box.Store.Profiles.{from_profile}
use angry_box.Deploy.Inbounds.{inbound_port_conflict}
use angry_box.Deploy.{
  Deploying, preflight, is_in, node_record, check_record, unless_conflict, target_id,
}
use angry_box.Store.Nodes.Rows.{inbounds_at}
use angry_box.Deploy.Passes.{Ends, node_record-found}
use angry_box.Deploy.Marks.{Anything, Marked, carries}

pub any-none :
    (profile_id : String) (ibs : List NodeInbound)
    → is_empty (keep (from_profile profile_id) ibs) ≡ true
    → any (from_profile profile_id) ibs ≡ false
any-none profile_id [] h = refl
any-none profile_id (ib ∷ ibs) h = ground (arith, h, any-none profile_id ibs)

pub any-without :
    (profile_id : String) (ibs : List NodeInbound)
    → any (from_profile profile_id) (keep (λ ib. not (from_profile profile_id ib)) ibs) ≡ false
any-without profile_id [] = refl
any-without profile_id (ib ∷ ibs) = ground (arith, any-without profile_id ibs)

pub any-added :
    (profile_id : String) (ibs : List NodeInbound) (ib : NodeInbound)
    → ib.profile_id ≡ profile_id
    → any (from_profile profile_id) (ibs ++ ib ∷ []) ≡ true
any-added profile_id [] ib h = rw (h, =s_refl profile_id) refl
any-added profile_id (x ∷ xs) ib h = ground (arith, any-added profile_id xs ib h)

module _ (prof : InboundProfile) (id : String) where
  abbrev pub has_it : Deploying → Bool
  has_it s = carries prof.id id s.disk

  abbrev pub is_target : Deploying → Bool
  is_target s = has_key target_id id s.targets

  -- The node after a save of the record of `x`.
  pub carries-saved :
      (ni : NodeInfo) (d d' : Disk) (x : String)
      → ni.host.id ≡ x
      → ((i : String)
          → inbounds_at i d' ≡ (if ni.host.id =s i then ni.inbounds else inbounds_at i d))
      → carries prof.id id d'
        ≡ (if x =s id then any (from_profile prof.id) ni.inbounds else carries prof.id id d)
  carries-saved ni d d' x own rows = elim (Bool-cases (x =s id)) [
    | inl same ↦ rw same (ap (any (from_profile prof.id)) (rows id ∙ rw (own, same) refl))
    | inr other ↦ rw other (ap (any (from_profile prof.id)) (rows id ∙ rw (own, other) refl))
  ]

  -- What is true of `x` is true of `id`, if they are the same node.
  pub at_id : (f : String → Bool) (b : Bool) (x : String) → f x ≡ b → (x =s id) ≡ true → f id ≡ b
  at_id f b x h same = subst (λ i. f i ≡ b) ((=s_iff x id).0 same) h

  pub unmet :
      (x : String) (cond v before : Bool)
      → ((x =s id) ≡ true → cond ≡ false)
      → before ≡ (if x =s id && cond then v else before)
  unmet x cond v before h = elim (Bool-cases (x =s id)) [
    | inl same ↦ rw (same, h same) refl
    | inr other ↦ rw other refl
  ]

  pub met :
      (x : String) (cond v before : Bool)
      → ((x =s id) ≡ true → cond ≡ true)
      → (if x =s id then v else before) ≡ (if x =s id && cond then v else before)
  met x cond v before h = elim (Bool-cases (x =s id)) [
    | inl same ↦ rw (same, h same) refl
    | inr other ↦ rw other refl
  ]

  abbrev pub Checked : Disk → List String → String → Deploying → Deploying → Type 0
  Checked d current x s =
      Marked (λ s'. s'.disk ≡ d) is_target (not (is_in id current)) true id (x =s id) (is_target s)

  -- The first pass leaves the disk, and keeps a record of each node that is new.
  pub preflight-Marked :
      (d : Disk) (current : List String) (x : String) (s : Deploying)
      → s.disk ≡ d
      → Ends (Checked d current x s) Anything (preflight prof current x s)
  unfolding preflight
  preflight-Marked d current x s h = elim (Bool-cases (is_in x current)) [
    | inl old ↦ rw old (
      h,
      unmet x (not (is_in id current)) true (is_target s)
          (at_id (λ i. not (is_in i current)) false x (rw old refl)),
    )
    | inr new ↦ rw new (by_record (node_record x s.disk) new refl)
  ]
    where
      by_conflict :
          (ni : NodeInfo) (o : Option NodeInbound)
          → is_in x current ≡ false
          → ni.host.id ≡ x
          → Ends (Checked d current x s) Anything (unless_conflict x ni o s)
      by_conflict ni (some ib) new own = tt
      by_conflict ni none new own = (
        h,
        rw (has_key-upsert target_id id ni s.targets, own)
            (met x (not (is_in id current)) true (is_target s)
              (at_id (λ i. not (is_in i current)) true x (rw new refl))),
      )

      by_record :
          (r : Result NodeInfo)
          → is_in x current ≡ false
          → node_record x s.disk ≡ r
          → Ends (Checked d current x s) Anything (check_record prof x r s)
      by_record (err e) new at = tt
      by_record (ok ni) new at =
          by_conflict ni (inbound_port_conflict ni prof.port prof.id) new
            (node_record-found x s.disk ni at).0
