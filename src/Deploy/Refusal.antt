-- ===== src/Deploy/Refusal.antt =====
-- The first pass of `ApplyProfileToNodes` stops before anything is written.
use angry_box.Prelude.{
  ◌≡◌, refl, ap, inl, inr, String, Bool, true, false, List, [], ◌∷◌, Option, none, some, ◌=s◌,
  =s_iff, if◌then◌else◌, Bool-cases,
}
use angry_box.Model.Panel.{NodeInbound, NodeInfo}
use angry_box.Model.Chain.{Chain, InboundProfile}
use angry_box.Store.{Result, ok, err, Disk}
use angry_box.Store.Chains.{list_chains}
use angry_box.Store.Profiles.{profile_nodes}
use angry_box.Awg.Presets.{PresetTable}
use angry_box.Awg.Material.{Generators}
use angry_box.Deploy.Inbounds.{Minting, inbound_port_conflict}
use angry_box.Deploy.{
  DeployError, Deploying, Outcome, going, stopped, and_then, for_each, no_changes, preflight, is_in,
  node_record, check_record, unless_conflict, apply_profile_to_nodes, with_chains, start,
}
use angry_box.Deploy.Passes.{Ends}

abbrev no_conflict : Option NodeInbound → Bool
no_conflict none = true
no_conflict (some ib) = false

abbrev fits_record : InboundProfile → Result NodeInfo → Bool
fits_record prof (err e) = false
fits_record prof (ok ni) = no_conflict (inbound_port_conflict ni prof.port prof.id)

-- The node is known, and none of its inbounds has the profile's port.
abbrev pub fits : InboundProfile → Disk → String → Bool
fits prof d id = fits_record prof (node_record id d)

-- What a pass that writes nothing leaves alone.
abbrev pub Untouched : Disk → Deploying → Type 0
Untouched d s = (s.disk ≡ d) × (s.result ≡ no_changes)

module _ (prof : InboundProfile) (current : List String) (d : Disk) where
  abbrev pub is_fine : String → Bool
  is_fine x = if is_in x current then true else fits prof d x

  -- The pass goes on past a node exactly if the node has the profile or fits.
  pub preflight-Ends :
      (x : String) (s : Deploying)
      → Untouched d s
      → Ends
          (λ s'. Untouched d s' × (is_fine x ≡ true))
          (λ s'. Untouched d s' × (is_fine x ≡ false))
          (preflight prof current x s)
  unfolding preflight
  preflight-Ends x s h = elim (Bool-cases (is_in x current)) [
    | inl old ↦ rw old (h, refl)
    | inr new ↦ rw new (by_record (node_record x d) (ap (node_record x) h.0))
  ]
    where
      by_conflict :
          (ni : NodeInfo) (o : Option NodeInbound)
          → Ends
              (λ s'. Untouched d s' × (no_conflict o ≡ true))
              (λ s'. Untouched d s' × (no_conflict o ≡ false))
              (unless_conflict x ni o s)
      by_conflict ni none = (h, refl)
      by_conflict ni (some ib) = (h, refl)

      by_record :
          (r : Result NodeInfo)
          → node_record x s.disk ≡ r
          → Ends
              (λ s'. Untouched d s' × (fits_record prof r ≡ true))
              (λ s'. Untouched d s' × (fits_record prof r ≡ false))
              (check_record prof x (node_record x s.disk) s)
      by_record (err e) at = rw at (h, refl)
      by_record (ok ni) at = rw at (by_conflict ni (inbound_port_conflict ni prof.port prof.id))

  pub preflight-all :
      (id : String) (xs : List String) (s : Deploying)
      → is_fine id ≡ false
      → Untouched d s
      → Ends (λ s'. is_in id xs ≡ false) (Untouched d) (for_each (preflight prof current) xs s)
  preflight-all id [] s unfit h = refl
  preflight-all id (x ∷ xs) s unfit h =
      one_more (λ s' k. preflight-all id xs s' unfit k) (preflight prof current x s)
        (preflight-Ends x s h)
    where
      one_more :
          ((s' : Deploying)
            → Untouched d s'
            → Ends
                (λ s''. is_in id xs ≡ false)
                (Untouched d)
                (for_each (preflight prof current) xs s'))
          → (o : Outcome)
          → Ends
              (λ s'. Untouched d s' × (is_fine x ≡ true))
              (λ s'. Untouched d s' × (is_fine x ≡ false))
              o
          → Ends
              (λ s'. is_in id (x ∷ xs) ≡ false)
              (Untouched d)
              (and_then o (for_each (preflight prof current) xs))
      one_more rest (stopped e s') k = k.0
      one_more rest (going s') k = elim (Bool-cases (x =s id)) [
        | inl same ↦ absurd (let eq = (=s_iff x id).0 same in cc (k.1, unfit, ap is_fine eq))
        | inr other ↦ rw other (rest s' k.0)
      ]

abbrev pub StopsUntouched : Disk → Outcome → Type 0
StopsUntouched d o = (e : DeployError) × (s : Deploying) × (o ≡ stopped e s) × Untouched d s

-- Where a node that is asked for is new to the profile and not known, or has the profile's port in use by another
-- inbound, `ApplyProfileToNodes` stops with an error, the disk is as before, and the report is empty.
pub apply_profile_to_nodes-refused :
    (table : PresetTable) (g : Generators) (mint : Minting) (prof : InboundProfile)
    (desired : List String) (d : Disk) (id : String)
    → is_in id desired ≡ true
    → is_in id (profile_nodes prof.id d) ≡ false
    → fits prof d id ≡ false
    → StopsUntouched d (apply_profile_to_nodes table g mint prof desired d)
unfolding apply_profile_to_nodes
apply_profile_to_nodes-refused table g mint prof desired d id asked new unfit =
    by_chains (list_chains d)
  where
    current : List String
    current = profile_nodes prof.id d

    by_outcome :
        (o : Outcome) (k : Deploying → Outcome)
        → Ends (λ s'. is_in id desired ≡ false) (Untouched d) o
        → StopsUntouched d (and_then o k)
    by_outcome (going s) k h = absurd (cc)
    by_outcome (stopped e s) k h = (e, s, refl, h)

    by_chains :
        (r : Result (List Chain))
        → StopsUntouched d (
            with_chains table g mint prof
              (profile_nodes prof.id d)
              desired
              r
              (start table g mint d))
    by_chains (err e) = (DeployError.chains_unread e, start table g mint d, refl, (refl, refl))
    by_chains (ok chains) =
        by_outcome
          (for_each (preflight prof (profile_nodes prof.id d)) desired (start table g mint d)) _
          (preflight-all prof (profile_nodes prof.id d) d id desired (start table g mint d)
            (rw new unfit) (refl, refl))
