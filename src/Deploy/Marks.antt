-- ===== src/Deploy/Marks.antt =====
-- A rule for the passes that follows one test through a loop, and the nodes that have the profile at the start.
use angry_box.Prelude.{
  ◌≡◌, refl, ◌∙◌, inl, inr, String, Bool, true, false, ◌&&◌, List, [], ◌∷◌, map, arith, ◌=s◌,
  =s_iff, if◌then◌else◌, keep, any, find_by, has_key, KeysDistinct, Bool-cases,
}
use angry_box.Model.Panel.{NodeInfo}
use angry_box.Store.{Disk, holds, found, node_info_not_found, query, StoreFile}
use angry_box.Store.Hosts.{info_id}
use angry_box.Store.Nodes.{get_node_info}
use angry_box.Store.Profiles.{from_profile, profile_nodes}
use angry_box.Deploy.{Deploying, Outcome, going, stopped, for_each, is_in}
use angry_box.Store.Nodes.Rows.{inbounds_of, inbounds_at}
use angry_box.Deploy.Passes.{Ends, Ends-and_then}

abbrev pub Anything : Deploying → Type 0
Anything s = Unit {0}

pub Ends-map :
    (P R Q : Deploying → Type 0) (o : Outcome)
    → ((s : Deploying) → P s → R s)
    → Ends P Q o
    → Ends R Q o
Ends-map P R Q (going s) f h = f s h
Ends-map P R Q (stopped e s) f h = h

-- The test `carry` about the node `id` gets the value `v` where the loop meets the node and `cond` is true.
module _ (P : Deploying → Type 0) (carry : Deploying → Bool) (cond v : Bool) (id : String) where
  abbrev pub Marked : Bool → Bool → Deploying → Type 0
  Marked met before s = P s × (carry s ≡ (if met && cond then v else before))

  pub Ends-marks :
      (body : String → Deploying → Outcome) (ids : List String) (s : Deploying)
      → ((x : String) (s : Deploying) → P s → Ends (Marked (x =s id) (carry s)) Anything (body x s))
      → P s
      → Ends (Marked (is_in id ids) (carry s)) Anything (for_each body ids s)
  Ends-marks body [] s step h = (h, refl)
  Ends-marks body (x ∷ xs) s step h =
      Ends-and_then (Marked (x =s id) (carry s)) Anything (Marked (is_in id (x ∷ xs)) (carry s))
        (body x s) (for_each body xs) (step x s h)
        (λ s' (h' : Marked (x =s id) (carry s) s').
          Ends-map (Marked (is_in id xs) (carry s')) (Marked (is_in id (x ∷ xs)) (carry s)) Anything
            (for_each body xs s')
            (λ s'' (h'' : Marked (is_in id xs) (carry s') s'').
              (h''.0, h''.1 ∙ joined (x =s id) (is_in id xs) cond (carry s) (carry s') h'.1))
            (Ends-marks body xs s' step h'.0))
    where
      joined :
          (a b c before after : Bool)
          → after ≡ (if a && c then v else before)
          → (if b && c then v else after) ≡ (if (if a then true else b) && c then v else before)
      joined true true true before after e = refl
      joined true true false before after e = e
      joined true false true before after e = e
      joined true false false before after e = e
      joined false true true before after e = refl
      joined false true false before after e = e
      joined false false c before after e = e

-- A node has an inbound of the profile.
abbrev pub carries : String → String → Disk → Bool
carries profile_id id d = any (from_profile profile_id) (inbounds_at id d)

-- Where no node has two records, `ProfileNodes` lists the nodes that carry the profile.
pub profile_nodes-carries :
    (profile_id id : String) (d : Disk) (sf : StoreFile)
    → d.content ≡ holds sf
    → KeysDistinct info_id sf.node_infos
    → is_in id (profile_nodes profile_id d) ≡ carries profile_id id d
unfolding profile_nodes get_node_info query
profile_nodes-carries profile_id id d sf e h = rw e (by_rows sf.node_infos h)
  where
    at_most :
        (rows : List NodeInfo)
        → has_key info_id id rows ≡ false
        → is_in id (map info_id (keep (λ ni. any (from_profile profile_id) ni.inbounds) rows))
          ≡ false
    at_most [] gone = refl
    at_most (x ∷ xs) gone = elim (Bool-cases (any (from_profile profile_id) x.inbounds)) [
      | inl has ↦ rw has (ground (arith, gone, at_most xs))
      | inr lacks ↦ rw lacks (ground (arith, gone, at_most xs))
    ]

    by_rows :
        (rows : List NodeInfo)
        → KeysDistinct info_id rows
        → is_in id (map info_id (keep (λ ni. any (from_profile profile_id) ni.inbounds) rows))
          ≡ any
              (from_profile profile_id)
              (inbounds_of (found (node_info_not_found id) (find_by info_id id rows)))
    by_rows [] h = refl
    by_rows (x ∷ xs) (p, h) = elim (Bool-cases (info_id x =s id)) [
      | inl own ↦ elim (Bool-cases (any (from_profile profile_id) x.inbounds)) [
        | inl has ↦ rw (own, has, own) refl
        | inr lacks ↦ rw (own, lacks) (at_most xs (rw ((=s_iff (info_id x) id).0 own) at p))
      ]
      | inr other ↦ elim (Bool-cases (any (from_profile profile_id) x.inbounds)) [
        | inl has ↦ rw (other, has, other) (by_rows xs h)
        | inr lacks ↦ rw (other, lacks) (by_rows xs h)
      ]
    ]
