-- ===== src/Deploy/Unsaved.antt =====
-- Changes that the update of a kept node makes and does not save.
use angry_box.Prelude.{
  ◌≡◌, refl, ap, ◌∙◌, Bool, true, false, not, ◌&&◌, ◌||◌, ◌=s◌, =s_refl, String, List, [], ◌∷◌, any,
  All, arith,
}
use angry_box.Model.Panel.{NodeInbound, NodeInfo}
use angry_box.Model.Chain.{InboundProfile}
use angry_box.Awg.{is_awg3_family}
use angry_box.Awg.Presets.{PresetTable}
use angry_box.Awg.Material.{
  Generators, apply_profile_awg_material, apply_profile_material_to_inbound,
}
use angry_box.Store.{ok}
use angry_box.Store.Nodes.{get_node_info}
use angry_box.Store.Profiles.{from_profile}
use angry_box.Deploy.{Deploying, going, is_in, refresh, update_record}
use angry_box.Deploy.Inbounds.{Minting, sync_inbound, differs, fingerprint}

-- The profile is of the third version and has no packets of its own.
abbrev pub is_keyed : InboundProfile → Bool
is_keyed prof = prof.awg_cps_i1 =s "" && (prof.awg3_mode || is_awg3_family prof.awg_version)

-- An AmneziaWG inbound of the profile with its port, preset, transport and server name.
abbrev pub is_aligned : InboundProfile → NodeInbound → Bool
is_aligned prof ib = from_profile prof.id ib && (ib.protocol =s "awg" && not (differs prof ib))

-- The version and the header protection key are those of the profile.
abbrev pub HasKey : InboundProfile → NodeInbound → Type 0
HasKey prof ib =
    (ib.awg_version ≡ prof.awg_version)
    × (ib.awg3_header_protection_key ≡ prof.awg3_header_protection_key)

module _ (table : PresetTable) (g : Generators) (prof : InboundProfile) where
  sync_inbound-HasKey :
      (ib : NodeInbound)
      → is_keyed prof ≡ true
      → is_aligned prof ib ≡ true
      → ((sync_inbound table g prof ib).1 ≡ false) × HasKey prof (sync_inbound table g prof ib).0
  unfolding sync_inbound apply_profile_material_to_inbound apply_profile_awg_material
  sync_inbound-HasKey ib keyed aligned =
      let own : (ib.profile_id =s prof.id) ≡ true = ground (arith, aligned) in
      let awg : (ib.protocol =s "awg") ≡ true = ground (arith, aligned) in
      let same : differs prof ib ≡ false = ground (arith, aligned) in
      let plain : (prof.awg_cps_i1 =s "") ≡ true = ground (arith, keyed) in
      let third : (prof.awg3_mode || is_awg3_family prof.awg_version) ≡ true =
        ground (arith, keyed) in
      (
        rw (own, awg, same, plain, third, =s_refl (fingerprint ib)) refl,
        (rw (own, awg, plain, third) refl, rw (own, awg, plain, third) refl),
      )

  unnoticed :
      (ibs : List NodeInbound)
      → is_keyed prof ≡ true
      → All (λ ib. is_aligned prof ib ≡ true) ibs
      → (any (λ ib. (sync_inbound table g prof ib).1) ibs ≡ false)
        × All (λ ib. HasKey prof (sync_inbound table g prof ib).0) ibs
  unnoticed [] keyed all = (refl, tt)
  unnoticed (ib ∷ ibs) keyed (aligned, all) =
      let (quiet, key) = sync_inbound-HasKey ib keyed aligned in
      let (rest, keys) = unnoticed ibs keyed all in (rw (quiet, rest) refl, (key, keys))

-- Take a node that keeps a profile of the third version without packets of its own, and whose inbounds are all
-- AmneziaWG inbounds of that profile with its port, preset, transport and server name. Its update gives each of
-- them the version and the header protection key of the profile, and yet the pass over the node ends with nothing
-- written and the node not reported, whatever version and key the disk has.
pub refresh-unsaved :
    (table : PresetTable) (g : Generators) (mint : Minting) (prof : InboundProfile)
    (desired : List String) (id : String) (s : Deploying) (ni : NodeInfo)
    → is_in id desired ≡ true
    → get_node_info id s.disk ≡ ok ni
    → is_keyed prof ≡ true
    → All (λ ib. is_aligned prof ib ≡ true) ni.inbounds
    → All (λ ib. HasKey prof (sync_inbound table g prof ib).0) ni.inbounds
      × (refresh table g mint prof desired id s ≡ going s)
unfolding refresh
refresh-unsaved table g mint prof desired id s ni kept found keyed all =
    let (quiet, keys) = unnoticed table g prof ni.inbounds keyed all in
    (keys, rw kept (ap (λ r. update_record table g mint prof id r s) found ∙ rw quiet refl))
