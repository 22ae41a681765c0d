-- ===== src/Awg/Material/Stable.antt =====
-- What a redeploy does to the persisted material: nothing, whatever the generators would draw this time.
use angry_box.Prelude.{
  ℕ, ◌≡◌, ◌≢◌, refl, sym, ◌∙◌, String, true, ◌⊎◌, inl, inr, arith, ◌==◌, ◌=s◌, =s_iff, =s_ne,
  =s_refl, if◌then◌else◌, Bool-cases, false,
}
use angry_box.Model.Panel.{NodeInbound}
use angry_box.Awg.{inbound_awg_version, is_awg3_family}
use angry_box.Awg.Material.{
  ObfsMaterial, Generators, with_obfs, is_cached, ensure_inbound_awg3_material, ensure_requested,
}

abbrev pub no_packets : ObfsMaterial
no_packets = record {
  i1 = "";
  i2 = "";
  i3 = "";
  i4 = "";
  i5 = "";
  h1 = "";
  h2 = "";
  h3 = "";
  h4 = "";
}

-- What the code promises of the generators: no packets for the mimicry `none`, for any other and a level that
-- is not 0 the first packet and a header range, and a key.
pub record IsGenerating (g : Generators) : Type 0 where
  pub silent : (level : ℕ) (version : String) → g.obfs level "none" version ≡ no_packets
  pub packet :
      (level : ℕ) (mimicry version : String)
      → (level == 0) ≡ false
      → mimicry ≢ "none"
      → ((g.obfs level mimicry version).i1 ≢ "") × ((g.obfs level mimicry version).h1 ≢ "")
  pub key : g.awg3.header_protection_key ≢ ""

-- A second run finds the key of the first.
awg3_stable :
    (g g' : Generators) (ib : NodeInbound)
    → IsGenerating g
    → ensure_inbound_awg3_material g' (ensure_inbound_awg3_material g ib)
      ≡ ensure_inbound_awg3_material g ib
unfolding ensure_inbound_awg3_material
awg3_stable g g' ib h = elim (Bool-cases (is_awg3_family (inbound_awg_version ib))) [
  | inr old ↦ rw (old, old) refl
  | inl third ↦ elim (Bool-cases (ib.awg3_header_protection_key =s "")) [
    | inr kept ↦ rw (third, kept, third, kept) refl
    | inl empty ↦ rw (third, empty, third, =s_ne g.awg3.header_protection_key "" h.key) refl
  ]
]

-- The key of the third version is no part of the packets.
is_cached-awg3 :
    (g : Generators) (level : ℕ) (mimicry : String) (ib : NodeInbound)
    → is_cached level mimicry (ensure_inbound_awg3_material g ib) ≡ is_cached level mimicry ib
unfolding ensure_inbound_awg3_material
is_cached-awg3 g level mimicry ib = elim (Bool-cases (is_awg3_family (inbound_awg_version ib))) [
  | inr old ↦ rw old refl
  | inl third ↦ elim (Bool-cases (ib.awg3_header_protection_key =s "")) [
    | inr kept ↦ rw (third, kept) refl
    | inl empty ↦ rw (third, empty) refl
  ]
]

-- The packets that are written again are the ones that are there.
with_obfs-awg3 :
    (g : Generators) (level : ℕ) (mimicry : String) (m : ObfsMaterial) (ib : NodeInbound)
    → with_obfs level mimicry m (ensure_inbound_awg3_material g (with_obfs level mimicry m ib))
      ≡ ensure_inbound_awg3_material g (with_obfs level mimicry m ib)
unfolding ensure_inbound_awg3_material
with_obfs-awg3 g level mimicry m ib = elim (Bool-cases (is_awg3_family (inbound_awg_version ib))) [
  | inr old ↦ rw old refl
  | inl third ↦ elim (Bool-cases (ib.awg3_header_protection_key =s "")) [
    | inr kept ↦ rw (third, kept) refl
    | inl empty ↦ rw (third, empty) refl
  ]
]

is_cached-obfs :
    (level : ℕ) (mimicry : String) (m : ObfsMaterial) (ib : NodeInbound)
    → m.i1 ≢ ""
    → m.h1 ≢ ""
    → is_cached level mimicry (with_obfs level mimicry m ib) ≡ true
is_cached-obfs level mimicry m ib p q =
    ground (arith, =s_ne m.i1 "" p, =s_ne m.h1 "" q, =s_refl mimicry)

-- The run after a run that wrote packets `m`: they are cached, or the same would be written.
written_stable :
    (g g' : Generators) (ib : NodeInbound) (level : ℕ) (mimicry : String) (m m' : ObfsMaterial)
    → IsGenerating g
    → (is_cached level mimicry (with_obfs level mimicry m ib) ≡ true) ⊎ (m' ≡ m)
    → (let fresh = ensure_inbound_awg3_material g (with_obfs level mimicry m ib) in
        if is_cached level mimicry fresh
        then ensure_inbound_awg3_material g' fresh
        else ensure_inbound_awg3_material g' (with_obfs level mimicry m' fresh))
      ≡ ensure_inbound_awg3_material g (with_obfs level mimicry m ib)
written_stable g g' ib level mimicry m m' h why =
    let again = awg3_stable g g' (with_obfs level mimicry m ib) h in
    elim (Bool-cases (is_cached level mimicry (with_obfs level mimicry m ib))) [
      | inl cached ↦
          rw (is_cached-awg3 g level mimicry (with_obfs level mimicry m ib), cached) again
      | inr stale ↦ elim why [
        | inl cached ↦ absurd (cc)
        | inr same ↦
            rw
              (
                is_cached-awg3 g level mimicry (with_obfs level mimicry m ib),
                stale,
                same,
                with_obfs-awg3 g level mimicry m ib,
              )
              again
      ]
    ]

silent_or_packet :
    (g g' : Generators) (ib : NodeInbound) (level : ℕ) (mimicry v v' : String)
    → IsGenerating g
    → IsGenerating g'
    → (level == 0) ≡ false
    → (is_cached level mimicry (with_obfs level mimicry (g.obfs level mimicry v) ib) ≡ true)
      ⊎ (g'.obfs level mimicry v' ≡ g.obfs level mimicry v)
silent_or_packet g g' ib level mimicry v v' h h' on = elim (Bool-cases (mimicry =s "none")) [
  | inl none ↦
      inr (rw ((=s_iff mimicry "none").0 none) (h'.silent level v' ∙ sym (h.silent level v)))
  | inr other ↦
      let (p, q) = h.packet level mimicry v on (λ e. cc (e, =s_refl "none")) in
      inl (is_cached-obfs level mimicry (g.obfs level mimicry v) ib p q)
]

pub ensure_requested_stable :
    (g g' : Generators) (ib : NodeInbound) (level : ℕ) (mimicry : String)
    → IsGenerating g
    → IsGenerating g'
    → ensure_requested g' (ensure_requested g ib (level, mimicry)) (level, mimicry)
      ≡ ensure_requested g ib (level, mimicry)
ensure_requested_stable g g' ib level mimicry h h' = elim (Bool-cases (level == 0)) [
  | inl off ↦ rw off (awg3_stable g g' ib h)
  | inr on ↦ elim (Bool-cases (is_cached level mimicry ib)) [
    | inl cached ↦
        rw (on, cached, is_cached-awg3 g level mimicry ib, cached) (awg3_stable g g' ib h)
    | inr stale ↦
        let v = inbound_awg_version ib in
        let m = g.obfs level mimicry v in
        let v' =
          inbound_awg_version (ensure_inbound_awg3_material g (with_obfs level mimicry m ib)) in
        rw (on, stale)
          (written_stable g g' ib level mimicry m (g'.obfs level mimicry v') h
            (silent_or_packet g g' ib level mimicry v v' h h' on))
  ]
]
