-- ===== src/Deploy/Kept.antt =====
-- What bringing an inbound up to date leaves alone, and what a new one carries.
use angry_box.Prelude.{
  true, ◌⊎◌, ◌≡◌, refl, ap, ◌∙◌, String, false, ◌||◌, inl, inr, List, [], ◌∷◌, Option, none, some,
  ◌==◌, ◌=s◌, Bool-cases,
}
use angry_box.Model.Panel.{NodeInbound, NodeInfo}
use angry_box.Model.Chain.{InboundProfile}
use angry_box.Awg.{inbound_awg_version, is_awg3_family}
use angry_box.Awg.Presets.{ConnectionPreset, PresetTable}
use angry_box.Awg.Material.{
  Generators, request, is_cached, ensure_inbound_awg3_material, ensure_inbound_awg_material,
  apply_profile_awg_material, apply_profile_material_to_inbound,
}
use angry_box.Store.Profiles.{from_profile}
use angry_box.Deploy.Inbounds.{
  Minted, blank_materialized, sync_inbound, build_profile_inbound, awg_inbound, reality_inbound,
  tls_inbound,
}

-- Who an inbound is, whom it serves, and its keys, but for the header protection of AmneziaWG.
abbrev pub credentials : NodeInbound → List String × List String
credentials ib = (
  ib.for_users,
  ib.protocol ∷ ib.tag ∷ ib.profile_id ∷ ib.uuid ∷ ib.server_priv_key ∷ ib.server_pub_key
      ∷ ib.short_id ∷ ib.obfs_password ∷ ib.tls_certificate ∷ ib.tls_private_key ∷ ib.awg_client_pub
      ∷ ib.awg_client_priv ∷ ib.awg_server_address ∷ [],
)

abbrev profile_in : List String × List String → String
profile_in (users, protocol ∷ tag ∷ profile ∷ rest) = profile
profile_in (users, _) = ""

credentials-awg3 :
    (g : Generators) (ib : NodeInbound)
    → credentials (ensure_inbound_awg3_material g ib) ≡ credentials ib
unfolding ensure_inbound_awg3_material
credentials-awg3 g ib = elim (Bool-cases (is_awg3_family (inbound_awg_version ib))) [
  | inr old ↦ rw old refl
  | inl third ↦ elim (Bool-cases (ib.awg3_header_protection_key =s "")) [
    | inr kept ↦ rw (third, kept) refl
    | inl empty ↦ rw (third, empty) refl
  ]
]

credentials-ensure :
    (g : Generators) (ib : NodeInbound) (preset : ConnectionPreset)
    → credentials (ensure_inbound_awg_material g ib preset) ≡ credentials ib
unfolding ensure_inbound_awg_material
credentials-ensure g ib preset =
    let (level, mimicry) = request preset in
    elim (Bool-cases (level == 0)) [
      | inl off ↦ rw off (credentials-awg3 g ib)
      | inr on ↦ elim (Bool-cases (is_cached level mimicry ib)) [
        | inl cached ↦ rw (on, cached) (credentials-awg3 g ib)
        | inr stale ↦ rw (on, stale) (credentials-awg3 g _)
      ]
    ]

pub credentials-apply_profile_material_to_inbound :
    (g : Generators) (ib : NodeInbound) (prof : InboundProfile) (preset : ConnectionPreset)
    → credentials (apply_profile_material_to_inbound g ib prof preset) ≡ credentials ib
unfolding apply_profile_material_to_inbound apply_profile_awg_material
credentials-apply_profile_material_to_inbound g ib prof preset =
    elim (Bool-cases (prof.awg_cps_i1 =s "")) [
      | inr shared ↦ rw shared refl
      | inl own ↦ elim (Bool-cases (prof.awg3_mode || is_awg3_family prof.awg_version)) [
        | inl third ↦ rw (own, third) refl
        | inr older ↦ rw (own, older) (credentials-ensure g _ preset)
      ]
    ]

module _ (table : PresetTable) (g : Generators) (prof : InboundProfile) where
  credentials-sync_inbound :
      (ib : NodeInbound) → credentials (sync_inbound table g prof ib).0 ≡ credentials ib
  unfolding sync_inbound
  credentials-sync_inbound ib = elim (Bool-cases (ib.profile_id =s prof.id)) [
    | inr other ↦ rw other refl
    | inl own ↦ elim (Bool-cases (ib.protocol =s "awg")) [
      | inr plain ↦ rw (own, plain) refl
      | inl awg ↦ rw (own, awg) (credentials-apply_profile_material_to_inbound g _ prof _)
    ]
  ]

  pub profile_id-sync_inbound :
      (ib : NodeInbound) → (sync_inbound table g prof ib).0.profile_id ≡ ib.profile_id
  profile_id-sync_inbound ib = ap profile_in (credentials-sync_inbound ib)

  pub other-sync_inbound :
      (ib : NodeInbound) → from_profile prof.id ib ≡ false → (sync_inbound table g prof ib).0 ≡ ib
  unfolding sync_inbound
  other-sync_inbound ib other = rw other refl

  -- An inbound that is brought up to date keeps its users, its protocol, tag, profile and UUID, its server keys,
  -- short identifier and obfuscation password, its certificate with its key, its WireGuard client keys and its
  -- server address; and it is one of the profile, or left as it is altogether.
  pub sync_inbound-credentials :
      (ib : NodeInbound)
      → (credentials (sync_inbound table g prof ib).0 ≡ credentials ib)
        × ((from_profile prof.id ib ≡ true) ⊎ ((sync_inbound table g prof ib).0 ≡ ib))
  sync_inbound-credentials ib = (
    credentials-sync_inbound ib,
    elim (Bool-cases (from_profile prof.id ib)) [
      | inl own ↦ inl own
      | inr other ↦ inr (other-sync_inbound ib other)
    ],
  )

  abbrev IsOwn : Option NodeInbound → Type 0
  IsOwn none = Unit
  IsOwn (some ib) = ib.profile_id ≡ prof.id

  awg_inbound-IsOwn :
      (ni : NodeInfo) (keys : Option (String × String)) (ib : NodeInbound)
      → ib.profile_id ≡ prof.id
      → IsOwn (awg_inbound table g prof ni keys ib)
  awg_inbound-IsOwn ni none ib h = tt
  awg_inbound-IsOwn ni (some (priv, key)) ib h =
      ap profile_in (credentials-apply_profile_material_to_inbound g _ prof _) ∙ h

  reality_inbound-IsOwn :
      (hop : Option (String × String × String)) (key : Option String) (ib : NodeInbound)
      → ib.profile_id ≡ prof.id
      → IsOwn (reality_inbound hop key ib)
  reality_inbound-IsOwn none key ib h = tt
  reality_inbound-IsOwn (some (uuid, priv, short)) none ib h = tt
  reality_inbound-IsOwn (some (uuid, priv, short)) (some key) ib h = h

  tls_inbound-IsOwn :
      (cert : Option (String × String)) (ib : NodeInbound)
      → ib.profile_id ≡ prof.id
      → IsOwn (tls_inbound cert ib)
  tls_inbound-IsOwn none ib h = tt
  tls_inbound-IsOwn (some (cert, key)) ib h = h

  build_profile_inbound-IsOwn :
      (minted : Minted) (ni : NodeInfo) → IsOwn (build_profile_inbound table g minted prof ni)
  unfolding build_profile_inbound
  build_profile_inbound-IsOwn minted ni =
      let ib = blank_materialized prof in
      elim (Bool-cases (prof.protocol =s "awg")) [
        | inl awg ↦ rw awg (awg_inbound-IsOwn ni minted.wireguard ib refl)
        | inr a ↦ elim (Bool-cases (prof.protocol =s "vless-reality")) [
          | inl reality ↦
              rw (a, reality) (reality_inbound-IsOwn minted.hop minted.hop_public_key ib refl)
          | inr b ↦ elim (Bool-cases (prof.protocol =s "naive" || prof.protocol =s "trusttunnel")) [
            | inl tls ↦ rw (a, b, tls) (tls_inbound-IsOwn minted.self_signed ib refl)
            | inr c ↦ elim (Bool-cases (prof.protocol =s "mieru")) [
              | inl mieru ↦ rw (a, b, c, mieru) refl
              | inr d ↦ elim (Bool-cases (prof.protocol =s "mtproxy")) [
                | inl mtproxy ↦ rw (a, b, c, d, mtproxy) refl
                | inr e ↦ elim (Bool-cases (prof.protocol =s "tuic")) [
                  | inl tuic ↦ rw (a, b, c, d, e, tuic) refl
                  | inr unknown ↦ rw (a, b, c, d, e, unknown) tt
                ]
              ]
            ]
          ]
        ]
      ]

  -- A new inbound is one of the profile.
  pub profile_id-build_profile_inbound :
      (minted : Minted) (ni : NodeInfo) (ib : NodeInbound)
      → build_profile_inbound table g minted prof ni ≡ some ib
      → ib.profile_id ≡ prof.id
  profile_id-build_profile_inbound minted ni ib h =
      let own : IsOwn (build_profile_inbound table g minted prof ni) =
        build_profile_inbound-IsOwn minted ni in
      rw h at own
