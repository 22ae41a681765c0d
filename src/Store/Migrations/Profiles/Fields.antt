-- ===== src/Store/Migrations/Profiles/Fields.antt =====
-- The first half of the step from schema 1 to 2 as a whole: every standalone inbound gets a profile of its
-- protocol, port and obfuscation, and nothing else of a node changes.
use angry_box.Prelude.{
  ◌≡◌, refl, ap, sym, ◌∙◌, ◌⊎◌, String, Bool, true, false, ◌&&◌, List, [], ◌∷◌, map, some, ◌=s◌,
  =s_iff, ◌==◌, ==_iff, any, arith, inl, inr, All, not,
}
use angry_box.Model.Base.{Time}
use angry_box.Model.Chain.{InboundProfile}
use angry_box.Model.Panel.{NodeInbound}
use angry_box.Store.{StoreFile}
use angry_box.Store.Migrations.Profiles.{
  is_standalone, group_key, key_of, all_inbounds, group_keys, Work, store_work, migrate_standalone,
}
use angry_box.Store.Migrations.Profiles.Groups.{Apart-group_keys, is_key-group_keys}
use angry_box.Store.Migrations.Profiles.Keys.{has_bar, group_key_inj}
use angry_box.Store.Migrations.Profiles.Linking.{
  has_key_profile, AllKeyLinked, AllKeyLinked-refl, link_groups, no_groups,
}

abbrev is_bare : String → Bool
is_bare protocol = not (has_bar protocol)

-- The protocol of the inbound has no bar.
abbrev pub is_plain : NodeInbound → Bool
is_plain ib = is_bare ib.protocol

-- The profile has the identifier, and the protocol, the port and the obfuscation of the inbound.
abbrev pub matches : String → NodeInbound → InboundProfile → Bool
matches pid ib p =
    p.id =s pid
    && (p.protocol =s ib.protocol && (p.port == ib.port && p.obfuscation =s ib.obfuscation))

abbrev pub has_profile : List InboundProfile → String → NodeInbound → Bool
has_profile ps pid ib = any (matches pid ib) ps

-- The second inbound is the first as it was, or the first, that was standalone, marked with a profile of
-- its protocol, port and obfuscation.
abbrev pub Linked : List InboundProfile → NodeInbound → NodeInbound → Type 0
Linked ps ib ib' =
    (ib' ≡ ib)
    ⊎ (pid : String) × (ib' ≡ record ib { profile_id = pid })
      × (is_standalone ib ≡ true)
      × ((pid =s "") ≡ false)
      × (has_profile ps pid ib ≡ true)

abbrev pub AllLinked : List InboundProfile → List NodeInbound → List NodeInbound → Type 0
AllLinked ps [] [] = Unit
AllLinked ps [] (ib' ∷ ibs') = ⊥
AllLinked ps (ib ∷ ibs) [] = ⊥
AllLinked ps (ib ∷ ibs) (ib' ∷ ibs') = Linked ps ib ib' × AllLinked ps ibs ibs'

same_fields :
    (pid : String) (ib : NodeInbound) (p : InboundProfile)
    → is_plain ib ≡ true
    → (p.id =s pid) ≡ true
    → (group_key p.protocol p.port p.obfuscation =s key_of ib) ≡ true
    → has_bar p.protocol ≡ false
    → matches pid ib p ≡ true
same_fields pid ib p plain named keyed bare =
    let (a, b, c) =
      group_key_inj p.protocol ib.protocol p.port ib.port p.obfuscation ib.obfuscation bare
        (ground (arith, plain)) ((=s_iff _ (key_of ib)).0 keyed) in
    rw
      (
        named,
        (=s_iff p.protocol ib.protocol).1 a,
        (==_iff p.port ib.port).1 b,
        (=s_iff p.obfuscation ib.obfuscation).1 c,
      )
      refl

has_profile-key :
    (ps : List InboundProfile) (pid : String) (ib : NodeInbound)
    → is_plain ib ≡ true
    → has_key_profile is_bare ps pid (key_of ib) ≡ true
    → has_profile ps pid ib ≡ true
has_profile-key [] pid ib plain h = absurd (cc)
has_profile-key (p ∷ ps) pid ib plain h =
    ground (arith, h, same_fields pid ib p plain, has_profile-key ps pid ib plain)

AllLinked-keys :
    (ps : List InboundProfile) (ibs ibs' : List NodeInbound)
    → All (λ ib. is_plain ib ≡ true) ibs
    → AllKeyLinked is_bare ps ibs ibs'
    → AllLinked ps ibs ibs'
AllLinked-keys ps [] [] all h = tt
AllLinked-keys ps [] (ib' ∷ ibs') all h = absurd h
AllLinked-keys ps (ib ∷ ibs) [] all h = absurd h
AllLinked-keys ps (ib ∷ ibs) (ib' ∷ ibs') (plain, all) (inl e, rest) =
    (inl e, AllLinked-keys ps ibs ibs' all rest)
AllLinked-keys ps (ib ∷ ibs) (ib' ∷ ibs') (plain, all) (inr (pid, e, alone, ne, has), rest) = (
  inr (pid, e, alone, ne, has_profile-key ps pid ib plain has),
  AllLinked-keys ps ibs ibs' all rest,
)

-- Where no inbound has a bar in its protocol, the step gives a file in which no inbound is standalone without a
-- profile; every inbound is as it was, but for the profile of a standalone one, which is in the file and has the
-- inbound's protocol, port and obfuscation.
pub migrate_standalone-AllLinked :
    (now : Time) (sf : StoreFile)
    → All (λ ib. is_plain ib ≡ true) (all_inbounds sf.node_infos)
    → (sf' : StoreFile) × (migrate_standalone now sf ≡ some sf')
      × AllLinked sf'.inbound_profiles (all_inbounds sf.node_infos) (all_inbounds sf'.node_infos)
      × (any is_standalone (all_inbounds sf'.node_infos) ≡ false)
unfolding migrate_standalone
migrate_standalone-AllLinked now sf plain =
    let ibs = all_inbounds sf.node_infos in
    let keys = group_keys ibs [] in
    let start : Work = record {
      used = map (λ (p : InboundProfile). p.id) sf.inbound_profiles;
      profiles = sf.inbound_profiles;
      infos = sf.node_infos;
    } in
    let (w, e, linked, groups) =
      link_groups is_bare now keys start ibs (Apart-group_keys ibs [] tt)
        (λ k there. sym (is_key-group_keys k ibs []) ∙ there) plain
        (AllKeyLinked-refl is_bare sf.inbound_profiles ibs) in
    (
      record sf { inbound_profiles = w.profiles; node_infos = w.infos },
      ap (store_work sf) e,
      AllLinked-keys w.profiles ibs (all_inbounds w.infos) plain linked,
      no_groups (all_inbounds w.infos) (λ k. ground (arith, groups k, is_key-group_keys k ibs [])),
    )
