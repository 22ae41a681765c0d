-- ===== src/Store/Migrations/Profiles/Linking.antt =====
-- The groups of the step from schema 1 to 2, one after the other: every standalone inbound gets a profile of its
-- key.
use angry_box.Prelude.{
  All, ◌≡◌, refl, ap, sym, ◌∙◌, ◌⊎◌, String, Bool, true, false, ◌&&◌, List, [], ◌∷◌, ◌++◌, map,
  some, ◌=s◌, =s_iff, any, arith, Bool-cases, inl, inr, if◌then◌else◌, All,
}
use angry_box.Prelude.Apart.{Apart}
use angry_box.Model.Base.{Time}
use angry_box.Model.Chain.{InboundProfile}
use angry_box.Model.Panel.{NodeInbound}
use angry_box.Store.{StoreFile}
use angry_box.Store.Migrations.Profiles.{
  group_keys, store_work, migrate_standalone, is_standalone, group_key, key_of, in_group,
  all_inbounds, mark, profile_from, Work, profile_group, profile_groups,
}
use angry_box.Store.Migrations.Profiles.Marking.{
  all_inbounds-mark_all, marked_not_standalone, any-in_group-mark, any-in_group-mark_other, grouped,
  profile_group-grouped,
}
use angry_box.Store.Migrations.Profiles.Groups.{Apart-group_keys, is_key-group_keys, is_key}

module _ (fits : String → Bool) where
  -- There is a profile with the identifier and the key, whose protocol passes the test.
  abbrev pub has_key_profile : List InboundProfile → String → String → Bool
  has_key_profile ps pid key =
      any
        (λ (p : InboundProfile).
          p.id =s pid && (group_key p.protocol p.port p.obfuscation =s key && fits p.protocol))
        ps

  abbrev pub is_fit : NodeInbound → Bool
  is_fit ib = fits ib.protocol

  -- The second inbound is the first as it was, or the first, that was standalone, marked with a profile of
  -- its key.
  abbrev pub KeyLinked : List InboundProfile → NodeInbound → NodeInbound → Type 0
  KeyLinked ps ib ib' =
      (ib' ≡ ib)
      ⊎ (pid : String) × (ib' ≡ record ib { profile_id = pid })
        × (is_standalone ib ≡ true)
        × ((pid =s "") ≡ false)
        × (has_key_profile ps pid (key_of ib) ≡ true)

  abbrev pub AllKeyLinked : List InboundProfile → List NodeInbound → List NodeInbound → Type 0
  AllKeyLinked ps [] [] = Unit
  AllKeyLinked ps [] (ib' ∷ ibs') = ⊥
  AllKeyLinked ps (ib ∷ ibs) [] = ⊥
  AllKeyLinked ps (ib ∷ ibs) (ib' ∷ ibs') = KeyLinked ps ib ib' × AllKeyLinked ps ibs ibs'

  pub AllKeyLinked-refl :
      (ps : List InboundProfile) (ibs : List NodeInbound) → AllKeyLinked ps ibs ibs
  AllKeyLinked-refl ps [] = tt
  AllKeyLinked-refl ps (ib ∷ ibs) = (inl refl, AllKeyLinked-refl ps ibs)

  has_key_profile-append :
      (ps : List InboundProfile) (p : InboundProfile) (pid key : String)
      → has_key_profile ps pid key ≡ true
      → has_key_profile (ps ++ p ∷ []) pid key ≡ true
  has_key_profile-append [] p pid key h = absurd (cc)
  has_key_profile-append (q ∷ ps) p pid key h =
      ground (arith, h, has_key_profile-append ps p pid key)

  has_key_profile-new :
      (ps : List InboundProfile) (p : InboundProfile) (pid key : String)
      → (p.id =s pid) ≡ true
      → (group_key p.protocol p.port p.obfuscation =s key) ≡ true
      → fits p.protocol ≡ true
      → has_key_profile (ps ++ p ∷ []) pid key ≡ true
  has_key_profile-new [] p pid key h k plain = rw (h, k, plain) refl
  has_key_profile-new (q ∷ ps) p pid key h k plain =
      ground (arith, has_key_profile-new ps p pid key h k plain)

  mark-KeyLinked :
      (ps : List InboundProfile) (p : InboundProfile) (key pid : String) (ib ib' : NodeInbound)
      → (pid =s "") ≡ false
      → (p.id =s pid) ≡ true
      → (group_key p.protocol p.port p.obfuscation =s key) ≡ true
      → fits p.protocol ≡ true
      → KeyLinked ps ib ib'
      → KeyLinked (ps ++ p ∷ []) ib (mark key pid ib')
  mark-KeyLinked ps p key pid ib ib' ne same_id same_key plain (inl e) =
      elim (Bool-cases (in_group key ib')) [
        | inr other ↦ inl (rw other e)
        | inl here ↦ inr (
          pid,
          rw here (ap (λ (x : NodeInbound). record x { profile_id = pid }) e),
          ap is_standalone (sym e) ∙ ground (arith, here),
          ne,
          has_key_profile-new ps p pid (key_of ib) same_id
              (same_key_as p key ib ib' e here same_key) plain,
        )
      ]
    where
      same_key_as :
          (p : InboundProfile) (key : String) (ib ib' : NodeInbound)
          → ib' ≡ ib
          → in_group key ib' ≡ true
          → (group_key p.protocol p.port p.obfuscation =s key) ≡ true
          → (group_key p.protocol p.port p.obfuscation =s key_of ib) ≡ true
      same_key_as p key ib ib' e here same =
          let k : key_of ib' ≡ key = (=s_iff (key_of ib') key).0 (ground (arith, here)) in
          ap (λ s. group_key p.protocol p.port p.obfuscation =s s) (ap key_of (sym e) ∙ k) ∙ same
  mark-KeyLinked ps p key pid ib ib' ne same_id same_key plain (inr (q, e, standalone, q_ne, has)) =
      let done : is_standalone ib' ≡ false = ap is_standalone e ∙ marked_not_standalone ib q q_ne in
      let other : in_group key ib' ≡ false = ground (arith, done) in
      inr (q, rw other e, standalone, q_ne, has_key_profile-append ps p q (key_of ib) has)

  AllKeyLinked-mark :
      (ps : List InboundProfile) (p : InboundProfile) (key pid : String)
      (ibs ibs' : List NodeInbound)
      → (pid =s "") ≡ false
      → (p.id =s pid) ≡ true
      → (group_key p.protocol p.port p.obfuscation =s key) ≡ true
      → fits p.protocol ≡ true
      → AllKeyLinked ps ibs ibs'
      → AllKeyLinked (ps ++ p ∷ []) ibs (map (mark key pid) ibs')
  AllKeyLinked-mark ps p key pid [] [] ne i k pl h = tt
  AllKeyLinked-mark ps p key pid [] (ib' ∷ ibs') ne i k pl h = absurd h
  AllKeyLinked-mark ps p key pid (ib ∷ ibs) [] ne i k pl h = absurd h
  AllKeyLinked-mark ps p key pid (ib ∷ ibs) (ib' ∷ ibs') ne i k pl (here, rest) = (
    mark-KeyLinked ps p key pid ib ib' ne i k pl here,
    AllKeyLinked-mark ps p key pid ibs ibs' ne i k pl rest,
  )

  AllKeyLinked-fit :
      (ps : List InboundProfile) (ibs ibs' : List NodeInbound)
      → All (λ ib. is_fit ib ≡ true) ibs
      → AllKeyLinked ps ibs ibs'
      → All (λ ib. is_fit ib ≡ true) ibs'
  AllKeyLinked-fit ps [] [] all h = tt
  AllKeyLinked-fit ps [] (ib' ∷ ibs') all h = absurd h
  AllKeyLinked-fit ps (ib ∷ ibs) [] all h = absurd h
  AllKeyLinked-fit ps (ib ∷ ibs) (ib' ∷ ibs') (plain, all) (inl e, rest) =
      (ap is_fit e ∙ plain, AllKeyLinked-fit ps ibs ibs' all rest)
  AllKeyLinked-fit ps (ib ∷ ibs) (ib' ∷ ibs') (plain, all) (inr (pid, e, more, ne, has), rest) =
      (ap is_fit e ∙ plain, AllKeyLinked-fit ps ibs ibs' all rest)

  -- One group: its inbounds are linked and leave the group, the other groups keep theirs.
  link_group :
      (now : Time) (key : String) (w : Work) (orig : List NodeInbound)
      → any (in_group key) (all_inbounds w.infos) ≡ true
      → All (λ ib. is_fit ib ≡ true) orig
      → AllKeyLinked w.profiles orig (all_inbounds w.infos)
      → (w' : Work) × (profile_group now key w ≡ some w')
        × AllKeyLinked w'.profiles orig (all_inbounds w'.infos)
        × ((k : String)
            → any (in_group k) (all_inbounds w'.infos)
              ≡ (if k =s key then false else any (in_group k) (all_inbounds w.infos)))
  link_group now key w orig full plain linked =
      let (r, e, here, ne, free, within) = profile_group-grouped now key w full in
      let flat = all_inbounds-mark_all key r.1 w.infos in
      (
        grouped now key w r.0 r.1,
        e,
        rw flat (
            AllKeyLinked-mark w.profiles (profile_from now r.1 r.0) key r.1 orig
              (all_inbounds w.infos) ne ((=s_iff r.1 r.1).1 refl) (ground (arith, here))
              (ground (
                arith,
                within is_fit
                    (AllKeyLinked-fit w.profiles orig (all_inbounds w.infos) plain linked),
              ))
              linked),
        λ k. ap (any (in_group k)) flat ∙ marked k r.1 ne,
      )
    where
      marked :
          (k pid : String)
          → (pid =s "") ≡ false
          → any (in_group k) (map (mark key pid) (all_inbounds w.infos))
            ≡ (if k =s key then false else any (in_group k) (all_inbounds w.infos))
      marked k pid ne = elim (Bool-cases (k =s key)) [
        | inl same ↦ rw same (
            ap (λ q. any (in_group q) (map (mark key pid) (all_inbounds w.infos)))
              ((=s_iff k key).0 same)
            ∙ any-in_group-mark key pid (all_inbounds w.infos) ne)
        | inr other ↦ rw other (any-in_group-mark_other k key pid (all_inbounds w.infos) ne other)
      ]

  pub link_groups :
      (now : Time) (keys : List String) (w : Work) (orig : List NodeInbound)
      → Apart (λ a b. a =s b) keys
      → ((k : String) → is_key k keys ≡ true → any (in_group k) (all_inbounds w.infos) ≡ true)
      → All (λ ib. is_fit ib ≡ true) orig
      → AllKeyLinked w.profiles orig (all_inbounds w.infos)
      → (w' : Work) × (profile_groups now keys (some w) ≡ some w')
        × AllKeyLinked w'.profiles orig (all_inbounds w'.infos)
        × ((k : String)
            → any (in_group k) (all_inbounds w'.infos)
              ≡ (if is_key k keys then false else any (in_group k) (all_inbounds w.infos)))
  link_groups now [] w orig apart full plain linked = (w, refl, linked, λ k. refl)
  link_groups now (key ∷ keys) w orig (fresh, apart) full plain linked =
      let (w₁, e₁, linked₁, groups₁) =
        link_group now key w orig (full key (ground (arith, (=s_iff key key).1))) plain linked in
      let (w₂, e₂, linked₂, groups₂) =
        link_groups now keys w₁ orig apart
          (λ k there. ground (arith, groups₁ k, full k, there, fresh, =s_iff k key)) plain
          linked₁ in
      (w₂, ap (profile_groups now keys) e₁ ∙ e₂, linked₂, λ k. ground (arith, groups₁ k, groups₂ k))

pub no_groups :
    (ibs : List NodeInbound)
    → ((k : String) → any (in_group k) ibs ≡ false)
    → any is_standalone ibs ≡ false
no_groups [] h = refl
no_groups (ib ∷ ibs) h = ground (
  arith,
  h (key_of ib),
  (=s_iff (key_of ib) (key_of ib)).1,
  no_groups ibs (λ k. ground (arith, h k)),
)

All-is_fit : (ibs : List NodeInbound) → All (λ ib. is_fit (λ p. true) ib ≡ true) ibs
All-is_fit [] = tt
All-is_fit (ib ∷ ibs) = (refl, All-is_fit ibs)

-- The step gives a file in any case.
pub migrate_standalone-ends :
    (now : Time) (sf : StoreFile) → (sf' : StoreFile) × (migrate_standalone now sf ≡ some sf')
unfolding migrate_standalone
migrate_standalone-ends now sf =
    let ibs = all_inbounds sf.node_infos in
    let start : Work = record {
      used = map (λ (p : InboundProfile). p.id) sf.inbound_profiles;
      profiles = sf.inbound_profiles;
      infos = sf.node_infos;
    } in
    let (w, e, linked, groups) =
      link_groups (λ p. true) now (group_keys ibs []) start ibs (Apart-group_keys ibs [] tt)
        (λ k there. sym (is_key-group_keys k ibs []) ∙ there) (All-is_fit ibs)
        (AllKeyLinked-refl (λ p. true) sf.inbound_profiles ibs) in
    (record sf { inbound_profiles = w.profiles; node_infos = w.infos }, ap (store_work sf) e)
