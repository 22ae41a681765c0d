-- ===== src/Store/Migrations/Profiles.antt =====
-- The first half of internal/chain/migrate_v2.go, the step from schema 1 to 2: standalone inbounds with the
-- same protocol, port and obfuscation become one profile, and each is marked with it. The log and the audit
-- entries are left out; `now` is `timeNow()`.
pub mod Naming
pub mod Marking
pub mod Groups
pub mod Keys
pub mod Linking
pub mod Fields
use angry_box.Prelude.{
  ℕ, suc, ◌+◌, ◌≡◌, String, Bool, true, false, not, ◌&&◌, ◌||◌, List, [], ◌∷◌, ◌++◌, map, Option,
  none, some, ◌=s◌, ◌==◌, ltb, if◌then◌else◌, any, first, length,
}
use angry_box.Prelude.Decimal.{decimal, ◌+s◌}
use angry_box.Prelude.Text.{to_lower, to_upper, map_chars, swap_char}
use angry_box.Prelude.Free.{first_free}
use angry_box.Model.Base.{Time}
use angry_box.Model.Chain.{InboundProfile}
use angry_box.Model.Panel.{NodeInbound, NodeInfo}
use angry_box.Store.{StoreFile}

-- `migrationProfileIDBase`
unfoldable pub migration_profile_id_base : String → ℕ → String
migration_profile_id_base protocol port =
    let p = map_chars (swap_char "/_ " "---") (to_lower protocol) in
    if ltb 0 port then "prof-" +s p +s "-" +s decimal port else "prof-" +s p

abbrev pub is_used : List String → String → Bool
is_used used id = any (λ u. id =s u) used

-- `fmt.Sprintf("%s-%d", base, i)`
abbrev pub candidate : String → ℕ → String
candidate base i = base +s "-" +s decimal i

abbrev pub candidate_of : String → Option ℕ → Option String
candidate_of base none = none
candidate_of base (some i) = some (candidate base i)

-- `uniqueMigrationProfileID`, less the mark in `used`. The loop has no bound; one round more than there are
-- identifiers in use suffices (`unique_migration_profile_id-fresh`).
unfoldable pub unique_migration_profile_id : List String → String → Option String
unique_migration_profile_id used base =
    if not (is_used used base)
    then some base
    else candidate_of base (first_free (suc (length used)) (λ i. is_used used (candidate base i)) 2)

-- The inbounds of the first loop: without a profile, and not made by a chain.
unfoldable pub is_standalone : NodeInbound → Bool
is_standalone ib =
    if not (ib.profile_id =s "") then false else ib.source =s "" || ib.source =s "standalone"

-- `fmt.Sprintf("%s|%d|%s", ib.Protocol, ib.Port, ib.Obfuscation)`
abbrev pub group_key : String → ℕ → String → String
group_key protocol port obfuscation = protocol +s "|" +s decimal port +s "|" +s obfuscation

abbrev pub key_of : NodeInbound → String
key_of ib = group_key ib.protocol ib.port ib.obfuscation

-- The references of the group of a key.
abbrev pub in_group : String → NodeInbound → Bool
in_group key ib = is_standalone ib && key_of ib =s key

abbrev pub all_inbounds : List NodeInfo → List NodeInbound
all_inbounds [] = []
all_inbounds (ni ∷ nis) = ni.inbounds ++ all_inbounds nis

abbrev pub add_key : List String → String → List String
add_key order key = if any (λ k. key =s k) order then order else order ++ key ∷ []

-- `order`: the keys of the groups, as they are met.
abbrev pub group_keys : List NodeInbound → List String → List String
group_keys [] order = order
group_keys (ib ∷ ibs) order =
    group_keys ibs (if is_standalone ib then add_key order (key_of ib) else order)

-- `r.info.Inbounds[r.idx].ProfileID = pid` for the references of a group.
abbrev pub mark : String → String → NodeInbound → NodeInbound
mark key pid ib = if in_group key ib then record ib { profile_id = pid } else ib

abbrev pub mark_all : String → String → List NodeInfo → List NodeInfo
mark_all key pid nis =
    map (λ (ni : NodeInfo). record ni { inbounds = map (mark key pid) ni.inbounds }) nis

abbrev pub profile_name : NodeInbound → String
profile_name ib =
    if ltb 0 ib.port then to_upper ib.protocol +s " :" +s decimal ib.port else to_upper ib.protocol

-- The profile of a group, from its first inbound.
abbrev pub profile_from : Time → String → NodeInbound → InboundProfile
profile_from now pid ib = record {
  id = pid;
  name = profile_name ib;
  protocol = ib.protocol;
  port = ib.port;
  obfuscation = ib.obfuscation;
  awg_cps_capture_domain = "";
  awg_cps_mimicry = "";
  awg_cps_level = 0;
  awg_cps_i1 = "";
  awg_cps_i2 = "";
  awg_cps_i3 = "";
  awg_cps_i4 = "";
  awg_cps_i5 = "";
  awg_h1 = "";
  awg_h2 = "";
  awg_h3 = "";
  awg_h4 = "";
  awg_cps_captured_domain = "";
  awg_cps_capture_failed_domain = "";
  awg_version = "";
  awg3_mode = false;
  awg3_header_protection_key = "";
  awg3_content_padding_addition = "";
  awg3_rekey_after_time = "";
  mieru_transport = "";
  server_name = "";
  created_at = now;
}

-- What the second loop works on.
pub record Work : Type 0 where
  pub used : List String
  pub profiles : List InboundProfile
  pub infos : List NodeInfo

abbrev pub with_profile : Time → String → NodeInbound → Work → Option String → Option Work
with_profile now key ib w none = none
with_profile now key ib w (some pid) = some (record {
  used = pid ∷ w.used;
  profiles = w.profiles ++ profile_from now pid ib ∷ [];
  infos = mark_all key pid w.infos;
})

abbrev pub with_first : Time → String → Work → Option NodeInbound → Option Work
with_first now key w none = none
with_first now key w (some ib) =
    with_profile now key ib w
      (unique_migration_profile_id w.used (migration_profile_id_base ib.protocol ib.port))

-- The body of the second loop, for the group of a key.
unfoldable pub profile_group : Time → String → Work → Option Work
profile_group now key w = with_first now key w (first (in_group key) (all_inbounds w.infos))

abbrev pub profile_groups : Time → List String → Option Work → Option Work
profile_groups now [] w = w
profile_groups now (key ∷ keys) none = none
profile_groups now (key ∷ keys) (some w) = profile_groups now keys (profile_group now key w)

abbrev pub store_work : StoreFile → Option Work → Option StoreFile
store_work sf none = none
store_work sf (some w) = some (record sf { inbound_profiles = w.profiles; node_infos = w.infos })

-- `migrateStandaloneInboundsToProfiles`; it always gives a file (`migrate_standalone-ends`).
unfoldable pub migrate_standalone : Time → StoreFile → Option StoreFile
migrate_standalone now sf = store_work sf (
    profile_groups now (group_keys (all_inbounds sf.node_infos) []) (
      some (record {
        used = map (λ (p : InboundProfile). p.id) sf.inbound_profiles;
        profiles = sf.inbound_profiles;
        infos = sf.node_infos;
      })))
