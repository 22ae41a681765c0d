-- ===== src/Store/Migrations/Once/Current.antt =====
-- What `migrateOnce` leaves on the disk.
use angry_box.Prelude.{
  ℕ, zero, suc, ◌≤◌, ◌≡◌, refl, ap, sym, ◌∙◌, true, false, some, ltb, lt→ltb, ltb→lt, arith,
  Bool-cases, inl, inr, Bool,
}
use angry_box.Model.Base.{Time}
use angry_box.Store.{
  StoreFile, Content, holds, absent, unreadable, Disk, bump, current_schema_version,
}
use angry_box.Store.Nodes.{hosted}
use angry_box.Store.Migrations.{purge_orphans, purge_orphans-hosted}
use angry_box.Store.Migrations.Levels.{migrate_chains}
use angry_box.Store.Migrations.Profiles.Linking.{migrate_standalone-ends}
use angry_box.Store.Migrations.Once.{
  with_chains, migrate_inbound_profiles, migrate_mtproxy_users, and_run, run_migrations,
  write_migrated, migrate_content, migrate_once,
}

-- The file after the last step.
abbrev final : StoreFile → StoreFile
final sf = record (purge_orphans sf) { schema_version = 3 }

run-two :
    (now : Time) (rounds : ℕ) (sf : StoreFile)
    → run_migrations now (suc rounds) 2 sf ≡ some (final sf)
run-two now zero sf = refl
run-two now (suc rounds) sf = refl

migrate_inbound_profiles-ends :
    (now : Time) (sf : StoreFile) → (sf' : StoreFile) × (migrate_inbound_profiles now sf ≡ some sf')
unfolding migrate_inbound_profiles
migrate_inbound_profiles-ends now sf =
    let (sf', e) = migrate_standalone-ends now sf in
    let r = migrate_chains now sf'.chains sf' in
    (record r.1 { chains = r.0 }, ap (with_chains now) e)

run-one :
    (now : Time) (rounds : ℕ) (sf : StoreFile)
    → (g : StoreFile) × (run_migrations now (suc (suc rounds)) 1 sf ≡ some (final g))
run-one now rounds sf =
    let (sf', e) = migrate_inbound_profiles-ends now sf in
    (
      record sf' { schema_version = 2 },
      ap
            (and_run (λ (s : StoreFile).
              run_migrations now (suc rounds) 2 (record s { schema_version = 2 })))
            e
          ∙ run-two now rounds (record sf' { schema_version = 2 }),
    )

run-three :
    (now : Time) (v : ℕ) (sf : StoreFile)
    → v ≤ 2
    → (g : StoreFile) × (run_migrations now current_schema_version v sf ≡ some (final g))
run-three now zero sf h = run-one now 0 (record (migrate_mtproxy_users sf) { schema_version = 1 })
run-three now (suc zero) sf h = run-one now 1 sf
run-three now (suc (suc zero)) sf h = (sf, run-two now 2 sf)
run-three now (suc (suc (suc v))) sf h = absurd (omega (arith, h))

migrate_content-old :
    (now : Time) (d : Disk) (sf : StoreFile)
    → ltb sf.schema_version current_schema_version ≡ true
    → (g : StoreFile) × (migrate_content now d (holds sf) ≡ write_migrated d (some (final g)))
migrate_content-old now d sf old =
    let (g, e) =
      run-three now sf.schema_version sf
        (let lt = ltb→lt sf.schema_version 3 old in omega (arith, lt)) in
    (g, stepped now d sf old ∙ ap (write_migrated d) e)
  where
    stepped :
        (now : Time) (d : Disk) (sf : StoreFile)
        → ltb sf.schema_version current_schema_version ≡ true
        → migrate_content now d (holds sf)
          ≡ write_migrated d (run_migrations now current_schema_version sf.schema_version sf)
    stepped now d sf old = rw old refl

write_migrated-content :
    (d : Disk) (sf : StoreFile)
    → d.writable (bump sf) ≡ true
    → (write_migrated d (some sf)).content ≡ holds (bump sf)
write_migrated-content d sf h = rw (h, write_migrated) refl

-- A store of an older schema that can be written is brought to schema 3, and the file on the disk then has
-- no node record without a host.
pub migrate_once-current :
    (now : Time) (d : Disk) (sf : StoreFile)
    → d.content ≡ holds sf
    → sf.schema_version ≤ 2
    → ((f : StoreFile) → d.writable f ≡ true)
    → (sf' : StoreFile) × ((migrate_once now d).content ≡ holds sf')
      × (sf'.schema_version ≡ 3)
      × (sf'.node_infos ≡ hosted sf')
unfolding migrate_once
migrate_once-current now d sf there old writable =
    let (g, e) = migrate_content-old now d sf (lt→ltb sf.schema_version 3 (omega (arith, old))) in
    let (same, all, rest) = purge_orphans-hosted g in
    (
      bump (final g),
      ap (λ (c : Content). (migrate_content now d c).content) there
          ∙ ap (λ (r : Disk). r.content) e
          ∙ write_migrated-content d (final g) (writable (bump (final g))),
      refl,
      all ∙ sym same,
    )

-- A file of the current schema stays as it is.
settled :
    (now : Time) (d : Disk) (sf : StoreFile)
    → ltb sf.schema_version current_schema_version ≡ false
    → migrate_content now d (holds sf) ≡ d
settled now d sf h = rw h refl

at_content :
    (now : Time) (d : Disk) (o : Content)
    → d.content ≡ o
    → migrate_once now d ≡ migrate_content now d o
unfolding migrate_once
at_content now d o there = ap (migrate_content now d) there

-- What a start that is not the first does, by what the first one left: nothing, where the schema is current.
later_start :
    (now later : Time) (d : Disk) (writes : StoreFile → Bool) (o : Content)
    → d.content ≡ o
    → ((f : StoreFile) → d.writable f ≡ true)
    → (migrate_once later (record (migrate_once now d) { writable = writes })).content
      ≡ (migrate_once now d).content
later_start now later d writes absent there writable =
    let once = at_content now d absent there in
    rw once (
      ap (λ (x : Disk). x.content) (at_content later (record d { writable = writes }) absent there))
later_start now later d writes unreadable there writable =
    let once = at_content now d unreadable there in
    rw once (
      ap (λ (x : Disk). x.content)
        (at_content later (record d { writable = writes }) unreadable there))
later_start now later d writes (holds sf) there writable =
    elim (Bool-cases (ltb sf.schema_version current_schema_version)) [
      | inr current ↦
          let once = at_content now d (holds sf) there ∙ settled now d sf current in
          rw once (
            ap (λ (x : Disk). x.content)
              (at_content later (record d { writable = writes }) (holds sf) there
                ∙ settled later (record d { writable = writes }) sf current))
      | inl old ↦
          let (g, e) = migrate_content-old now d sf old in
          let once = at_content now d (holds sf) there ∙ e in
          let written = record (write_migrated d (some (final g))) { writable = writes } in
          let there' = write_migrated-content d (final g) (writable (bump (final g))) in
          rw once (
            ap (λ (x : Disk). x.content)
              (at_content later written (holds (bump (final g))) there'
                ∙ settled later written (bump (final g)) refl))
    ]

-- After a start whose writes succeed a second start leaves the file as the first one did, whether it could write
-- or not.
pub migrate_once-idempotent :
    (now later : Time) (d : Disk) (writes : StoreFile → Bool)
    → ((f : StoreFile) → d.writable f ≡ true)
    → (migrate_once later (record (migrate_once now d) { writable = writes })).content
      ≡ (migrate_once now d).content
migrate_once-idempotent now later d writes writable =
    later_start now later d writes d.content refl writable
