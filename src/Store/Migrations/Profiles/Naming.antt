-- ===== src/Store/Migrations/Profiles/Naming.antt =====
-- Identifiers of migrated profiles: the search for a free one ends with one that is not in use.
use text.Mathlib.TextLemmas.{append_cancel_left}
use angry_box.Prelude.{
  ℕ, suc, ◌≡◌, refl, String, false, List, some, ◌=s◌, =s_iff, length, arith, Bool-cases, inl, inr,
}
use angry_box.Prelude.Decimal.{decimal, decimal_inj, ◌+s◌}
use angry_box.Prelude.Free.{first_free-some, first_free-found}
use angry_box.Store.Migrations.Profiles.{is_used, candidate, unique_migration_profile_id}

candidate_inj : (base : String) (i j : ℕ) → candidate base i ≡ candidate base j → i ≡ j
candidate_inj base i j e = decimal_inj i j (
    append_cancel_left "-" (decimal i) (decimal j)
      (append_cancel_left base ("-" +s decimal i) ("-" +s decimal j) e))

-- The loop of `uniqueMigrationProfileID` ends, and the identifier it gives is not in use.
pub unique_migration_profile_id-fresh :
    (used : List String) (base : String)
    → (id : String) × (unique_migration_profile_id used base ≡ some id) × (is_used used id ≡ false)
unfolding unique_migration_profile_id
unique_migration_profile_id-fresh used base = elim (Bool-cases (is_used used base)) [
  | inr free ↦ (base, rw free refl, free)
  | inl busy ↦
      let (i, found) =
        first_free-found (λ a b. a =s b) =s_iff (candidate base) (suc (length used)) 2 used
          (λ i j less bound e. let eq = candidate_inj base i j e in omega (arith, less, eq))
          (omega arith) in
      let (low, high, free) =
        first_free-some (suc (length used)) (λ j. is_used used (candidate base j)) 2 i found in
      (candidate base i, rw (busy, found) refl, free)
]
