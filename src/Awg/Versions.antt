-- ===== src/Awg/Versions.antt =====
-- The version of an inbound is a canonical one, and reading it again changes nothing.
use angry_box.Prelude.{
  ◌≡◌, refl, String, Bool, true, false, ◌||◌, inl, inr, arith, ◌=s◌, Bool-cases,
}
use angry_box.Awg.{
  effective_awg_version, is_known_awg_version, is_awg3_family, awg_version_order,
  awg_version_at_least, awg_version_1x, awg_version_2, awg_version_3, awg_version_31,
}

pub effective-effective :
    (mode : Bool) (v : String)
    → effective_awg_version false (effective_awg_version mode v) ≡ effective_awg_version mode v
unfolding effective_awg_version
effective-effective mode v = elim (Bool-cases (v =s awg_version_31)) [
  | inl is_31 ↦ rw is_31 refl
  | inr not_31 ↦ elim (Bool-cases (mode || v =s awg_version_3)) [
    | inl is_3 ↦ rw (not_31, is_3) refl
    | inr not_3 ↦ elim (Bool-cases (v =s awg_version_1x || v =s awg_version_2)) [
      | inr other ↦ rw (not_31, not_3, other) refl
      | inl older ↦ ground (arith, not_31, not_3, older)
    ]
  ]
]

pub effective-known :
    (mode : Bool) (v : String) → is_known_awg_version (effective_awg_version mode v) ≡ true
unfolding effective_awg_version is_known_awg_version
effective-known mode v = elim (Bool-cases (v =s awg_version_31)) [
  | inl is_31 ↦ rw is_31 refl
  | inr not_31 ↦ elim (Bool-cases (mode || v =s awg_version_3)) [
    | inl is_3 ↦ rw (not_31, is_3) refl
    | inr not_3 ↦ elim (Bool-cases (v =s awg_version_1x || v =s awg_version_2)) [
      | inr other ↦ rw (not_31, not_3, other) refl
      | inl older ↦ ground (arith, not_31, not_3, older)
    ]
  ]
]

-- The two tests for the third version agree on every text.
pub at_least-family : (v : String) → awg_version_at_least v awg_version_3 ≡ is_awg3_family v
unfolding effective_awg_version awg_version_at_least awg_version_order is_awg3_family
at_least-family v = elim (Bool-cases (v =s awg_version_31)) [
  | inl is_31 ↦ rw is_31 refl
  | inr not_31 ↦ elim (Bool-cases (v =s awg_version_3)) [
    | inl is_3 ↦ rw (not_31, is_3) refl
    | inr not_3 ↦ elim (Bool-cases (v =s awg_version_1x || v =s awg_version_2)) [
      | inr other ↦ rw (not_31, not_3, other) refl
      | inl older ↦ ground (arith, not_31, not_3, older)
    ]
  ]
]
