-- ===== src/Store/Migrations/Profiles/Groups.antt =====
-- The keys of the groups: each is there once, and they are the keys of the standalone inbounds.
use angry_box.Prelude.{
  ◌≡◌, refl, ap, ◌∙◌, String, Bool, true, false, List, [], ◌∷◌, ◌++◌, ◌=s◌, =s_iff, any, arith,
  Bool-cases, inl, inr, if◌then◌else◌,
}
use angry_box.Prelude.Apart.{Apart}
use angry_box.Model.Panel.{NodeInbound}
use angry_box.Store.Migrations.Profiles.{is_standalone, key_of, in_group, add_key, group_keys}

abbrev pub is_key : String → List String → Bool
is_key k keys = any (λ q. k =s q) keys

is_key-append :
    (k q : String) (keys : List String)
    → is_key k (keys ++ q ∷ []) ≡ (if is_key k keys then true else k =s q)
is_key-append k q [] = ground arith
is_key-append k q (x ∷ keys) = ground (arith, is_key-append k q keys)

Apart-append :
    (q : String) (keys : List String)
    → Apart (λ a b. a =s b) keys
    → is_key q keys ≡ false
    → Apart (λ a b. a =s b) (keys ++ q ∷ [])
Apart-append q [] h absent = (refl, tt)
Apart-append q (x ∷ keys) (p, h) absent = (
  is_key-append x q keys ∙ ground (arith, p, absent, =s_iff x q, =s_iff q x),
  Apart-append q keys h (ground (arith, absent)),
)

Apart-add_key :
    (order : List String) (q : String)
    → Apart (λ a b. a =s b) order
    → Apart (λ a b. a =s b) (add_key order q)
Apart-add_key order q h = elim (Bool-cases (is_key q order)) [
  | inl there ↦ rw there h
  | inr absent ↦ rw absent (Apart-append q order h absent)
]

is_key-add_key :
    (k q : String) (order : List String)
    → is_key k (add_key order q) ≡ (if is_key k order then true else k =s q)
is_key-add_key k q order = elim (Bool-cases (is_key q order)) [
  | inl there ↦ rw there (elim (Bool-cases (k =s q)) [
    | inr other ↦ ground (arith, other)
    | inl same ↦ ground (arith, same, ap (λ x. is_key x order) ((=s_iff k q).0 same), there)
  ])
  | inr absent ↦ rw absent (is_key-append k q order)
]

pub Apart-group_keys :
    (ibs : List NodeInbound) (order : List String)
    → Apart (λ a b. a =s b) order
    → Apart (λ a b. a =s b) (group_keys ibs order)
Apart-group_keys [] order h = h
Apart-group_keys (ib ∷ ibs) order h = elim (Bool-cases (is_standalone ib)) [
  | inl standalone ↦
      rw standalone
        (Apart-group_keys ibs (add_key order (key_of ib)) (Apart-add_key order (key_of ib) h))
  | inr other ↦ rw other (Apart-group_keys ibs order h)
]

-- The keys are those that were there and those of the standalone inbounds.
pub is_key-group_keys :
    (k : String) (ibs : List NodeInbound) (order : List String)
    → is_key k (group_keys ibs order) ≡ (if is_key k order then true else any (in_group k) ibs)
is_key-group_keys k [] order = ground arith
is_key-group_keys k (ib ∷ ibs) order = elim (Bool-cases (is_standalone ib)) [
  | inl standalone ↦ rw standalone (
      is_key-group_keys k ibs (add_key order (key_of ib))
      ∙ ground
          (arith, is_key-add_key k (key_of ib) order, =s_iff k (key_of ib), =s_iff (key_of ib) k))
  | inr other ↦ rw other (is_key-group_keys k ibs order)
]
