-- ===== src/Prelude/Keyed.antt =====
-- The store's tables: lists whose rows carry a text key, written by the loops that every handler
-- repeats (replace the first row with the key or append; drop the rows with the key; first match).
use Prim.Native.String.{String}
use mathlib.Core.Path.{◌≡◌, refl, sym}
use mathlib.Core.Logic.{◌↔◌, inl, inr}
use mathlib.Core.Bool.{Bool, true, false, not}
use mathlib.Core.List.{List, [], ◌∷◌}
use mathlib.Core.Option.{Option, none, some}
use native.Mathlib.Omega.{arith}
use angry_box.Prelude.Tests.{◌=s◌, =s_iff, if◌then◌else◌, Bool-cases}
use angry_box.Prelude.Lists.{keep, any, first, All}

module _ {ℓ} {A : Type ℓ} (key : A → String) where
  -- The first row with the key.
  abbrev pub find_by : String → List A → Option A
  find_by k xs = first (λ x. key x =s k) xs

  -- Replace the first row with the key of `a`, or append `a`.
  abbrev pub upsert : A → List A → List A
  upsert a [] = a ∷ []
  upsert a (x ∷ xs) = if key x =s key a then a ∷ xs else x ∷ upsert a xs

  -- Drop every row with the key.
  abbrev pub remove_by : String → List A → List A
  remove_by k xs = keep (λ x. not (key x =s k)) xs

  abbrev pub has_key : String → List A → Bool
  has_key k xs = any (λ x. key x =s k) xs

  -- Drop the first row with the key only.
  abbrev pub remove_first : String → List A → List A
  remove_first k [] = []
  remove_first k (x ∷ xs) = if key x =s k then xs else x ∷ remove_first k xs

  -- No two rows have one key.
  abbrev pub KeysDistinct : List A → Type 0
  KeysDistinct [] = Unit
  KeysDistinct (x ∷ xs) = (has_key (key x) xs ≡ false) × KeysDistinct xs

module _ {ℓ} {A : Type ℓ} (key : A → String) where
  -- A lookup after a write sees the written row, and every other key as before.
  pub find_by-upsert :
      (k : String) (a : A) (xs : List A)
      → find_by key k (upsert key a xs) ≡ (if key a =s k then some a else find_by key k xs)
  find_by-upsert k a [] = refl
  find_by-upsert k a (x ∷ xs) =
      ground
        (arith, =s_iff (key a) k, =s_iff (key x) k, =s_iff (key x) (key a), find_by-upsert k a xs)

  pub find_by-remove_by :
      (k j : String) (xs : List A)
      → find_by key k (remove_by key j xs) ≡ (if j =s k then none else find_by key k xs)
  find_by-remove_by k j [] = ground arith
  find_by-remove_by k j (x ∷ xs) =
      ground (arith, =s_iff (key x) j, =s_iff (key x) k, =s_iff j k, find_by-remove_by k j xs)

  pub has_key-find_by :
      (k : String) (xs : List A) → (has_key key k xs ≡ false) ↔ (find_by key k xs ≡ none)
  has_key-find_by k [] = ground arith
  has_key-find_by k (x ∷ xs) = ground (arith, has_key-find_by k xs)

  pub has_key-upsert :
      (k : String) (a : A) (xs : List A)
      → has_key key k (upsert key a xs) ≡ (if key a =s k then true else has_key key k xs)
  has_key-upsert k a [] = ground arith
  has_key-upsert k a (x ∷ xs) =
      ground
        (arith, =s_iff (key a) k, =s_iff (key x) k, =s_iff (key x) (key a), has_key-upsert k a xs)

  pub has_key-remove_by :
      (k j : String) (xs : List A)
      → has_key key k (remove_by key j xs) ≡ (if j =s k then false else has_key key k xs)
  has_key-remove_by k j [] = ground arith
  has_key-remove_by k j (x ∷ xs) =
      ground (arith, =s_iff (key x) j, =s_iff (key x) k, =s_iff j k, has_key-remove_by k j xs)

  pub upsert-KeysDistinct :
      (a : A) (xs : List A) → KeysDistinct key xs → KeysDistinct key (upsert key a xs)
  upsert-KeysDistinct a [] h = (refl, tt)
  upsert-KeysDistinct a (x ∷ xs) (p, h) = elim (Bool-cases (key x =s key a)) [
    | inl same ↦ rw same (rw ((=s_iff (key x) (key a)).0 same) at p, h)
    | inr other ↦ rw other (
      rw (has_key-upsert (key x) a xs)
          (ground (arith, =s_iff (key a) (key x), =s_iff (key x) (key a))),
      upsert-KeysDistinct a xs h,
    )
  ]

  pub remove_by-KeysDistinct :
      (k : String) (xs : List A) → KeysDistinct key xs → KeysDistinct key (remove_by key k xs)
  remove_by-KeysDistinct k [] h = tt
  remove_by-KeysDistinct k (x ∷ xs) (p, h) = elim (Bool-cases (key x =s k)) [
    | inl same ↦ rw same (remove_by-KeysDistinct k xs h)
    | inr other ↦
        rw other (rw (has_key-remove_by (key x) k xs) (ground arith), remove_by-KeysDistinct k xs h)
  ]

  has_key-remove_first :
      (k j : String) (xs : List A)
      → has_key key k xs ≡ false
      → has_key key k (remove_first key j xs) ≡ false
  has_key-remove_first k j [] h = refl
  has_key-remove_first k j (x ∷ xs) h = ground (arith, has_key-remove_first k j xs)

  pub remove_first-KeysDistinct :
      (k : String) (xs : List A) → KeysDistinct key xs → KeysDistinct key (remove_first key k xs)
  remove_first-KeysDistinct k [] h = tt
  remove_first-KeysDistinct k (x ∷ xs) (p, h) = elim (Bool-cases (key x =s k)) [
    | inl same ↦ rw same h
    | inr other ↦ rw other (has_key-remove_first (key x) k xs p, remove_first-KeysDistinct k xs h)
  ]

  -- Among distinct keys, dropping the first row with a key drops them all.
  pub remove_first-remove_by :
      (k : String) (xs : List A) → KeysDistinct key xs → remove_first key k xs ≡ remove_by key k xs
  remove_first-remove_by k [] h = refl
  remove_first-remove_by k (x ∷ xs) (p, h) = elim (Bool-cases (key x =s k)) [
    | inl same ↦ rw same (sym (remove_by_absent k xs (rw ((=s_iff (key x) k).0 same) at p)))
    | inr other ↦ rw other (rw (remove_first-remove_by k xs h))
  ]
    where
      remove_by_absent :
          (k : String) (xs : List A) → has_key key k xs ≡ false → remove_by key k xs ≡ xs
      remove_by_absent k [] q = refl
      remove_by_absent k (y ∷ ys) q = ground (arith, remove_by_absent k ys)

module _ {ℓ κ} {A : Type ℓ} (P : A → Type κ) (key : A → String) where
  pub All-upsert : (a : A) (xs : List A) → P a → All P xs → All P (upsert key a xs)
  All-upsert a [] p h = (p, tt)
  All-upsert a (x ∷ xs) p (q, h) =
      elim (key x =s key a) as (λ b. All P (if b then a ∷ xs else x ∷ upsert key a xs)) [
        | true ↦ (p, h)
        | false ↦ (q, All-upsert a xs p h)
      ]
