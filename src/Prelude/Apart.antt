-- ===== src/Prelude/Apart.antt =====
-- Tables no two of whose rows stand in a symmetric relation, and the writes that keep them so.
use angry_box.Prelude.{
  ◌≡◌, refl, String, Bool, false, List, [], ◌∷◌, arith, ◌=s◌, any, keep, upsert, remove_first,
  Bool-cases, inl, inr,
}

-- No row is related to a later one.
abbrev pub Apart {ℓ} : {A : Type ℓ} → (A → A → Bool) → List A → Type 0
Apart rel [] = Unit
Apart rel (x ∷ xs) = (any (rel x) xs ≡ false) × Apart rel xs

module _ {ℓ} {A : Type ℓ} (key : A → String) where
  pub any-upsert :
      (test : A → Bool) (a : A) (xs : List A)
      → any test xs ≡ false
      → test a ≡ false
      → any test (upsert key a xs) ≡ false
  any-upsert test a [] h p = ground arith
  any-upsert test a (x ∷ xs) h p = ground (arith, any-upsert test a xs)

  any-remove_first :
      (test : A → Bool) (k : String) (xs : List A)
      → any test xs ≡ false
      → any test (remove_first key k xs) ≡ false
  any-remove_first test k [] h = refl
  any-remove_first test k (x ∷ xs) h = ground (arith, any-remove_first test k xs)

module _ {ℓ} {A : Type ℓ} where
  any-keep :
      (test kept : A → Bool) (xs : List A) → any test xs ≡ false → any test (keep kept xs) ≡ false
  any-keep test kept [] h = refl
  any-keep test kept (x ∷ xs) h = ground (arith, any-keep test kept xs)

module _ {ℓ} {A : Type ℓ} (rel : A → A → Bool) where
  pub Apart-keep : (kept : A → Bool) (xs : List A) → Apart rel xs → Apart rel (keep kept xs)
  Apart-keep kept [] h = tt
  Apart-keep kept (x ∷ xs) (p, h) = elim (Bool-cases (kept x)) [
    | inl e ↦ rw e (any-keep (rel x) kept xs p, Apart-keep kept xs h)
    | inr e ↦ rw e (Apart-keep kept xs h)
  ]

module _ {ℓ} {A : Type ℓ} (key : A → String) (rel : A → A → Bool) where
  pub Apart-remove_first :
      (k : String) (xs : List A) → Apart rel xs → Apart rel (remove_first key k xs)
  Apart-remove_first k [] h = tt
  Apart-remove_first k (x ∷ xs) (p, h) = elim (Bool-cases (key x =s k)) [
    | inl e ↦ rw e h
    | inr e ↦ rw e (any-remove_first key (rel x) k xs p, Apart-remove_first k xs h)
  ]

  -- A row that is related to none of the rows after the write.
  pub Apart-upsert :
      (symmetric : (x y : A) → rel x y ≡ rel y x) (a : A) (xs : List A)
      → any (rel a) (upsert key a xs) ≡ false
      → Apart rel xs
      → Apart rel (upsert key a xs)
  Apart-upsert symmetric a [] q h = (refl, tt)
  Apart-upsert symmetric a (x ∷ xs) q (p, h) = elim (Bool-cases (key x =s key a)) [
    | inl e ↦ rw e (let q' : any (rel a) (a ∷ xs) ≡ false = rw e at q in (ground arith, h))
    | inr e ↦ rw e (
        let q' : any (rel a) (x ∷ upsert key a xs) ≡ false = rw e at q in
        (
          any-upsert key (rel x) a xs p (ground (arith, symmetric x a)),
          Apart-upsert symmetric a xs (ground arith) h,
        ))
  ]
