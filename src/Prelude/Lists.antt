-- ===== src/Prelude/Lists.antt =====
-- Lists measured by native numbers, predicates over lists, and membership by recursion.
use Prim.Native.Nat.{ℕ, zero, suc, ◌+◌, ◌≤◌}
use mathlib.Core.Path.{◌≡◌, refl, ap}
use mathlib.Core.Logic.{◌⊎◌, inl, inr}
use mathlib.Core.Bool.{Bool, true, false}
use mathlib.Core.List.{List, [], ◌∷◌, ◌++◌, map}
use mathlib.Core.Option.{Option, none, some}
use native.Mathlib.Omega.{arith}
use angry_box.Prelude.Tests.{if◌then◌else◌}

module _ {ℓ} {A : Type ℓ} where
  abbrev pub length : List A → ℕ
  length [] = 0
  length (x ∷ xs) = suc (length xs)

  -- `len(xs) == 0`
  abbrev pub is_empty : List A → Bool
  is_empty [] = true
  is_empty (x ∷ xs) = false

  abbrev pub take : ℕ → List A → List A
  take zero xs = []
  take (suc n) [] = []
  take (suc n) (x ∷ xs) = x ∷ take n xs

  abbrev pub drop : ℕ → List A → List A
  drop zero xs = xs
  drop (suc n) [] = []
  drop (suc n) (x ∷ xs) = drop n xs

  abbrev pub get_elem? : List A → ℕ → Option A
  get_elem? [] i = none
  get_elem? (x ∷ xs) zero = some x
  get_elem? (x ∷ xs) (suc i) = get_elem? xs i

  abbrev pub or_else : Option A → Option A → Option A
  or_else none p = p
  or_else (some a) p = some a

  -- `for _, x := range xs { if test(x) { out = append(out, x) } }`
  abbrev pub keep : (A → Bool) → List A → List A
  keep test [] = []
  keep test (x ∷ xs) = if test x then x ∷ keep test xs else keep test xs

  abbrev pub any : (A → Bool) → List A → Bool
  any test [] = false
  any test (x ∷ xs) = if test x then true else any test xs

  -- The first element that passes the test.
  abbrev pub first : (A → Bool) → List A → Option A
  first test [] = none
  first test (x ∷ xs) = if test x then some x else first test xs

-- `a` stands in the list.
abbrev pub In : {A : Type 0} → A → List A → Type 0
In a [] = ⊥
In a (x ∷ xs) = (a ≡ x) ⊎ In a xs

module _ {ℓ m} {A : Type ℓ} {B : Type m} where
  pub length-map : (f : A → B) (xs : List A) → length (map f xs) ≡ length xs
  length-map f [] = refl
  length-map f (x ∷ xs) = ap suc (length-map f xs)

module _ {ℓ} {A : Type ℓ} where
  pub length-append : (xs ys : List A) → length (xs ++ ys) ≡ length xs + length ys
  length-append [] ys = omega arith
  length-append (x ∷ xs) ys = omega (arith, length-append xs ys)

  pub length-keep-le : (test : A → Bool) (xs : List A) → length (keep test xs) ≤ length xs
  length-keep-le test [] = omega arith
  length-keep-le test (x ∷ xs) = ground (arith, length-keep-le test xs)

  pub keep-keep : (test : A → Bool) (xs : List A) → keep test (keep test xs) ≡ keep test xs
  keep-keep test [] = refl
  keep-keep test (x ∷ xs) = ground (arith, keep-keep test xs)

  pub keep-append :
      (test : A → Bool) (xs ys : List A) → keep test (xs ++ ys) ≡ keep test xs ++ keep test ys
  keep-append test [] ys = refl
  keep-append test (x ∷ xs) ys = ground (arith, keep-append test xs ys)

module _ {A : Type 0} where
  pub In-append_left : (a : A) (xs ys : List A) → In a xs → In a (xs ++ ys)
  In-append_left a [] ys h = elim h [ ]
  In-append_left a (x ∷ xs) ys (inl e) = inl e
  In-append_left a (x ∷ xs) ys (inr h) = inr (In-append_left a xs ys h)

  pub In-append_right : (a : A) (xs ys : List A) → In a ys → In a (xs ++ ys)
  In-append_right a [] ys h = h
  In-append_right a (x ∷ xs) ys h = inr (In-append_right a xs ys h)

-- A predicate by recursion computes to tuples, which the tactics read and build.
abbrev pub All {ℓ κ} : {A : Type ℓ} → (A → Type κ) → List A → Type κ
All P [] = Unit
All P (x ∷ xs) = P x × All P xs

module _ {ℓ κ} {A : Type ℓ} (P : A → Type κ) where
  pub All-append : (xs ys : List A) → All P xs → All P ys → All P (xs ++ ys)
  All-append [] ys h k = k
  All-append (x ∷ xs) ys (p, h) k = (p, All-append xs ys h k)

  pub All-keep : (test : A → Bool) (xs : List A) → All P xs → All P (keep test xs)
  All-keep test [] h = tt
  All-keep test (x ∷ xs) (p, h) =
      elim (test x) as (λ b. All P (if b then x ∷ keep test xs else keep test xs)) [
        | true ↦ (p, All-keep test xs h)
        | false ↦ All-keep test xs h
      ]

  pub All-of_keep :
      (test : A → Bool) (xs : List A) → ((x : A) → test x ≡ true → P x) → All P (keep test xs)
  All-of_keep test [] h = tt
  All-of_keep test (x ∷ xs) h =
      (elim (test x)
          as (λ b. ((test x ≡ b) → All P (if b then x ∷ keep test xs else keep test xs))) [
            | true ↦ λ e. (h x e, All-of_keep test xs h)
            | false ↦ λ e. All-of_keep test xs h
          ])
        refl
