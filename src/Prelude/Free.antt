-- ===== src/Prelude/Free.antt =====
-- Searching for the first free number: the loops that count up until a test fails, and how far they go.
use Prim.Native.Nat.{ℕ, zero, suc, ◌+◌, ◌≤◌, ◌<◌}
use mathlib.Core.Path.{◌≡◌, refl, ap, sym, ◌∙◌}
use mathlib.Core.Logic.{◌↔◌, inl, inr, ◌≢◌}
use mathlib.Core.Bool.{Bool, true, false}
use mathlib.Core.List.{List, [], ◌∷◌}
use mathlib.Core.Option.{Option, none, some}
use native.Mathlib.Omega.{arith}
use angry_box.Prelude.Tests.{if◌then◌else◌, Bool-cases}
use angry_box.Prelude.Lists.{length, any}

-- The first number from `k` on that is not occupied; `none` where the rounds run out.
abbrev pub first_free : ℕ → (ℕ → Bool) → ℕ → Option ℕ
first_free zero occupied k = none
first_free (suc rounds) occupied k =
    let later = first_free rounds occupied (suc k) in if occupied k then later else some k

pub first_free-some :
    (rounds : ℕ) (occupied : ℕ → Bool) (k r : ℕ)
    → first_free rounds occupied k ≡ some r
    → (k ≤ r) × (r < k + rounds) × (occupied r ≡ false)
first_free-some zero occupied k r h = absurd (cc)
first_free-some (suc rounds) occupied k r h = elim (Bool-cases (occupied k)) [
  | inl busy ↦
      let (le, lt, free) = first_free-some rounds occupied (suc k) r (rw busy at h) in
      (omega (arith, le), omega (arith, lt), free)
  | inr free ↦
      let e : k ≡ r = ground (arith, free, h) in
      (omega (arith, e), omega (arith, e), ap occupied (sym e) ∙ free)
]

-- All numbers before the one found are occupied.
pub first_free-before :
    (rounds : ℕ) (occupied : ℕ → Bool) (k r i : ℕ)
    → first_free rounds occupied k ≡ some r
    → k ≤ i
    → i < r
    → occupied i ≡ true
first_free-before zero occupied k r i h le lt = absurd (cc)
first_free-before (suc rounds) occupied k r i h le lt = elim (Bool-cases (occupied k)) [
  | inl busy ↦
      ground
        (arith, busy, first_free-before rounds occupied (suc k) r i (rw busy at h), ap occupied)
  | inr free ↦ absurd (let e : k ≡ r = ground (arith, free, h) in omega (arith, e, le, lt))
]

pub first_free-none :
    (rounds : ℕ) (occupied : ℕ → Bool) (k i : ℕ)
    → first_free rounds occupied k ≡ none
    → k ≤ i
    → i < k + rounds
    → occupied i ≡ true
first_free-none zero occupied k i h le lt = absurd (omega (arith, le, lt))
first_free-none (suc rounds) occupied k i h le lt = elim (Bool-cases (occupied k)) [
  | inl busy ↦
      ground (arith, busy, first_free-none rounds occupied (suc k) i (rw busy at h), ap occupied)
  | inr free ↦ absurd (ground (arith, free, h))
]

module _ {A : Type 0} (same : A → A → Bool)
    (same_iff : (a b : A) → (same a b ≡ true) ↔ (a ≡ b)) where
  -- The list without the first element that equals `a`.
  abbrev drop_one : A → List A → List A
  drop_one a [] = []
  drop_one a (x ∷ xs) = if same a x then xs else x ∷ drop_one a xs

  length-drop_one :
      (a : A) (xs : List A) → any (same a) xs ≡ true → length xs ≡ suc (length (drop_one a xs))
  length-drop_one a [] h = absurd (cc)
  length-drop_one a (x ∷ xs) h = ground (arith, h, length-drop_one a xs)

  any-drop_one :
      (a b : A) (xs : List A) → a ≢ b → any (same b) xs ≡ true → any (same b) (drop_one a xs) ≡ true
  any-drop_one a b [] ne h = absurd (cc)
  any-drop_one a b (x ∷ xs) ne h =
      ground (arith, h, ne, same_iff a x, same_iff b x, any-drop_one a b xs ne)

  -- A row of different values, all of which stand in a list, is no longer than the list.
  pub pigeonhole :
      (f : ℕ → A) (n k : ℕ) (xs : List A)
      → ((i j : ℕ) → i < j → j < k + n → f i ≢ f j)
      → ((i : ℕ) → k ≤ i → i < k + n → any (same (f i)) xs ≡ true)
      → n ≤ length xs
  pigeonhole f zero k xs inj h = omega arith
  pigeonhole f (suc n) k xs inj h =
      let here = h k (omega arith) (omega arith) in
      let shorter = length-drop_one (f k) xs here in
      let rest =
        pigeonhole f n (suc k) (drop_one (f k) xs) (λ i j lt le. inj i j lt (omega (arith, le)))
          (λ i le lt.
            any-drop_one (f k) (f i) xs (inj k i (omega (arith, le)) (omega (arith, lt)))
              (h i (omega (arith, le)) (omega (arith, lt)))) in
      omega (arith, shorter, rest)

  -- With more rounds than there are taken values the search succeeds.
  pub first_free-found :
      (f : ℕ → A) (rounds k : ℕ) (taken : List A)
      → ((i j : ℕ) → i < j → j < k + rounds → f i ≢ f j)
      → length taken < rounds
      → (r : ℕ) × (first_free rounds (λ i. any (same (f i)) taken) k ≡ some r)
  first_free-found f rounds k taken inj lt =
      go (first_free rounds (λ i. any (same (f i)) taken) k) refl
    where
      go :
          (o : Option ℕ)
          → first_free rounds (λ i. any (same (f i)) taken) k ≡ o
          → (r : ℕ) × (first_free rounds (λ i. any (same (f i)) taken) k ≡ some r)
      go (some r) e = (r, e)
      go none e = absurd (
          let all =
            pigeonhole f rounds k taken inj
              (λ i le lt'. first_free-none rounds (λ i. any (same (f i)) taken) k i e le lt') in
          omega (arith, all, lt))
