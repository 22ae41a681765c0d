-- ===== src/Store/Migrations/Profiles/Keys.antt =====
-- The key of a group determines protocol, port and obfuscation, where the protocol has no bar.
use Prim.Native.Char.{code}
use text.Mathlib.TextLemmas.{cons-append, nil-append}
use angry_box.Prelude.{
  ℕ, zero, suc, ◌≡◌, refl, sym, ap, ◌∙◌, inl, inr, String, Bool, true, false, Option, none, some,
  arith, ◌==◌, if◌then◌else◌, Bool-cases, ltb, ◌/◌, ◌%◌,
}
use angry_box.Prelude.Decimal.{decimal, decimal_inj, digit, digits, ◌+s◌}
use angry_box.Store.Migrations.Profiles.{group_key}

abbrev pub has_bar : String → Bool
has_bar String.[] = false
has_bar (String.◌∷◌ c s) = let rest = has_bar s in if code c == 124 then true else rest

abbrev cons_part : String → Option (String × String) → Option (String × String)
cons_part c none = none
cons_part c (some (k, v)) = some (c +s k, v)

-- What stands before the first bar, and after it.
abbrev cut_bar : String → Option (String × String)
cut_bar String.[] = none
cut_bar (String.◌∷◌ c s) =
    let rest = cut_bar s in if code c == 124 then some ("", s) else cons_part (String.◌∷◌ c "") rest

cut_bar-append : (k v : String) → has_bar k ≡ false → cut_bar (k +s String.◌∷◌ "|" v) ≡ some (k, v)
cut_bar-append String.[] v h = ap cut_bar (nil-append (String.◌∷◌ "|" v))
cut_bar-append (String.◌∷◌ d k) v h = elim (Bool-cases (code d == 124)) [
  | inl sign ↦ absurd (ground (arith, sign, h))
  | inr other ↦
      ap cut_bar (cons-append d k (String.◌∷◌ "|" v))
      ∙ rw (other, cut_bar-append k v (rw other at h))
          (ap (λ x. some (x, v)) (cons-append d "" k ∙ ap (String.◌∷◌ d) (nil-append k)))
]

bar-append : (v : String) → "|" +s v ≡ String.◌∷◌ "|" v
bar-append v = cons-append "|" "" v ∙ ap (String.◌∷◌ "|") (nil-append v)

-- Texts that are equal with a bar in them have equal parts before the first bar, and after it.
bar_inj :
    (k k' v v' : String)
    → has_bar k ≡ false
    → has_bar k' ≡ false
    → k +s "|" +s v ≡ k' +s "|" +s v'
    → (k ≡ k') × (v ≡ v')
bar_inj k k' v v' h h' e =
    let cut : some (k, v) ≡ some (k', v') =
      sym (cut_bar-append k v h)
      ∙ ap (λ s. cut_bar (k +s s)) (sym (bar-append v))
      ∙ ap cut_bar e
      ∙ ap (λ s. cut_bar (k' +s s)) (bar-append v')
      ∙ cut_bar-append k' v' h' in
    (ap first_part cut, ap second_part cut)
  where
    first_part : Option (String × String) → String
    first_part none = ""
    first_part (some (a, b)) = a

    second_part : Option (String × String) → String
    second_part none = ""
    second_part (some (a, b)) = b

has_bar-append : (s t : String) → has_bar s ≡ false → has_bar t ≡ false → has_bar (s +s t) ≡ false
has_bar-append String.[] t h k = ap has_bar (nil-append t) ∙ k
has_bar-append (String.◌∷◌ c s) t h k = elim (Bool-cases (code c == 124)) [
  | inl sign ↦ absurd (ground (arith, sign, h))
  | inr other ↦ ap has_bar (cons-append c s t) ∙ rw other (has_bar-append s t (rw other at h) k)
]

has_bar-digit : (n : ℕ) → has_bar (digit n) ≡ false
has_bar-digit zero = refl
has_bar-digit (suc zero) = refl
has_bar-digit (suc (suc zero)) = refl
has_bar-digit (suc (suc (suc zero))) = refl
has_bar-digit (suc (suc (suc (suc zero)))) = refl
has_bar-digit (suc (suc (suc (suc (suc zero))))) = refl
has_bar-digit (suc (suc (suc (suc (suc (suc zero)))))) = refl
has_bar-digit (suc (suc (suc (suc (suc (suc (suc zero))))))) = refl
has_bar-digit (suc (suc (suc (suc (suc (suc (suc (suc zero)))))))) = refl
has_bar-digit (suc (suc (suc (suc (suc (suc (suc (suc (suc n))))))))) = refl

has_bar-digits : (r n : ℕ) → has_bar (digits r n) ≡ false
has_bar-digits zero n = refl
has_bar-digits (suc r) n = elim (Bool-cases (ltb n 10)) [
  | inl small ↦ rw small (has_bar-digit n)
  | inr large ↦ rw large (
      has_bar-append (digits r (n / 10)) (digit (n % 10)) (has_bar-digits r (n / 10))
        (has_bar-digit (n % 10)))
]

pub group_key_inj :
    (p p' : String) (n n' : ℕ) (o o' : String)
    → has_bar p ≡ false
    → has_bar p' ≡ false
    → group_key p n o ≡ group_key p' n' o'
    → (p ≡ p') × (n ≡ n') × (o ≡ o')
group_key_inj p p' n n' o o' h h' e =
    let (same, rest) = bar_inj p p' (decimal n +s "|" +s o) (decimal n' +s "|" +s o') h h' e in
    let (number, last) =
      bar_inj (decimal n) (decimal n') o o' (has_bar-digits (suc n) n) (has_bar-digits (suc n') n')
        rest in
    (same, decimal_inj n n' number, last)
