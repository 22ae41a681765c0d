-- ===== src/Prelude/Decimal.antt =====
-- Decimal notation: what `%d` prints of a number that is not negative, and that it tells numbers apart.
use Prim.Native.Nat.{ℕ, zero, suc, ◌-◌, ◌/◌, ◌%◌, ◌<◌}
use Prim.Native.Char.{code}
use Prim.Native.String
use Prim.Native.String.{String, count}
use mathlib.Core.Path.{◌≡◌, refl, ap, sym, ◌∙◌}
use mathlib.Core.Bool.{true, false}
use mathlib.Core.Logic.{◌≢◌, inl, inr}
use native.Mathlib.Omega.{arith}
use text.Mathlib.TextLemmas.{length-append, append_inj}
use angry_box.Prelude.Tests.{if◌then◌else◌, ltb, ltb→lt, ltb→le, Bool-cases}

-- Go's `+` on strings.
infixr 60 ◌+s◌
abbrev pub ◌+s◌ : String → String → String
s +s t = String.◌++◌ s t

abbrev pub digit : ℕ → String
digit zero = "0"
digit (suc zero) = "1"
digit (suc (suc zero)) = "2"
digit (suc (suc (suc zero))) = "3"
digit (suc (suc (suc (suc zero)))) = "4"
digit (suc (suc (suc (suc (suc zero))))) = "5"
digit (suc (suc (suc (suc (suc (suc zero)))))) = "6"
digit (suc (suc (suc (suc (suc (suc (suc zero))))))) = "7"
digit (suc (suc (suc (suc (suc (suc (suc (suc zero)))))))) = "8"
digit (suc (suc (suc (suc (suc (suc (suc (suc (suc n))))))))) = "9"

count-digit : (n : ℕ) → count (digit n) ≡ 1
count-digit zero = refl
count-digit (suc zero) = refl
count-digit (suc (suc zero)) = refl
count-digit (suc (suc (suc zero))) = refl
count-digit (suc (suc (suc (suc zero)))) = refl
count-digit (suc (suc (suc (suc (suc zero))))) = refl
count-digit (suc (suc (suc (suc (suc (suc zero)))))) = refl
count-digit (suc (suc (suc (suc (suc (suc (suc zero))))))) = refl
count-digit (suc (suc (suc (suc (suc (suc (suc (suc zero)))))))) = refl
count-digit (suc (suc (suc (suc (suc (suc (suc (suc (suc n))))))))) = refl

-- The value of a text of one digit.
abbrev digit_value : String → ℕ
digit_value String.[] = 0
digit_value (String.◌∷◌ c s) = code c - 48

digit_value-digit : (n : ℕ) → n < 10 → digit_value (digit n) ≡ n
digit_value-digit zero h = refl
digit_value-digit (suc zero) h = refl
digit_value-digit (suc (suc zero)) h = refl
digit_value-digit (suc (suc (suc zero))) h = refl
digit_value-digit (suc (suc (suc (suc zero)))) h = refl
digit_value-digit (suc (suc (suc (suc (suc zero))))) h = refl
digit_value-digit (suc (suc (suc (suc (suc (suc zero)))))) h = refl
digit_value-digit (suc (suc (suc (suc (suc (suc (suc zero))))))) h = refl
digit_value-digit (suc (suc (suc (suc (suc (suc (suc (suc zero)))))))) h = refl
digit_value-digit (suc (suc (suc (suc (suc (suc (suc (suc (suc zero))))))))) h = refl
digit_value-digit (suc (suc (suc (suc (suc (suc (suc (suc (suc (suc n)))))))))) h =
    absurd (omega (arith, h))

-- The digits, with a number of rounds that is at least the number of digits.
abbrev pub digits : ℕ → ℕ → String
digits zero n = ""
digits (suc rounds) n =
    let more = digits rounds (n / 10) in if ltb n 10 then digit n else more +s digit (n % 10)

-- `fmt.Sprintf("%d", n)`; a number has at most as many digits as its value and one.
abbrev pub decimal : ℕ → String
decimal n = digits (suc n) n

count-digits_pos : (r a : ℕ) → a < r → 0 < count (digits r a)
count-digits_pos zero a h = absurd (omega (arith, h))
count-digits_pos (suc r) a h = elim (Bool-cases (ltb a 10)) [
  | inl small ↦ rw (small, count-digit a) (omega arith)
  | inr large ↦
      rw (large, length-append (digits r (a / 10)) (digit (a % 10)), count-digit (a % 10))
        (omega arith)
]

-- The last digit and the digits before it.
digits-more : (r a : ℕ) → ltb a 10 ≡ false → digits (suc r) a ≡ digits r (a / 10) +s digit (a % 10)
digits-more r a h = rw h refl

digits-one : (r a : ℕ) → ltb a 10 ≡ true → digits (suc r) a ≡ digit a
digits-one r a h = rw h refl

count-digits_more : (r a : ℕ) → ltb a 10 ≡ false → a < suc r → count (digits (suc r) a) ≢ 1
count-digits_more r a h lt =
    let pos = count-digits_pos r (a / 10) (let ge = ltb→le a 10 h in omega (arith, ge, lt)) in
    let sum = length-append (digits r (a / 10)) (digit (a % 10)) in
    let one = count-digit (a % 10) in rw (digits-more r a h) (λ e. omega (arith, e, sum, one, pos))

digits_inj : (r s a b : ℕ) → a < r → b < s → digits r a ≡ digits s b → a ≡ b
digits_inj zero s a b p q h = absurd (omega (arith, p))
digits_inj (suc r) zero a b p q h = absurd (omega (arith, q))
digits_inj (suc r) (suc s) a b p q h = elim (Bool-cases (ltb a 10)) [
  | inl a_small ↦ elim (Bool-cases (ltb b 10)) [
    | inl b_small ↦
        sym (digit_value-digit a (ltb→lt a 10 a_small))
        ∙ ap digit_value (sym (digits-one r a a_small) ∙ h ∙ digits-one s b b_small)
        ∙ digit_value-digit b (ltb→lt b 10 b_small)
    | inr b_large ↦ absurd (
        count-digits_more s b b_large q
          (sym (ap count h) ∙ ap count (digits-one r a a_small) ∙ count-digit a))
  ]
  | inr a_large ↦ elim (Bool-cases (ltb b 10)) [
    | inl b_small ↦ absurd (
        count-digits_more r a a_large p
          (ap count h ∙ ap count (digits-one s b b_small) ∙ count-digit b))
    | inr b_large ↦
        let e = sym (digits-more r a a_large) ∙ h ∙ digits-more s b b_large in
        let la = length-append (digits r (a / 10)) (digit (a % 10)) in
        let lb = length-append (digits s (b / 10)) (digit (b % 10)) in
        let oa = count-digit (a % 10) in
        let ob = count-digit (b % 10) in
        let same = ap count e in
        let (more, last) = append_inj e (omega (arith, la, lb, oa, ob, same)) in
        let ge = ltb→le a 10 a_large in
        let ge' = ltb→le b 10 b_large in
        let high =
          digits_inj r s (a / 10) (b / 10) (omega (arith, p, ge)) (omega (arith, q, ge')) more in
        let low =
          sym (digit_value-digit (a % 10) (omega arith))
          ∙ ap digit_value last
          ∙ digit_value-digit (b % 10) (omega arith) in
        omega (arith, high, low)
  ]
]

-- Different numbers have different notations.
pub decimal_inj : (a b : ℕ) → decimal a ≡ decimal b → a ≡ b
decimal_inj a b h = digits_inj (suc a) (suc b) a b (omega arith) (omega arith) h

decimal_runs : decimal 2050 ≡ "2050"
decimal_runs = refl
