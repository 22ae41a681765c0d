-- ===== src/Address/Networks.antt =====
-- The network of an address that was allocated.
use Prim.Native.Char.{Char, code}
use text.Mathlib.TextLemmas.{cons-append, nil-append, append_assoc}
use angry_box.Prelude.{
  ℕ, zero, suc, ◌/◌, ◌%◌, ◌≡◌, refl, sym, ap, ◌∙◌, inl, inr, String, Bool, true, false, ◌∷◌, arith,
  ◌==◌, ltb, if◌then◌else◌, Bool-cases,
}
use angry_box.Prelude.Decimal.{decimal, digit, digits, ◌+s◌}
use angry_box.Address.{awg_ip_key, split_dots, three_parts, awg_server_prefix, subnet_prefix}
use angry_box.Address.Keys.{awg_ip_key-append, has_slash-append, has_slash-digits}

abbrev has_dot : String → Bool
has_dot String.[] = false
has_dot (String.◌∷◌ c s) = let rest = has_dot s in if code c == 46 then true else rest

split_dots-part :
    (s : String) (c : Char) (t : String)
    → has_dot s ≡ false
    → (code c == 46) ≡ true
    → split_dots (s +s String.◌∷◌ c t) ≡ s ∷ split_dots t
unfolding split_dots
split_dots-part String.[] c t h dot = ap split_dots (nil-append (String.◌∷◌ c t)) ∙ rw dot refl
split_dots-part (String.◌∷◌ d s) c t h dot = elim (Bool-cases (code d == 46)) [
  | inl early ↦ absurd (ground (arith, early, h))
  | inr other ↦
      ap split_dots (cons-append d s (String.◌∷◌ c t))
      ∙ rw (other, split_dots-part s c t (rw other at h) dot)
          (ap (λ x. x ∷ split_dots t) (cons-append d "" s ∙ ap (String.◌∷◌ d) (nil-append s)))
]

has_dot-append : (s t : String) → has_dot s ≡ false → has_dot t ≡ false → has_dot (s +s t) ≡ false
has_dot-append String.[] t h k = ap has_dot (nil-append t) ∙ k
has_dot-append (String.◌∷◌ c s) t h k = elim (Bool-cases (code c == 46)) [
  | inl dot ↦ absurd (ground (arith, dot, h))
  | inr other ↦ ap has_dot (cons-append c s t) ∙ rw other (has_dot-append s t (rw other at h) k)
]

has_dot-digit : (n : ℕ) → has_dot (digit n) ≡ false
has_dot-digit zero = refl
has_dot-digit (suc zero) = refl
has_dot-digit (suc (suc zero)) = refl
has_dot-digit (suc (suc (suc zero))) = refl
has_dot-digit (suc (suc (suc (suc zero)))) = refl
has_dot-digit (suc (suc (suc (suc (suc zero))))) = refl
has_dot-digit (suc (suc (suc (suc (suc (suc zero)))))) = refl
has_dot-digit (suc (suc (suc (suc (suc (suc (suc zero))))))) = refl
has_dot-digit (suc (suc (suc (suc (suc (suc (suc (suc zero)))))))) = refl
has_dot-digit (suc (suc (suc (suc (suc (suc (suc (suc (suc n))))))))) = refl

has_dot-digits : (r n : ℕ) → has_dot (digits r n) ≡ false
has_dot-digits zero n = refl
has_dot-digits (suc r) n = elim (Bool-cases (ltb n 10)) [
  | inl small ↦ rw small (has_dot-digit n)
  | inr large ↦ rw large (
      has_dot-append (digits r (n / 10)) (digit (n % 10)) (has_dot-digits r (n / 10))
        (has_dot-digit (n % 10)))
]

two_parts : (w : String) → split_dots ("10.8." +s w) ≡ "10" ∷ "8" ∷ split_dots w
unfolding split_dots
two_parts w = ap split_dots (
    cons-append "1" "0.8." w
    ∙ ap (String.◌∷◌ "1") (
        cons-append "0" ".8." w
        ∙ ap (String.◌∷◌ "0") (
            cons-append "." "8." w
            ∙ ap (String.◌∷◌ ".") (
                cons-append "8" "." w
                ∙ ap (String.◌∷◌ "8")
                    (cons-append "." "" w ∙ ap (String.◌∷◌ ".") (nil-append w))))))

rejoined : (d : String) → "10" +s "." +s "8" +s "." +s d ≡ "10.8." +s d
rejoined d =
    sym (append_assoc "10" "." ("8" +s "." +s d))
    ∙ sym (append_assoc "10." "8" ("." +s d))
    ∙ sym (append_assoc "10.8" "." d)

-- The prefix of a server address that was allocated is that of its network.
pub awg_server_prefix-allocated :
    (sub : ℕ) → awg_server_prefix (subnet_prefix sub +s ".1/24") ≡ subnet_prefix sub
unfolding awg_server_prefix awg_ip_key split_dots
awg_server_prefix-allocated sub =
    let d = decimal sub in
    let key : awg_ip_key (subnet_prefix sub +s ".1/24") ≡ subnet_prefix sub +s ".1" =
      awg_ip_key-append (subnet_prefix sub) ".1/24"
        (has_slash-append "10.8." d refl (has_slash-digits (suc sub) sub)) in
    ap (λ s. three_parts (split_dots s)) (key ∙ append_assoc "10.8." d ".1")
    ∙ ap three_parts (
        two_parts (d +s ".1")
        ∙ ap (λ ps. "10" ∷ "8" ∷ ps)
            (split_dots-part d "." "1" (has_dot-digits (suc sub) sub) refl))
    ∙ rejoined d
