-- ===== src/Awg/Split/Texts.antt =====
-- Spaces, equal signs and line feeds in the lines of a configuration.
use Prim.Native.Char.{Char, code}
use text.Mathlib.TextLemmas.{cons-append, nil-append, append-ne-nil_of_right_ne-nil}
use angry_box.Prelude.{
  ℕ, ◌≡◌, ◌≢◌, refl, sym, ap, ◌∙◌, inl, inr, String, Bool, true, false, List, [], ◌∷◌, ◌++◌, some,
  arith, ◌==◌, ◌=s◌, =s_iff, =s_ne, if◌then◌else◌, Bool-cases, All,
}
use angry_box.Prelude.Decimal.{◌+s◌}
use angry_box.Prelude.Text.{is_space, trim_left, trim_right, trim_space}
use angry_box.Awg.Split.{split_lines, cut}
use angry_box.Awg.Conf.{written}

pub trim_right-append :
    (s t : String) → (trim_right t =s "") ≡ false → trim_right (s +s t) ≡ s +s trim_right t
trim_right-append String.[] t h = ap trim_right (nil-append t) ∙ sym (nil-append (trim_right t))
trim_right-append (String.◌∷◌ c s) t h =
    let ne : (s +s trim_right t) ≢ "" =
      append-ne-nil_of_right_ne-nil s
        (λ (e : trim_right t ≡ ""). cc (h, (=s_iff (trim_right t) "").1 e)) in
    ap trim_right (cons-append c s t)
    ∙ rw (trim_right-append s t h, =s_ne (s +s trim_right t) "" ne)
        (elim (Bool-cases (is_space c)) [
          | inl space ↦ rw space (sym (cons-append c s (trim_right t)))
          | inr other ↦ rw other (sym (cons-append c s (trim_right t)))
        ])

-- A text that `TrimSpace` leaves as it is, and that is not empty.
abbrev pub Clean : String → Type 0
Clean v = (trim_right v ≡ v) × (trim_left v ≡ v) × ((v =s "") ≡ false)

-- The first character is no space and no bracket.
abbrev pub Starts : String → Type 0
Starts l =
    (c : Char) × (s : String) × (l ≡ String.◌∷◌ c s)
    × (is_space c ≡ false)
    × ((code c == 91) ≡ false)

pub Starts-append : (k v : String) → Starts k → Starts (k +s v)
Starts-append k v (c, s, e, solid, plain) =
    (c, s +s v, ap (λ x. x +s v) e ∙ cons-append c s v, solid, plain)

pub trim_space-Starts : (l : String) → Starts l → Starts (trim_space l)
unfolding trim_space
trim_space-Starts l (c, s, e, solid, plain) =
    (c, trim_right s, ap trim_space e ∙ rw (solid, solid) refl, solid, plain)

pub Starts-tests :
    (l : String)
    → Starts l
    → ((l =s "") ≡ false) × ((l =s "[Interface]") ≡ false) × ((l =s "[Peer]") ≡ false)
Starts-tests l (c, s, e, solid, plain) = (
  =s_ne l "" (λ h. absurd (ne_nil c s (sym e ∙ h))),
  =s_ne l "[Interface]" (λ h. bracket "Interface]" (sym e ∙ h)),
  =s_ne l "[Peer]" (λ h. bracket "Peer]" (sym e ∙ h)),
)
  where
    ne_nil : (c : Char) (s : String) → String.◌∷◌ c s ≡ "" → ⊥
    ne_nil c s h = cc

    bracket : (t : String) → String.◌∷◌ c s ≡ String.◌∷◌ "[" t → ⊥
    bracket t h = let same : c ≡ "[" = cc in cc (plain, ap (λ x. code x == 91) same)

-- A written line with a value that is not blank is read as it is.
pub trim_space-entry : (k v : String) → Starts k → Clean v → trim_space (k +s v) ≡ k +s v
unfolding trim_space
trim_space-entry k v (c, s, e, solid, plain) (right, left, ne) =
    ap trim_left (trim_right-append k v (rw right ne) ∙ ap (λ x. k +s x) right)
    ∙ ap trim_left (ap (λ x. x +s v) e ∙ cons-append c s v)
    ∙ rw solid (sym (ap (λ x. x +s v) e ∙ cons-append c s v))

pub trim_space-value : (v : String) → Clean v → trim_space (" " +s v) ≡ v
unfolding trim_space
trim_space-value v (right, left, ne) =
    ap trim_space (cons-append " " "" v ∙ ap (String.◌∷◌ " ") (nil-append v)) ∙ rw (right, ne) left

abbrev pub has_char : ℕ → String → Bool
has_char n String.[] = false
has_char n (String.◌∷◌ c s) = let rest = has_char n s in if code c == n then true else rest

pub cut-append :
    (k : String) (c : Char) (v : String)
    → has_char 61 k ≡ false
    → (code c == 61) ≡ true
    → cut (k +s String.◌∷◌ c v) ≡ some (k, v)
cut-append String.[] c v h e = ap cut (nil-append (String.◌∷◌ c v)) ∙ rw e refl
cut-append (String.◌∷◌ d k) c v h e = elim (Bool-cases (code d == 61)) [
  | inl sign ↦ absurd (ground (arith, sign, h))
  | inr other ↦
      ap cut (cons-append d k (String.◌∷◌ c v))
      ∙ rw (other, cut-append k c v (rw other at h) e)
          (ap (λ x. some (x, v)) (cons-append d "" k ∙ ap (String.◌∷◌ d) (nil-append k)))
]

-- A line up to its line feed.
pub split_lines-line :
    (l rest : String)
    → has_char 10 l ≡ false
    → split_lines (l +s "\n" +s rest) ≡ l ∷ split_lines rest
split_lines-line String.[] rest h =
    ap split_lines (
      nil-append ("\n" +s rest) ∙ cons-append "\n" "" rest ∙ ap (String.◌∷◌ "\n") (nil-append rest))
split_lines-line (String.◌∷◌ c l) rest h = elim (Bool-cases (code c == 10)) [
  | inl feed ↦ absurd (ground (arith, feed, h))
  | inr other ↦
      ap split_lines (cons-append c l ("\n" +s rest))
      ∙ rw (other, split_lines-line l rest (rw other at h))
          (ap (λ x. x ∷ split_lines rest) (cons-append c "" l ∙ ap (String.◌∷◌ c) (nil-append l)))
]

-- The lines that were written are the lines that are read, with an empty one at the end.
pub split_lines-written :
    (ls : List String)
    → All (λ l. has_char 10 l ≡ false) ls
    → split_lines (written ls) ≡ ls ++ "" ∷ []
split_lines-written [] h = refl
split_lines-written (l ∷ ls) (p, h) =
    split_lines-line l (written ls) p ∙ ap (λ x. l ∷ x) (split_lines-written ls h)
