-- ===== src/Quote.antt =====
-- internal/ssh/quote.go: a string made safe for a remote shell. A string is the list of its bytes.
-- `read_word` is an independent account of what the shell does with quotes (POSIX.1-2017, Shell
-- Command Language, 2.2): it reads the whole text as one word, and refuses a byte that stands outside
-- of quotes, and in double quotes those that are special there.
use angry_box.Prelude.{
  ℕ, ◌≡◌, refl, Bool, true, false, ◌||◌, List, [], ◌∷◌, ◌++◌, Option, none, some, ◌==◌, any,
  if◌then◌else◌, arith, Bool-cases, inl, inr, ◌⊎◌,
}

pub data Quoted : Type 0 where
  quoted : List ℕ → Quoted
  is_empty has_control : Quoted

-- `'`
abbrev pub single : ℕ
single = 39

-- `"`
abbrev pub double : ℕ
double = 34

-- One of `\x00`, `\n`, `\r`.
abbrev pub is_control : ℕ → Bool
is_control b = b == 0 || b == 10 || b == 13

-- `strings.ReplaceAll(s, "'", "'\"'\"'")`
abbrev pub replace_all : List ℕ → List ℕ
replace_all [] = []
replace_all (b ∷ s) =
    if b == single
    then single ∷ double ∷ single ∷ double ∷ single ∷ replace_all s
    else b ∷ replace_all s

-- `QuotePOSIX`
unfoldable pub quote_posix : List ℕ → Quoted
quote_posix [] = is_empty
quote_posix (b ∷ s) =
    if any is_control (b ∷ s)
    then has_control
    else quoted (single ∷ (replace_all (b ∷ s) ++ single ∷ []))

pub data Mode : Type 0 where
  bare in_single in_double : Mode

abbrev pub literal : ℕ → Option (List ℕ) → Option (List ℕ)
literal b none = none
literal b (some s) = some (b ∷ s)

-- `$`, a back quote or a backslash.
abbrev pub is_special : ℕ → Bool
is_special b = b == 36 || b == 96 || b == 92

unfoldable pub read_word : Mode → List ℕ → Option (List ℕ)
read_word bare [] = some []
read_word in_single [] = none
read_word in_double [] = none
read_word bare (b ∷ s) =
    let from_single = read_word in_single s in
    let from_double = read_word in_double s in
    if b == single then from_single else if b == double then from_double else none
read_word in_single (b ∷ s) =
    let outside = read_word bare s in
    let inside = read_word in_single s in if b == single then outside else literal b inside
read_word in_double (b ∷ s) =
    let outside = read_word bare s in
    let inside = read_word in_double s in
    if b == double then outside else if is_special b then none else literal b inside

read_word-replace_all : (s : List ℕ) → read_word in_single (replace_all s ++ single ∷ []) ≡ some s
unfolding read_word
read_word-replace_all [] = refl
read_word-replace_all (b ∷ s) = elim (Bool-cases (b == single)) [
  | inl is ↦ let e : b ≡ single = ground (arith, is) in rw e (rw (read_word-replace_all s) refl)
  | inr other ↦ rw (other, other, read_word-replace_all s) refl
]

-- `QuotePOSIX` refuses the empty string and every string with a NUL, newline or carriage return, and
-- any other string it turns into one shell word that the shell reads back as that string, with no
-- byte outside of quotes.
pub quote_posix-read_word :
    (s : List ℕ)
    → ((s ≡ []) × (quote_posix s ≡ is_empty))
      ⊎ ((any is_control s ≡ true) × (quote_posix s ≡ has_control))
      ⊎ ((any is_control s ≡ false)
          × ((q : List ℕ) × (quote_posix s ≡ quoted q) × (read_word bare q ≡ some s)))
unfolding quote_posix read_word
quote_posix-read_word [] = inl (refl, refl)
quote_posix-read_word (b ∷ s) = elim (Bool-cases (any is_control (b ∷ s))) [
  | inl bad ↦ inr (inl (bad, rw bad refl))
  | inr good ↦ inr (
      inr (
        good,
        (
          single ∷ (replace_all (b ∷ s) ++ single ∷ []),
          rw good refl,
          read_word-replace_all (b ∷ s),
        ),
      ))
]
