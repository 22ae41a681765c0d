-- ===== src/Prelude/Text.antt =====
-- The text functions of Go's standard library that the program uses: prefixes, spaces and letter case.
use Prim.Native.Nat.{ℕ, ◌-◌}
use Prim.Native.Char.{Char, code}
use Prim.Native.String.{String}
use mathlib.Core.Bool.{Bool, true, false, ◌&&◌, ◌||◌}
use angry_box.Prelude.Tests.{if◌then◌else◌, leb, ◌==◌, ◌=s◌}

-- `strings.HasPrefix(s, prefix)`
abbrev pub has_prefix : String → String → Bool
has_prefix s String.[] = true
has_prefix String.[] (String.◌∷◌ p ps) = false
has_prefix (String.◌∷◌ c s) (String.◌∷◌ p ps) = has_prefix s ps && (code c == code p)

-- `unicode.IsSpace`
abbrev pub is_space : Char → Bool
is_space c =
    let n = code c in
    leb 9 n && leb n 13
    || n == 32
    || n == 133
    || n == 160
    || n == 5760
    || leb 8192 n && leb n 8202
    || n == 8232
    || n == 8233
    || n == 8239
    || n == 8287
    || n == 12288

abbrev pub trim_left : String → String
trim_left String.[] = ""
trim_left (String.◌∷◌ c s) = let rest = trim_left s in if is_space c then rest else String.◌∷◌ c s

abbrev pub trim_right : String → String
trim_right String.[] = ""
trim_right (String.◌∷◌ c s) =
    let rest = trim_right s in if is_space c && rest =s "" then "" else String.◌∷◌ c rest

-- `strings.TrimSpace`
unfoldable pub trim_space : String → String
trim_space s = trim_left (trim_right s)

-- The code of a letter from `a` to `z` in capitals.
abbrev pub upper : ℕ → ℕ
upper n = if leb 97 n && leb n 122 then n - 32 else n

-- `strings.EqualFold(s, t)` for a `t` of the letters whose only other case is the ASCII one.
abbrev pub equal_fold : String → String → Bool
equal_fold String.[] String.[] = true
equal_fold String.[] (String.◌∷◌ d t) = false
equal_fold (String.◌∷◌ c s) String.[] = false
equal_fold (String.◌∷◌ c s) (String.◌∷◌ d t) = equal_fold s t && (upper (code c) == upper (code d))

-- The character of `to` at the place where `from` has `c`.
abbrev pub swap_char : String → String → Char → Char
swap_char String.[] to c = c
swap_char (String.◌∷◌ f from) String.[] c = c
swap_char (String.◌∷◌ f from) (String.◌∷◌ t to) c =
    let rest = swap_char from to c in if code c == code f then t else rest

abbrev pub map_chars : (Char → Char) → String → String
map_chars f String.[] = ""
map_chars f (String.◌∷◌ c s) = String.◌∷◌ (f c) (map_chars f s)

-- `strings.ToLower` and `strings.ToUpper`, for texts whose letters are ASCII.
abbrev pub to_lower : String → String
to_lower s = map_chars (swap_char "ABCDEFGHIJKLMNOPQRSTUVWXYZ" "abcdefghijklmnopqrstuvwxyz") s

abbrev pub to_upper : String → String
to_upper s = map_chars (swap_char "abcdefghijklmnopqrstuvwxyz" "ABCDEFGHIJKLMNOPQRSTUVWXYZ") s
