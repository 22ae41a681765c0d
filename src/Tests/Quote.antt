-- ===== src/Tests/Quote.antt =====
-- Quoting of short strings, among them one with a quote in it.
use angry_box.Prelude.{◌≡◌, ◌⊎◌, refl, ℕ, true, false, List, [], ◌∷◌, some, any}
use angry_box.Quote.{
  quoted, is_empty, has_control, is_control, quote_posix, quote_posix-read_word, read_word, bare,
}

-- `a'b`
abbrev text : List ℕ
text = 97 ∷ 39 ∷ 98 ∷ []

quote_tests :
    (quote_posix text ≡ quoted (39 ∷ 97 ∷ 39 ∷ 34 ∷ 39 ∷ 34 ∷ 39 ∷ 98 ∷ 39 ∷ []))
    × (quote_posix (97 ∷ 10 ∷ []) ≡ has_control)
    × (quote_posix [] ≡ is_empty)
unfolding quote_posix
quote_tests = (refl, refl, refl)

quote_posix-read_word_example :
    ((text ≡ []) × (quote_posix text ≡ is_empty))
    ⊎ ((any is_control text ≡ true) × (quote_posix text ≡ has_control))
    ⊎ ((any is_control text ≡ false)
        × ((q : List ℕ) × (quote_posix text ≡ quoted q) × (read_word bare q ≡ some text)))
quote_posix-read_word_example = quote_posix-read_word text
