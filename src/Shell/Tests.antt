-- ===== src/Shell/Tests.antt =====
-- The line "ab  c", typed with a correction, and its words.
use my_microkernel.Prelude.{
  ℕ, ◌≡◌, ◌↔◌, refl, arith, ◌==◌, if◌then◌else◌, List, [], ◌∷◌, ◌++◌, some, true,
}
use my_microkernel.Shell.{
  line_max, is_space, readline, skip_spaces, skip_word, tokenize_from, tokenize, streq,
}
use my_microkernel.Shell.Text.{length, Text}
use my_microkernel.Shell.Words.{starts, prefix, words, take, Strings}
use my_microkernel.Shell.Lines.{reverse, typed}
use my_microkernel.Shell.Run.{tokenize-readline}
use my_microkernel.Shell.Commands.{streq_iff}

abbrev blank : ℕ → ℕ
blank x = 0

-- a, b, x, backspace, two spaces and c
abbrev keys : List ℕ
keys = 97 ∷ 98 ∷ 120 ∷ 8 ∷ 32 ∷ 32 ∷ 99 ∷ []

abbrev line : ℕ → ℕ
line x =
    if x == 0
    then 97
    else if x == 1
    then 98
    else if x == 2
    then 32
    else if x == 3
    then 32
    else if x == 4
    then 99
    else 0

abbrev text : List ℕ
text = 97 ∷ 98 ∷ 32 ∷ 32 ∷ 99 ∷ []

line-Text : Text line 0 text
unfolding Text
line-Text = (
  refl,
  (λ e. omega (arith, e)),
  (
    refl,
    (λ e. omega (arith, e)),
    (
      refl,
      (λ e. omega (arith, e)),
      (refl, (λ e. omega (arith, e)), (refl, (λ e. omega (arith, e)), refl)),
    ),
  ),
)

text_words : words text ≡ (97 ∷ 98 ∷ []) ∷ (99 ∷ []) ∷ []
unfolding words starts prefix is_space
text_words = refl

line_tokens : (tokenize 5 line 16).1 ≡ 0 ∷ 4 ∷ []
unfolding tokenize tokenize_from skip_spaces skip_word is_space
line_tokens = refl

tokenize-readline_example :
    (l : List ℕ) × (rest : List ℕ) × (buf : ℕ → ℕ) × (typed line_max [] (keys ++ (10 ∷ []))
      ≡ some (l, rest))
    × (readline line_max blank (keys ++ (10 ∷ [])) ≡ some (buf, length l, rest))
    × Strings (tokenize 127 buf 16).0 (tokenize 127 buf 16).1 (take 16 (words (reverse l)))
tokenize-readline_example = tokenize-readline blank keys []

-- Memory with the strings "ab" at 1 and 4, and "b" at 2 and 5.
abbrev strings : ℕ → ℕ
strings x =
    if x == 1 then 97 else if x == 2 then 98 else if x == 4 then 97 else if x == 5 then 98 else 0

one-Text : Text strings 1 (97 ∷ 98 ∷ [])
unfolding Text
one-Text = (refl, (λ e. omega (arith, e)), (refl, (λ e. omega (arith, e)), refl))

four-Text : Text strings 4 (97 ∷ 98 ∷ [])
unfolding Text
four-Text = (refl, (λ e. omega (arith, e)), (refl, (λ e. omega (arith, e)), refl))

five-Text : Text strings 5 (98 ∷ [])
unfolding Text
five-Text = (refl, (λ e. omega (arith, e)), refl)

streq_iff_example : (streq strings 2 1 4 ≡ true) ↔ (◌≡◌ {A = List ℕ} (97 ∷ 98 ∷ []) (97 ∷ 98 ∷ []))
streq_iff_example =
    streq_iff strings 2 1 4 (97 ∷ 98 ∷ []) (97 ∷ 98 ∷ []) (omega arith) (omega arith)
      (unfold length in omega arith) one-Text four-Text
