-- ===== src/Shell/Run.antt =====
-- A line, from its typing to its words.
use mathlib.Core.Path.{subst}
use my_microkernel.Prelude.{
  ℕ, ◌+◌, ◌≡◌, refl, arith, ◌==◌, ltb, ◌||◌, List, [], ◌∷◌, ◌++◌, Bool-cases, inl, inr, Option,
  some,
}
use my_microkernel.Shell.{line_max, readline, tokenize}
use my_microkernel.Shell.Text.{length}
use my_microkernel.Shell.Words.{words, take, Strings}
use my_microkernel.Shell.Tokens.{tokenize-words}
use my_microkernel.Shell.Lines.{reverse, without_last, typed, Reads, readline-Reads, length-reverse}

typed-returns :
    (capacity : ℕ) (line before after : List ℕ)
    → (line1 : List ℕ) × (rest : List ℕ) × (typed capacity line (before ++ (10 ∷ after))
        ≡ some (line1, rest))
unfolding typed
typed-returns capacity line [] after = (line, after, refl)
typed-returns capacity line (c ∷ before) after = elim (Bool-cases (c == 10)) [
  | inl y ↦ rw y (line, before ++ (10 ∷ after), refl)
  | inr n ↦ elim (Bool-cases (c == 8 || c == 0x7F)) [
    | inl y ↦ rw (n, y) (typed-returns capacity (without_last line) before after)
    | inr k ↦ elim (Bool-cases (ltb c 0x20)) [
      | inl y ↦ rw (n, k, y) (typed-returns capacity line before after)
      | inr z ↦ elim (Bool-cases (ltb (length line + 1) capacity)) [
        | inl y ↦ rw (n, k, z, y) (typed-returns capacity (c ∷ line) before after)
        | inr w ↦ rw (n, k, z, w) (typed-returns capacity line before after)
      ]
    ]
  ]
]

-- The line that is read is split into its words, at most 16 of them: `readline` into the buffer of
-- `shell_run` and `tokenize` with the pointers of `shell_dispatch`, when a newline is in the input.
pub tokenize-readline :
    (buf : ℕ → ℕ) (before after : List ℕ)
    → (line : List ℕ) × (rest : List ℕ) × (text : ℕ → ℕ) × (typed line_max []
          (before ++ (10 ∷ after))
        ≡ some (line, rest))
      × (readline line_max buf (before ++ (10 ∷ after)) ≡ some (text, length line, rest))
      × Strings (tokenize 127 text 16).0 (tokenize 127 text 16).1 (take 16 (words (reverse line)))
tokenize-readline buf before after =
    let (line, rest, e) = typed-returns line_max [] before after in
    let (text, r, small, t) =
      subst
        (λ (o : Option (List ℕ × List ℕ)).
          Reads line_max o (readline line_max buf (before ++ (10 ∷ after))))
        e (readline-Reads line_max buf (before ++ (10 ∷ after)) (omega arith)) in
    (
      line,
      rest,
      text,
      e,
      r,
      tokenize-words text 127 16 (reverse line) (omega (arith, length-reverse line, small)) t,
    )
