-- ===== src/Shell/Words.antt =====
-- The splitting of a line into words.
use my_microkernel.Prelude.{
  ℕ, zero, suc, ◌≤◌, ◌≡◌, refl, ap, ◌∙◌, arith, Bool, true, false, not, List, [], ◌∷◌, ◌++◌,
  if◌then◌else◌, Bool-cases, inl, inr, ◌⊎◌,
}
use my_microkernel.Shell.{is_space}
use my_microkernel.Shell.Text.{length, Text}

-- Whether a word begins here.
unfoldable pub starts : List ℕ → Bool
starts [] = false
starts (c ∷ cs) = not (is_space c)

unfoldable pub prefix : ℕ → List (List ℕ) → List (List ℕ)
prefix c [] = (c ∷ []) ∷ []
prefix c (w ∷ ws) = (c ∷ w) ∷ ws

-- The longest runs of characters that are not white space, character by character from the end.
unfoldable pub words : List ℕ → List (List ℕ)
words [] = []
words (c ∷ cs) =
    if is_space c then words cs else if starts cs then prefix c (words cs) else (c ∷ []) ∷ words cs

unfoldable pub take : ℕ → List (List ℕ) → List (List ℕ)
take n [] = []
take zero (w ∷ ws) = []
take (suc n) (w ∷ ws) = w ∷ take n ws

pub take_none : (ws : List (List ℕ)) → take 0 ws ≡ []
unfolding take
take_none [] = refl
take_none (w ∷ ws) = refl

-- The strings at the pointers.
unfoldable pub Strings : (ℕ → ℕ) → List ℕ → List (List ℕ) → Type 0
Strings m [] [] = Unit
Strings m [] (w ∷ ws) = ⊥
Strings m (p ∷ ps) [] = ⊥
Strings m (p ∷ ps) (w ∷ ws) = Text m p w × Strings m ps ws

-- A text without its first white space, its first word, and what follows that.
unfoldable pub drop_spaces : List ℕ → List ℕ
drop_spaces [] = []
drop_spaces (c ∷ cs) = if is_space c then drop_spaces cs else c ∷ cs

unfoldable pub first_word : List ℕ → List ℕ
first_word [] = []
first_word (c ∷ cs) = if is_space c then [] else c ∷ first_word cs

unfoldable pub after_word : List ℕ → List ℕ
after_word [] = []
after_word (c ∷ cs) = if is_space c then c ∷ cs else after_word cs

pub words-drop_spaces : (cs : List ℕ) → words (drop_spaces cs) ≡ words cs
unfolding words drop_spaces
words-drop_spaces [] = refl
words-drop_spaces (c ∷ cs) = ground (arith, words-drop_spaces cs)

pub drop_spaces-starts : (cs : List ℕ) → (drop_spaces cs ≡ []) ⊎ (starts (drop_spaces cs) ≡ true)
unfolding starts drop_spaces
drop_spaces-starts [] = inl refl
drop_spaces-starts (c ∷ cs) = elim (Bool-cases (is_space c)) [
  | inl y ↦ rw y (drop_spaces-starts cs)
  | inr z ↦ inr (rw (z, z) refl)
]

pub words-first_word :
    (cs : List ℕ) → starts cs ≡ true → words cs ≡ first_word cs ∷ words (after_word cs)
unfolding words starts prefix first_word after_word
words-first_word [] e = absurd (ground arith)
words-first_word (c ∷ []) e = ground arith
words-first_word (c ∷ d ∷ cs) e =
    let z : is_space c ≡ false = ground (arith, e) in
    elim (Bool-cases (is_space d)) [
      | inl y ↦ rw (z, y) (rw y refl)
      | inr n ↦
          let one : words (c ∷ d ∷ cs) ≡ prefix c (words (d ∷ cs)) = rw (z, n) refl in
          let two =
            ap (λ (w : List (List ℕ)). prefix c w) (words-first_word (d ∷ cs) (rw n refl)) in
          let three : prefix c (first_word (d ∷ cs) ∷ words (after_word (d ∷ cs)))
              ≡ first_word (c ∷ d ∷ cs) ∷ words (after_word (c ∷ d ∷ cs)) =
            rw z refl in
          one ∙ two ∙ three
    ]

pub first-after : (cs : List ℕ) → first_word cs ++ after_word cs ≡ cs
unfolding first_word after_word
first-after [] = refl
first-after (c ∷ cs) = elim (Bool-cases (is_space c)) [
  | inl y ↦ rw y refl
  | inr z ↦ rw z (ap (λ (l : List ℕ). c ∷ l) (first-after cs))
]

pub length-drop_spaces : (cs : List ℕ) → length (drop_spaces cs) ≤ length cs
unfolding length drop_spaces
length-drop_spaces [] = omega arith
length-drop_spaces (c ∷ cs) = elim (Bool-cases (is_space c)) [
  | inl y ↦ rw y (omega (arith, length-drop_spaces cs))
  | inr z ↦ rw z (omega arith)
]

pub after_word-starts : (cs : List ℕ) → starts (after_word cs) ≡ false
unfolding starts after_word
after_word-starts [] = refl
after_word-starts (c ∷ cs) = elim (Bool-cases (is_space c)) [
  | inl y ↦ rw (y, y) refl
  | inr z ↦ rw z (after_word-starts cs)
]
