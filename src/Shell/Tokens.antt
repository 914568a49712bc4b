-- ===== src/Shell/Tokens.antt =====
-- The loops of `shell_tokenize` on a string.
use mathlib.Core.Path.{subst}
use my_microkernel.Prelude.{
  ℕ, zero, suc, ◌+◌, ◌-◌, ◌≤◌, ◌<◌, ◌≡◌, refl, sym, ap, ◌∙◌, arith, ◌==◌, true, false, List, [],
  ◌∷◌, ◌++◌, if◌then◌else◌, update, update_ne, Bool-cases, inl, inr, ℕ_discrete,
}
use my_microkernel.Shell.{is_space, skip_spaces, skip_word, tokenize_from, tokenize}
use my_microkernel.Shell.Text.{
  length, Text, Text-update, Text-cut, Text-agree, Text-front, length-append,
}
use my_microkernel.Shell.Words.{
  starts, words, take, take_none, Strings, drop_spaces, first_word, after_word, words-drop_spaces,
  drop_spaces-starts, words-first_word, first-after, length-drop_spaces, after_word-starts,
}

skip_spaces-drops :
    (m : ℕ → ℕ) (p n : ℕ) (cs : List ℕ)
    → length cs ≤ n
    → Text m p cs
    → (p ≤ skip_spaces m p n) × Text m (skip_spaces m p n) (drop_spaces cs)
unfolding skip_spaces Text length drop_spaces
skip_spaces-drops m p zero [] h t = (omega arith, t)
skip_spaces-drops m p (suc n) [] h t = rw t (omega arith, t)
skip_spaces-drops m p zero (c ∷ cs) h t = absurd (omega arith)
skip_spaces-drops m p (suc n) (c ∷ cs) h t =
    let set : c == 0 ≡ false = ground (arith, t.1) in
    elim (Bool-cases (is_space c)) [
      | inl y ↦
          let later = skip_spaces-drops m (p + 1) n cs (omega arith) t.2 in
          rw (t.0, set, y) (omega (arith, later.0), later.1)
      | inr z ↦ rw (t.0, set, z) (omega arith, t)
    ]

skip_word-after :
    (m : ℕ → ℕ) (p n : ℕ) (cs : List ℕ)
    → length cs ≤ n
    → Text m p cs
    → (skip_word m p n ≡ p + length (first_word cs)) × Text m (skip_word m p n) (after_word cs)
unfolding skip_word Text length first_word after_word
skip_word-after m p zero [] h t = (omega arith, t)
skip_word-after m p (suc n) [] h t = rw t (omega arith, t)
skip_word-after m p zero (c ∷ cs) h t = absurd (omega arith)
skip_word-after m p (suc n) (c ∷ cs) h t =
    let set : c == 0 ≡ false = ground (arith, t.1) in
    elim (Bool-cases (is_space c)) [
      | inl y ↦ rw (t.0, set, y) (omega arith, t)
      | inr z ↦
          let later = skip_word-after m (p + 1) n cs (omega arith) t.2 in
          rw (t.0, set, z) (omega (arith, later.0), later.1)
    ]

tokenize-end : (m : ℕ → ℕ) (p room n : ℕ) → m p ≡ 0 → tokenize_from m p room n ≡ (m, [])
unfolding tokenize_from
tokenize-end m p room zero e = refl
tokenize-end m p room (suc n) e = rw e refl

-- A result of `tokenize_from` at `p` with the words `ws`.
abbrev Tokens : (m : ℕ → ℕ) (p : ℕ) → List (List ℕ) → (ℕ → ℕ) × List ℕ → Type 0
Tokens m p ws r = Strings r.0 r.1 ws × ((x : ℕ) → x < p → r.0 x ≡ m x)

starts-set : (m : ℕ → ℕ) (p : ℕ) (cs : List ℕ) → starts cs ≡ true → Text m p cs → m p == 0 ≡ false
unfolding starts Text
starts-set m p [] e t = absurd (ground arith)
starts-set m p (c ∷ cs) e t = ground (arith, t.0, t.1)

-- What the loop does behind a word that begins at `start`.
abbrev continue : (m : ℕ → ℕ) (start end room n : ℕ) → (ℕ → ℕ) × List ℕ
continue m start end room n =
    let last = tokenize_from m end room n in
    let rest = tokenize_from (update m end 0) (end + 1) room n in
    if m end == 0 then (last.0, start ∷ last.1) else (rest.0, start ∷ rest.1)

continue-Tokens :
    (m : ℕ → ℕ) (start end room n : ℕ) (w cs : List ℕ)
    → end ≡ start + length w
    → starts cs ≡ false
    → length cs ≤ n
    → Text m start (w ++ cs)
    → Text m end cs
    → ((k : ℕ → ℕ) (ds : List ℕ)
        → length ds < n
        → Text k (end + 1) ds
        → Tokens k (end + 1) (take room (words ds)) (tokenize_from k (end + 1) room n))
    → Tokens m start (w ∷ take room (words cs)) (continue m start end room n)
unfolding Text Strings take words length starts
continue-Tokens m start end room n w [] e f h t u later =
    rw (u, tokenize-end m end room n u) ((Text-front m start w t, tt), λ x i. refl)
continue-Tokens m start end room n w (d ∷ ds) e f h t u later =
    let set : d == 0 ≡ false = ground (arith, u.1) in
    let space : is_space d ≡ true = ground (arith, f) in
    let k = update m end 0 in
    let (s, low) = later k ds (omega arith) (Text-update m (end + 1) end 0 ds (omega arith) u.2) in
    let r = tokenize_from k (end + 1) room n in
    let here : Text r.0 start w =
      Text-agree k r.0 start w (λ x i. sym (low x (omega (arith, e))))
        (Text-cut m start end w (d ∷ ds) e t) in
    rw (u.0, set, space)
      ((here, s), λ x i. low x (omega (arith, e)) ∙ update_ne m end x 0 (λ q. omega (arith, q, e)))

-- What the loop does at a word, when it has room or not.
word-Tokens :
    (m : ℕ → ℕ) (p q room n : ℕ) (d : List ℕ)
    → p ≤ q
    → length d ≤ n
    → Text m q d
    → starts d ≡ true
    → ((k : ℕ → ℕ) (ds : List ℕ)
        → length ds < n
        → Text k (skip_word m q n + 1) ds
        → Tokens k
            (skip_word m q n + 1)
            (take (room - 1) (words ds))
            (tokenize_from k (skip_word m q n + 1) (room - 1) n))
    → Tokens m p
        (take room (words d))
        (if room == 0 then (m, []) else continue m q (skip_word m q n) (room - 1) n)
unfolding Strings take
word-Tokens m p q zero n d le h u e later = rw (words-first_word d e) (tt, λ x i. refl)
word-Tokens m p q (suc room) n d le h u e later =
    let set : suc room == 0 ≡ false = ground arith in
    let pred : suc room - 1 ≡ room = omega arith in
    let end = skip_word m q n in
    let (at, v) = skip_word-after m q n d h u in
    let total : length (first_word d) + length (after_word d) ≡ length d =
      sym (length-append (first_word d) (after_word d))
      ∙ ap (λ (x : List ℕ). length x) (first-after d) in
    let whole : Text m q (first_word d ++ after_word d) =
      subst (λ (x : List ℕ). Text m q x) (sym (first-after d)) u in
    let (s, low) =
      continue-Tokens m q end room n (first_word d) (after_word d) at (after_word-starts d)
        (omega (arith, total, h)) whole v (rw pred at later) in
    rw (set, pred, words-first_word d e) (s, λ x i. low x (omega (arith, le)))

tokenize_from-words :
    (m : ℕ → ℕ) (p room n : ℕ) (cs : List ℕ)
    → length cs < n
    → Text m p cs
    → Tokens m p (take room (words cs)) (tokenize_from m p room n)
unfolding Strings take
tokenize_from-words m p room zero cs h t = absurd (omega arith)
tokenize_from-words m p room (suc n) [] h t =
    unfold tokenize_from Text words in rw t (tt, λ x i. refl)
tokenize_from-words m p room (suc n) (c ∷ cs) h t =
    let l = c ∷ cs in
    let d = drop_spaces l in
    let q = skip_spaces m p n in
    let (le, u) = skip_spaces-drops m p n l (omega arith) t in
    let set : m p == 0 ≡ false = unfold Text in ground (arith, t.0, t.1) in
    elim (drop_spaces-starts l) [
      | inl e ↦
          let gone : m q ≡ 0 = unfold Text in subst (λ (x : List ℕ). Text m q x) e u in
          let none : words l ≡ [] =
            sym (words-drop_spaces l) ∙ ap (λ (x : List ℕ). words x) e ∙ (unfold words in refl) in
          let r : tokenize_from m p room (suc n) ≡ (m, []) =
            unfold tokenize_from in rw (set, gone) refl in
          rw (none, r) (tt, λ x i. refl)
      | inr e ↦
          let start : m q == 0 ≡ false = starts-set m q d e u in
          let r : tokenize_from m p room (suc n)
              ≡ (if room == 0 then (m, []) else continue m q (skip_word m q n) (room - 1) n) =
            unfold tokenize_from in rw (set, start) refl in
          rw (r, ← words-drop_spaces l)
            (word-Tokens m p q room n d le (omega (arith, length-drop_spaces l, h)) u e
              (λ k ds i v. tokenize_from-words k (skip_word m q n + 1) (room - 1) n ds i v))
    ]

-- `tokenize` of a line that is a string of at most `n` characters: the pointers lead to the words of
-- the string, in order, up to `argv_cap` of them, each ended by NUL. The words are the longest runs
-- of characters that are not white space.
pub tokenize-words :
    (line : ℕ → ℕ) (n argv_cap : ℕ) (cs : List ℕ)
    → length cs ≤ n
    → Text line 0 cs
    → Strings (tokenize n line argv_cap).0 (tokenize n line argv_cap).1 (take argv_cap (words cs))
unfolding tokenize Strings
tokenize-words line n argv_cap cs h t = elim (ℕ_discrete argv_cap 0) [
  | yes e ↦ rw (e, take_none (words cs)) tt
  | no e ↦
      let set : argv_cap == 0 ≡ false = ground (arith, e) in
      rw set (tokenize_from-words line 0 argv_cap (n + 1) cs (omega arith) t).0
]
