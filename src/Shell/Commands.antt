-- ===== src/Shell/Commands.antt =====
-- The comparison of strings, and the search for a command by its name.
use my_microkernel.Prelude.{
  ℕ, zero, suc, ◌+◌, ◌≤◌, ◌<◌, ◌≡◌, ◌↔◌, refl, sym, ap, ◌∙◌, arith, ◌==◌, Bool, true, false, ◌&&◌,
  ◌||◌, List, [], ◌∷◌, if◌then◌else◌, Option, none, some,
}
use my_microkernel.Shell.{streq_from, streq, find_command}
use my_microkernel.Shell.Text.{length, Text}

-- Equality of strings, character by character.
unfoldable pub same : List ℕ → List ℕ → Bool
same [] [] = true
same [] (d ∷ ds) = false
same (c ∷ cs) [] = false
same (c ∷ cs) (d ∷ ds) = c == d && same cs ds

streq_from-same :
    (m : ℕ → ℕ) (a b n : ℕ) (cs ds : List ℕ)
    → length cs ≤ n
    → Text m a cs
    → Text m b ds
    → streq_from m a b n ≡ same cs ds
unfolding streq_from same Text length
streq_from-same m a b zero [] [] h t u = rw (t, u) refl
streq_from-same m a b zero [] (d ∷ ds) h t u = ground (arith, t, u.0, u.1)
streq_from-same m a b zero (c ∷ cs) ds h t u = absurd (omega arith)
streq_from-same m a b (suc n) [] [] h t u = rw (t, u) refl
streq_from-same m a b (suc n) [] (d ∷ ds) h t u = ground (arith, t, u.0, u.1)
streq_from-same m a b (suc n) (c ∷ cs) [] h t u = ground (arith, t.0, t.1, u)
streq_from-same m a b (suc n) (c ∷ cs) (d ∷ ds) h t u =
    let set_c : c == 0 ≡ false = ground (arith, t.1) in
    let set_d : d == 0 ≡ false = ground (arith, u.1) in
    rw (t.0, u.0, set_c, set_d, streq_from-same m (a + 1) (b + 1) n cs ds (omega arith) t.2 u.2)
      (ground arith)

same_refl : (cs : List ℕ) → same cs cs ≡ true
unfolding same
same_refl [] = refl
same_refl (c ∷ cs) = ground (arith, same_refl cs)

same_equal : (cs ds : List ℕ) → same cs ds ≡ true → cs ≡ ds
unfolding same
same_equal [] [] e = refl
same_equal [] (d ∷ ds) e = absurd (ground arith)
same_equal (c ∷ cs) [] e = absurd (ground arith)
same_equal (c ∷ cs) (d ∷ ds) e =
    let head : c ≡ d = ground (arith, e) in
    let tail : same cs ds ≡ true = ground (arith, e) in λ i. head i ∷ same_equal cs ds tail i

streq-same :
    (m : ℕ → ℕ) (n a b : ℕ) (cs ds : List ℕ)
    → 0 < a
    → 0 < b
    → length cs ≤ n
    → Text m a cs
    → Text m b ds
    → streq m n a b ≡ same cs ds
unfolding streq
streq-same m n a b cs ds ha hb h t u =
    let e : (a == 0 || b == 0) ≡ false = ground arith in rw e (streq_from-same m a b n cs ds h t u)

-- `streq` of two strings at addresses that are not NULL says whether they are equal, given rounds for
-- the first.
pub streq_iff :
    (m : ℕ → ℕ) (n a b : ℕ) (cs ds : List ℕ)
    → 0 < a
    → 0 < b
    → length cs ≤ n
    → Text m a cs
    → Text m b ds
    → (streq m n a b ≡ true) ↔ (cs ≡ ds)
streq_iff m n a b cs ds ha hb h t u =
    let e = streq-same m n a b cs ds ha hb h t u in
    (
      λ q. same_equal cs ds (sym e ∙ q),
      λ q. e ∙ ap (λ (x : List ℕ). same cs x) (sym q) ∙ same_refl cs,
    )

-- Each pointer leads to its name, and none is NULL.
unfoldable pub Names : (ℕ → ℕ) → List ℕ → List (List ℕ) → Type 0
Names m [] [] = Unit
Names m [] (w ∷ ws) = ⊥
Names m (p ∷ ps) [] = ⊥
Names m (p ∷ ps) (w ∷ ws) = (0 < p) × Text m p w × Names m ps ws

-- The number of the first name that is `w`, counted from `i`.
unfoldable pub position : (w : List ℕ) → (i : ℕ) → List (List ℕ) → Option ℕ
position w i [] = none
position w i (v ∷ vs) = let rest = position w (i + 1) vs in if same w v then some i else rest

-- The search of `shell_dispatch` finds the first command whose name is the word, if there is one.
pub find_command-position :
    (m : ℕ → ℕ) (n word i : ℕ) (w : List ℕ) (ps : List ℕ) (ws : List (List ℕ))
    → 0 < word
    → length w ≤ n
    → Text m word w
    → Names m ps ws
    → find_command m n word i ps ≡ position w i ws
unfolding find_command position Names
find_command-position m n word i w [] [] p h t u = refl
find_command-position m n word i w [] (v ∷ vs) p h t u = absurd u
find_command-position m n word i w (q ∷ qs) [] p h t u = absurd u
find_command-position m n word i w (q ∷ qs) (v ∷ vs) p h t u =
    rw
      (
        streq-same m n word q w v p u.0 h t u.1,
        find_command-position m n word (i + 1) w qs vs p h t u.2,
      )
      refl
