-- ===== src/Shell/Text.antt =====
-- Strings in memory, ended by NUL.
use mathlib.Core.Path.{subst}
use my_microkernel.Prelude.{
  ℕ, suc, ◌+◌, ◌≤◌, ◌<◌, ◌≡◌, ◌≢◌, sym, ◌∙◌, arith, List, [], ◌∷◌, ◌++◌, update, update_ne,
  update_self,
}

unfoldable pub length : List ℕ → ℕ
length [] = 0
length (c ∷ cs) = suc (length cs)

-- The string at `p` is `cs`.
unfoldable pub Text : (ℕ → ℕ) → ℕ → List ℕ → Type 0
Text m p [] = m p ≡ 0
Text m p (c ∷ cs) = (m p ≡ c) × (c ≢ 0) × Text m (p + 1) cs

pub Text-update :
    (m : ℕ → ℕ) (p x v : ℕ) (cs : List ℕ) → x < p → Text m p cs → Text (update m x v) p cs
unfolding Text
Text-update m p x v [] h t = update_ne m x p v (λ e. omega (arith, e)) ∙ t
Text-update m p x v (c ∷ cs) h t = (
  update_ne m x p v (λ e. omega (arith, e)) ∙ t.0,
  t.1,
  Text-update m (p + 1) x v cs (omega arith) t.2,
)

-- A string is cut by a NUL at its inside.
pub Text-cut :
    (m : ℕ → ℕ) (p x : ℕ) (cs ds : List ℕ)
    → x ≡ p + length cs
    → Text m p (cs ++ ds)
    → Text (update m x 0) p cs
unfolding Text length
Text-cut m p x [] ds e t =
    let at : x ≡ p = omega (arith, e) in
    subst (λ (y : ℕ). update m y 0 p ≡ 0) (sym at) (update_self m p 0)
Text-cut m p x (c ∷ cs) ds e t = (
  update_ne m x p 0 (λ q. omega (arith, q, e)) ∙ t.0,
  t.1,
  Text-cut m (p + 1) x cs ds (omega (arith, e)) t.2,
)

-- Writes behind a string leave it.
pub Text-agree :
    (m n : ℕ → ℕ) (p : ℕ) (cs : List ℕ)
    → ((x : ℕ) → x ≤ p + length cs → m x ≡ n x)
    → Text m p cs
    → Text n p cs
unfolding Text length
Text-agree m n p [] e t = sym (e p (omega arith)) ∙ t
Text-agree m n p (c ∷ cs) e t =
    (sym (e p (omega arith)) ∙ t.0, t.1, Text-agree m n (p + 1) cs (λ x h. e x (omega arith)) t.2)

pub length-append : (cs ds : List ℕ) → length (cs ++ ds) ≡ length cs + length ds
unfolding length
length-append [] ds = omega arith
length-append (c ∷ cs) ds = omega (arith, length-append cs ds)

-- A string is the same with nothing behind it.
pub Text-front : (m : ℕ → ℕ) (p : ℕ) (cs : List ℕ) → Text m p (cs ++ []) → Text m p cs
unfolding Text
Text-front m p [] t = t
Text-front m p (c ∷ cs) t = (t.0, t.1, Text-front m (p + 1) cs t.2)
