-- ===== src/Shell/Lines.antt =====
-- The reading of a line.
use my_microkernel.Prelude.{
  ℕ, suc, ◌+◌, ◌-◌, ◌<◌, ◌≡◌, ◌≢◌, refl, sym, ap, ◌∙◌, arith, ◌==◌, ltb, true, false, ◌||◌, List,
  [], ◌∷◌, ◌++◌, if◌then◌else◌, update, update_ne, update_self, Bool-cases, inl, inr, Option, none,
  some,
}
use my_microkernel.Shell.{readline_from, readline}
use my_microkernel.Shell.Text.{length, length-append, Text}

unfoldable pub reverse : List ℕ → List ℕ
reverse [] = []
reverse (c ∷ cs) = reverse cs ++ (c ∷ [])

abbrev pub without_last : List ℕ → List ℕ
without_last [] = []
without_last (c ∷ cs) = cs

-- The line that typing `input` leaves, its last character first, with `line` typed before, and what is
-- not read of the input. A line has less than `capacity` characters; more are ignored.
unfoldable pub typed : (capacity : ℕ) → List ℕ → List ℕ → Option (List ℕ × List ℕ)
typed capacity line [] = none
typed capacity line (c ∷ input) =
    let less = typed capacity (without_last line) input in
    let same = typed capacity line input in
    let more = typed capacity (c ∷ line) input in
    if c == 10
    then some (line, input)
    else if c == 8 || c == 0x7F
    then less
    else if ltb c 0x20
    then same
    else if ltb (length line + 1) capacity
    then more
    else same

-- The buffer holds the line, the last character at the end.
Holds : (ℕ → ℕ) → List ℕ → Type 0
Holds m [] = Unit
Holds m (c ∷ cs) = (m (length cs) ≡ c) × (c ≢ 0) × Holds m cs

-- What a reader returns for a typed line: nothing as long as the line has not ended, and else the line as
-- a string at the beginning of the buffer, its length, and the rest of the input.
abbrev pub Reads :
    (capacity : ℕ) → Option (List ℕ × List ℕ) → Option ((ℕ → ℕ) × ℕ × List ℕ) → Type 0
Reads capacity none r = r ≡ none
Reads capacity (some (line, rest)) r =
    (buf : ℕ → ℕ) × (r ≡ some (buf, length line, rest))
    × (length line < capacity)
    × Text buf 0 (reverse line)

Holds-agree :
    (m n : ℕ → ℕ) (cs : List ℕ) → ((x : ℕ) → x < length cs → m x ≡ n x) → Holds m cs → Holds n cs
unfolding Holds length
Holds-agree m n [] e h = tt
Holds-agree m n (c ∷ cs) e h = (
  sym (e (length cs) (omega arith)) ∙ h.0,
  h.1,
  Holds-agree m n cs (λ x i. e x (omega arith)) h.2,
)

-- The characters from `p` on.
Chars : (ℕ → ℕ) → ℕ → List ℕ → Type 0
Chars m p [] = Unit
Chars m p (c ∷ cs) = (m p ≡ c) × (c ≢ 0) × Chars m (p + 1) cs

Chars-snoc :
    (m : ℕ → ℕ) (p c : ℕ) (cs : List ℕ)
    → Chars m p cs
    → m (p + length cs) ≡ c
    → c ≢ 0
    → Chars m p (cs ++ (c ∷ []))
unfolding Chars length
Chars-snoc m p c [] h e n = let at : p + 0 ≡ p = omega arith in (rw at at e, n, tt)
Chars-snoc m p c (d ∷ cs) h e n =
    let at : p + suc (length cs) ≡ p + 1 + length cs = omega arith in
    (h.0, h.1, Chars-snoc m (p + 1) c cs h.2 (rw at at e) n)

pub length-reverse : (cs : List ℕ) → 0 + length (reverse cs) ≡ length cs
unfolding reverse length
length-reverse [] = refl
length-reverse (c ∷ cs) =
    unfold length in omega (arith, length-append (reverse cs) (c ∷ []), length-reverse cs)

Holds-Chars : (m : ℕ → ℕ) (cs : List ℕ) → Holds m cs → Chars m 0 (reverse cs)
unfolding Holds reverse length
Holds-Chars m [] h = unfold Chars in tt
Holds-Chars m (c ∷ cs) h =
    Chars-snoc m 0 c (reverse cs) (Holds-Chars m cs h.2)
      (ap (λ (x : ℕ). m x) (length-reverse cs) ∙ h.0) h.1

Chars-Text : (m : ℕ → ℕ) (p : ℕ) (cs : List ℕ) → Chars m p cs → m (p + length cs) ≡ 0 → Text m p cs
unfolding Chars Text length
Chars-Text m p [] h e = let at : p + 0 ≡ p = omega arith in rw at at e
Chars-Text m p (c ∷ cs) h e =
    let at : p + suc (length cs) ≡ p + 1 + length cs = omega arith in
    (h.0, h.1, Chars-Text m (p + 1) cs h.2 (rw at at e))

ended-Reads :
    (capacity : ℕ) (buf : ℕ → ℕ) (line input : List ℕ)
    → length line < capacity
    → Holds buf line
    → Reads capacity (some (line, input)) (some (update buf (length line) 0, length line, input))
ended-Reads capacity buf line input h t =
    let n = length line in
    let kept : Holds (update buf n 0) line =
      Holds-agree buf (update buf n 0) line
        (λ x i. sym (update_ne buf n x 0 (λ e. omega (arith, e, i)))) t in
    let nul : update buf n 0 (0 + length (reverse line)) ≡ 0 =
      ap (λ (x : ℕ). update buf n 0 x) (length-reverse line) ∙ update_self buf n 0 in
    (
      update buf n 0,
      refl,
      h,
      Chars-Text (update buf n 0) 0 (reverse line) (Holds-Chars (update buf n 0) line kept) nul,
    )

-- The length after a backspace.
erase {ℓ} :
    {A : Type ℓ} (line : List ℕ) (f : ℕ → A)
    → (if ltb 0 (length line) then f (length line - 1) else f (length line))
      ≡ f (length (without_last line))
unfolding length
erase [] f = refl
erase (c ∷ cs) f =
    let set : ltb 0 (suc (length cs)) ≡ true = ground arith in
    let pred : suc (length cs) - 1 ≡ length cs = omega arith in rw (set, pred) refl

shorter :
    (capacity : ℕ) (line : List ℕ) → length line < capacity → length (without_last line) < capacity
unfolding length
shorter capacity [] h = h
shorter capacity (c ∷ cs) h = omega (arith, h)

Holds-without_last : (m : ℕ → ℕ) (line : List ℕ) → Holds m line → Holds m (without_last line)
unfolding Holds
Holds-without_last m [] t = tt
Holds-without_last m (c ∷ cs) t = t.2

plus_one : (c : ℕ) (line : List ℕ) → length line + 1 ≡ length (c ∷ line)
unfolding length
plus_one c line = omega arith

Holds-more :
    (m : ℕ → ℕ) (c : ℕ) (line : List ℕ)
    → c ≢ 0
    → Holds m line
    → Holds (update m (length line) c) (c ∷ line)
unfolding Holds
Holds-more m c line n t = (
  update_self m (length line) c,
  n,
  Holds-agree m (update m (length line) c) line
      (λ x i. sym (update_ne m (length line) x c (λ e. omega (arith, e, i)))) t,
)

readline_from-Reads :
    (capacity : ℕ) (buf : ℕ → ℕ) (line input : List ℕ)
    → length line < capacity
    → Holds buf line
    → Reads capacity (typed capacity line input) (readline_from capacity buf (length line) input)
unfolding typed readline_from
readline_from-Reads capacity buf line [] h t = refl
readline_from-Reads capacity buf line (c ∷ input) h t = elim (Bool-cases (c == 10)) [
  | inl y ↦ rw y (ended-Reads capacity buf line input h t)
  | inr n ↦ elim (Bool-cases (c == 8 || c == 0x7F)) [
    | inl y ↦
        rw (n, y, erase line (λ (k : ℕ). readline_from capacity buf k input))
          (readline_from-Reads capacity buf (without_last line) input (shorter capacity line h)
            (Holds-without_last buf line t))
    | inr k ↦ elim (Bool-cases (ltb c 0x20)) [
      | inl y ↦ rw (n, k, y) (readline_from-Reads capacity buf line input h t)
      | inr z ↦ elim (Bool-cases (ltb (length line + 1) capacity)) [
        | inl y ↦
            rw (n, k, z, y, plus_one c line)
              (readline_from-Reads capacity (update buf (length line) c) (c ∷ line) input
                (unfold length in ground (arith, y)) (Holds-more buf c line (ground (arith, z)) t))
        | inr w ↦ rw (n, k, z, w) (readline_from-Reads capacity buf line input h t)
      ]
    ]
  ]
]

-- `readline` into a buffer of `capacity` characters, not 0: it waits as long as the typed line has not ended,
-- and else the buffer begins with the typed line, ended by NUL inside the buffer, and the result is
-- its length.
pub readline-Reads :
    (capacity : ℕ) (buf : ℕ → ℕ) (input : List ℕ)
    → 0 < capacity
    → Reads capacity (typed capacity [] input) (readline capacity buf input)
unfolding readline length Holds
readline-Reads capacity buf input h =
    let set : capacity == 0 ≡ false = ground arith in
    rw set (readline_from-Reads capacity buf [] input h tt)
