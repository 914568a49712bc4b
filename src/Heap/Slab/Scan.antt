-- ===== src/Heap/Slab/Scan.antt =====
-- The search for the first set bit of a bitmap.
use mathlib.Core.Path.{subst}
use my_microkernel.Prelude.{
  ℕ, zero, suc, ◌+◌, ◌-◌, ◌*◌, ◌/◌, ◌%◌, ◌^◌, ◌≤◌, ◌<◌, ◌≡◌, refl, sym, ap, ◌∙◌, arith, true, false,
  not, ◌==◌, leb, bit_and, word, add32, mul32, zero-and, dec_lt, Bool-cases, inl, inr, ◌⊎◌, Option,
  none, some,
}
use my_microkernel.Heap.Slab.{find_in_word, find_in_words, find_first_set}
use my_microkernel.Heap.Slab.Bits.{test, read_bit}

-- The result of a search for a set bit below `bits`.
abbrev pub FirstSet : (bm : ℕ → ℕ) (from bits : ℕ) → Option ℕ → Type 0
FirstSet bm from bits r =
    ((r ≡ none) × ((j : ℕ) → from ≤ j → j < bits → test bm j ≡ false))
    ⊎ ((i : ℕ) × (r ≡ some i)
        × (i < bits)
        × (test bm i ≡ true)
        × ((j : ℕ) → from ≤ j → j < i → test bm j ≡ false))

-- The same for the inner loop: it ends with no bit up to the word's end, or returns.
abbrev InWord : (bm : ℕ → ℕ) (w from bits : ℕ) → Option (Option ℕ) → Type 0
InWord bm w from bits r =
    ((r ≡ none) × (w * 32 + 32 ≤ bits) × ((j : ℕ) → from ≤ j → j < w * 32 + 32 → test bm j ≡ false))
    ⊎ ((o : Option ℕ) × (r ≡ some o) × FirstSet bm from bits o)

-- The test of the bit `b` of the word `w`.
test-read :
    (bm : ℕ → ℕ) (w b : ℕ) → b < 32 → test bm (w * 32 + b) ≡ not (bit_and (bm w) (2 ^ b) == 0)
unfolding test
test-read bm w b h =
    let q : (w * 32 + b) / 32 ≡ w = omega (arith, h) in
    let r : (w * 32 + b) % 32 ≡ b = omega (arith, h) in rw (q, r) (sym (read_bit (bm w) b))

next : (w b : ℕ) → w * 32 + (b + 1) ≡ w * 32 + b + 1
next w b = omega arith

-- Clear bits before a range in which the first set bit is sought.
clear_before :
    (bm : ℕ → ℕ) (from mid bits : ℕ) (r : Option ℕ)
    → ((j : ℕ) → from ≤ j → j < mid → test bm j ≡ false)
    → FirstSet bm mid bits r
    → FirstSet bm from bits r
clear_before bm from mid bits r c (inl (e, f)) =
    inl (e, λ j p q. elim (dec_lt j mid) [ yes l ↦ c j p l | no g ↦ f j (omega (arith, g)) q ])
clear_before bm from mid bits r c (inr (i, e, p, t, f)) =
    inr (
      i,
      e,
      p,
      t,
      λ j p q. elim (dec_lt j mid) [ yes l ↦ c j p l | no g ↦ f j (omega (arith, g)) q ],
    )

one_clear :
    (bm : ℕ → ℕ) (from : ℕ)
    → test bm from ≡ false
    → (j : ℕ) → from ≤ j
    → j < from + 1
    → test bm j ≡ false
one_clear bm from c j p q =
    let e : j ≡ from = omega (arith, p, q) in ap (λ (x : ℕ). test bm x) e ∙ c

step-InWord :
    (bm : ℕ → ℕ) (w from bits : ℕ) (r : Option (Option ℕ))
    → test bm from ≡ false
    → InWord bm w (from + 1) bits r
    → InWord bm w from bits r
step-InWord bm w from bits r c (inl (e, l, f)) = inl (
  e,
  l,
  λ j p q. elim (dec_lt j (from + 1)) [
    | yes i ↦ one_clear bm from c j p i
    | no g ↦ f j (omega (arith, g)) q
  ],
)
step-InWord bm w from bits r c (inr (o, e, f)) =
    inr (o, e, clear_before bm from (from + 1) bits o (one_clear bm from c) f)

-- A word that is 0 has no set bit.
zero_clear :
    (bm : ℕ → ℕ) (w : ℕ) → bm w ≡ 0 → (j : ℕ) → w * 32 ≤ j → j < w * 32 + 32 → test bm j ≡ false
zero_clear bm w e j p q =
    let at : w * 32 + (j - w * 32) ≡ j = omega (arith, p) in
    let z : not (bit_and (bm w) (2 ^ (j - w * 32)) == 0) ≡ false =
      ground
        (arith, e, ap (λ (x : ℕ). bit_and x (2 ^ (j - w * 32))) e, zero-and (2 ^ (j - w * 32))) in
    ap (λ (x : ℕ). test bm x) (sym at) ∙ test-read bm w (j - w * 32) (omega (arith, p, q)) ∙ z

find_in_word-InWord :
    (bm : ℕ → ℕ) (bits w b n : ℕ)
    → b + n ≡ 32
    → w * 32 + b ≤ bits
    → bits + 32 < word
    → InWord bm w (w * 32 + b) bits (find_in_word bm bits w b n)
unfolding find_in_word
find_in_word-InWord bm bits w b zero e h k =
    inl (refl, omega arith, λ j p q. absurd (omega (arith, p, q, e)))
find_in_word-InWord bm bits w b (suc n) e h k =
    let at : add32 (mul32 w 32) b ≡ w * 32 + b = omega arith in
    elim (Bool-cases (leb bits (w * 32 + b))) [
      | inl y ↦ rw (at, y) (inr (none, refl, inl (refl, λ j p q. absurd (ground (arith, p, q, y)))))
      | inr z ↦
          let more : w * 32 + b < bits = ground (arith, z) in
          let here = test-read bm w b (omega (arith, e)) in
          elim (Bool-cases (not (bit_and (bm w) (2 ^ b) == 0))) [
            | inl y ↦
                rw (at, z, y)
                  (inr (
                    some (w * 32 + b),
                    refl,
                    inr (w * 32 + b, refl, more, here ∙ y, λ j p q. absurd (omega (arith, p, q))),
                  ))
            | inr n0 ↦
                rw (at, z, n0)
                  (step-InWord bm w (w * 32 + b) bits (find_in_word bm bits w (b + 1) n) (here ∙ n0)
                    (subst (λ (x : ℕ). InWord bm w x bits (find_in_word bm bits w (b + 1) n))
                      (next w b)
                      (find_in_word-InWord bm bits w (b + 1) n (omega (arith, e))
                        (omega (arith, more)) k)))
          ]
    ]

next_word : (w : ℕ) → (w + 1) * 32 ≡ w * 32 + 32
next_word w = omega arith

plus_zero : (w : ℕ) → w * 32 + 0 ≡ w * 32
plus_zero w = omega arith

find_in_words-FirstSet :
    (bm : ℕ → ℕ) (bits w n : ℕ)
    → bits ≤ (w + n) * 32
    → (w + n) * 32 < bits + 32
    → bits + 32 < word
    → FirstSet bm (w * 32) bits (find_in_words bm bits w n)
unfolding find_in_words
find_in_words-FirstSet bm bits w zero h l k = inl (refl, λ j p q. absurd (omega (arith, p, q, h)))
find_in_words-FirstSet bm bits w (suc n) h l k =
    let rest = find_in_words bm bits (w + 1) n in
    let later : FirstSet bm (w * 32 + 32) bits rest =
      subst (λ (x : ℕ). FirstSet bm x bits rest) (next_word w)
        (find_in_words-FirstSet bm bits (w + 1) n (omega (arith, h)) (omega (arith, l)) k) in
    elim (Bool-cases (bm w == 0)) [
      | inl y ↦ rw y (
          clear_before bm (w * 32) (w * 32 + 32) bits rest (zero_clear bm w (ground (arith, y)))
            later)
      | inr z ↦ elim (find_in_word-InWord bm bits w 0 32 refl (omega (arith, l)) k) [
        | inl (e, le, f) ↦
            rw (z, e)
              (clear_before bm (w * 32) (w * 32 + 32) bits rest (λ j p q. f j (omega (arith, p)) q)
                later)
        | inr (o, e, f) ↦ rw (z, e) (subst (λ (x : ℕ). FirstSet bm x bits o) (plus_zero w) f)
      ]
    ]

pub find_first_set-FirstSet :
    (bm : ℕ → ℕ) (bits : ℕ) → bits + 32 < word → FirstSet bm 0 bits (find_first_set bm bits)
unfolding find_first_set
find_first_set-FirstSet bm bits h =
    let e : add32 bits 31 ≡ bits + 31 = omega arith in
    rw e (find_in_words-FirstSet bm bits 0 ((bits + 31) / 32) (omega arith) (omega arith) h)
