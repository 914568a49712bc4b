-- ===== src/Heap/FirstFit/Aligned.antt =====
-- `ALIGN8`, and blocks whose sizes are multiples of 8.
use my_microkernel.Prelude.{
  ℕ, ◌+◌, ◌-◌, ◌*◌, ◌/◌, ◌%◌, ◌^◌, ◌≤◌, ◌<◌, ◌≡◌, refl, sym, ap, ◌∙◌, arith, ltb, word, bit_and,
  and-high_mask, and-low_mask, List, [], ◌∷◌, ◌++◌, Bool-cases, inl, inr,
}
use my_microkernel.Heap.FirstFit.{align8}
use my_microkernel.Heap.FirstFit.Blocks.{
  Block, extent, AllBlocks, carve, absorb, absorb_size, absorb_rest, join_back, freed,
}

abbrev pub Aligned : List Block → Type 0
Aligned bs = AllBlocks (λ b. b.size % 8 ≡ 0) bs

pub align8-div : (x : ℕ) → align8 x ≡ (x + 7) % word / 8 * 8
align8-div x =
    let v = (x + 7) % word in
    let q = v / 8 in
    let e : q * 2 ^ 3 + v % 8 ≡ v = omega arith in
    let f = and-high_mask 3 q (v % 8) (2 ^ 29 - 1) (omega arith) in
    let g = and-low_mask 29 q in
    ap (λ (t : ℕ). bit_and t (word - 8)) (sym e) ∙ f ∙ ap (λ (t : ℕ). t * 8) (g ∙ omega arith)

pub mod-align8 : (x : ℕ) → align8 x % 8 ≡ 0
mod-align8 x = omega (arith, align8-div x)

pub align8-large : (x : ℕ) → x + 7 < word → x ≤ align8 x
align8-large x h = omega (arith, align8-div x)

pub extent-Aligned : (bs : List Block) → Aligned bs → extent bs % 8 ≡ 0
unfolding extent
extent-Aligned [] a = refl
extent-Aligned (b ∷ bs) a = omega (arith, extent-Aligned bs a.1, a.0)

pub append-Aligned : (bs cs : List Block) → Aligned bs → Aligned cs → Aligned (bs ++ cs)
append-Aligned [] cs a c = c
append-Aligned (b ∷ bs) cs a c = (a.0, append-Aligned bs cs a.1 c)

pub before-Aligned : (bs cs : List Block) → Aligned (bs ++ cs) → Aligned bs
before-Aligned [] cs a = tt
before-Aligned (b ∷ bs) cs a = (a.0, before-Aligned bs cs a.1)

pub after-Aligned : (bs cs : List Block) → Aligned (bs ++ cs) → Aligned cs
after-Aligned [] cs a = a
after-Aligned (b ∷ bs) cs a = after-Aligned bs cs a.1

pub carve-Aligned :
    (size : ℕ) (b : Block) (bs : List Block)
    → size % 8 ≡ 0
    → Aligned (b ∷ bs)
    → Aligned (carve size b ++ bs)
carve-Aligned size b bs h a = elim (Bool-cases (ltb 24 (b.size - size))) [
  | inl y ↦ rw y (h, (omega (arith, h, a.0), a.1))
  | inr z ↦ rw z a
]

absorb_rest-Aligned : (bs : List Block) → Aligned bs → Aligned (absorb_rest bs)
unfolding absorb_rest
absorb_rest-Aligned [] a = tt
absorb_rest-Aligned (b ∷ bs) a = elim (Bool-cases b.free) [
  | inl y ↦ rw y (absorb_rest-Aligned bs a.1)
  | inr z ↦ rw z a
]

mod-absorb_size : (n : ℕ) (bs : List Block) → n % 8 ≡ 0 → Aligned bs → absorb_size n bs % 8 ≡ 0
unfolding absorb_size
mod-absorb_size n [] h a = h
mod-absorb_size n (b ∷ bs) h a =
    ground (arith, mod-absorb_size (n + 16 + b.size) bs (omega (arith, a.0, h)) a.1)

pub absorb-Aligned : (b : Block) (bs : List Block) → Aligned (b ∷ bs) → Aligned (absorb b.size bs)
absorb-Aligned b bs a = (mod-absorb_size b.size bs a.0 a.1, absorb_rest-Aligned bs a.1)

pub join_back-Aligned : (ps bs : List Block) → Aligned ps → Aligned bs → Aligned (join_back ps bs)
unfolding join_back
join_back-Aligned [] bs a c = c
join_back-Aligned (p ∷ []) [] a c = a
join_back-Aligned (p ∷ []) (b ∷ bs) a c = elim (Bool-cases p.free) [
  | inl y ↦ rw y (omega (arith, a.0, c.0), c.1)
  | inr z ↦ rw z (a.0, c)
]
join_back-Aligned (p ∷ q ∷ ps) bs a c = (a.0, join_back-Aligned (q ∷ ps) bs a.1 c)

pub freed-Aligned :
    (ps : List Block) (b : Block) (bs : List Block)
    → Aligned (ps ++ (b ∷ bs))
    → Aligned (freed ps b bs)
freed-Aligned ps b bs a =
    join_back-Aligned ps (absorb b.size bs) (before-Aligned ps (b ∷ bs) a)
      (absorb-Aligned b bs (after-Aligned ps (b ∷ bs) a))
