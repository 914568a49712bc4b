-- ===== src/Heap/Slab/Bits.antt =====
-- The bitmap of a slab: reading bits after writes, and the search for the first set bit.
use mathlib.Core.Path.{subst}
use native.Mathlib.Nat.{one-le-pow, pow-suc}
use my_microkernel.Prelude.{
  ℕ, zero, suc, ◌+◌, ◌-◌, ◌*◌, ◌/◌, ◌%◌, ◌^◌, ◌≤◌, ◌<◌, ◌≡◌, arith, Bool, not, ◌&&◌, ◌||◌, ◌==◌,
  bit_and, word, digit, digit-le, digit-bit_or, digit-bit_and, digit-pow, digit_complement, and-pow,
  ℕ_discrete,
}
use my_microkernel.Heap.Slab.{set_bit, clear_bit}

-- The bit `idx` of a bitmap.
unfoldable pub test : (ℕ → ℕ) → ℕ → Bool
test bm idx = digit (idx % 32) (bm (idx / 32)) == 1

masked : (d p : ℕ) → d ≤ 1 → 1 ≤ p → not (d * p == 0) ≡ (d == 1)
masked zero p h k = ground arith
masked (suc zero) p h k = ground arith
masked (suc (suc d)) p h k = absurd (omega arith)

-- The test in the code.
pub read_bit : (v b : ℕ) → not (bit_and v (2 ^ b) == 0) ≡ (digit b v == 1)
read_bit v b =
    rw (and-pow b v) (masked (digit b v) (2 ^ b) (digit-le b v) (one-le-pow b 2 (omega arith)))

pow_grows : (m k : ℕ) → 2 ^ m < 2 ^ (m + suc k)
pow_grows m zero =
    let e : m + 1 ≡ suc m = omega arith in rw e (omega (arith, pow-suc 2 m, one-le-pow m 2))
pow_grows m (suc k) =
    let e : m + suc (suc k) ≡ suc (m + suc k) = omega arith in
    rw e (omega (arith, pow-suc 2 (m + suc k), pow_grows m k))

mask_lt : (m : ℕ) → m < 32 → 2 ^ m < 2 ^ 32
mask_lt m h =
    let e : m + suc (31 - m) ≡ 32 = omega arith in
    subst (λ (x : ℕ). 2 ^ m < 2 ^ x) e (pow_grows m (31 - m))

same_bit : (i j : ℕ) → i / 32 ≡ j / 32 → i % 32 ≡ j % 32 → i ≡ j
same_bit i j p q = omega arith

pub test-set_bit : (bm : ℕ → ℕ) (i j : ℕ) → test (set_bit bm i) j ≡ (i == j || test bm j)
unfolding test set_bit
test-set_bit bm i j = elim (ℕ_discrete (i / 32) (j / 32)) [
  | no ne ↦ ground arith
  | yes e ↦ rw (← e) (
      ground (
        arith,
        digit-bit_or (j % 32) (bm (i / 32)) (2 ^ (i % 32)),
        digit-pow (j % 32) (i % 32),
        digit-le (j % 32) (bm (i / 32)),
        same_bit i j,
      ))
]

pub test-clear_bit : (bm : ℕ → ℕ) (i j : ℕ) → test (clear_bit bm i) j ≡ (not (i == j) && test bm j)
unfolding test clear_bit
test-clear_bit bm i j = elim (ℕ_discrete (i / 32) (j / 32)) [
  | no ne ↦ ground arith
  | yes e ↦
      let c =
        digit_complement 32 (j % 32) (2 ^ (i % 32)) (omega arith)
          (mask_lt (i % 32) (omega arith)) in
      rw (← e) (
        ground (
          arith,
          digit-bit_and (j % 32) (bm (i / 32)) (word - 1 - 2 ^ (i % 32)),
          c,
          digit-pow (j % 32) (i % 32),
          digit-le (j % 32) (bm (i / 32)),
          same_bit i j,
        ))
]
