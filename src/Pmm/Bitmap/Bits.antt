-- ===== src/Pmm/Bitmap/Bits.antt =====
-- The bitmap of a region: reading one page's bit after writing another's.
use my_microkernel.Prelude.{
  ℕ, zero, suc, ◌-◌, ◌*◌, ◌/◌, ◌%◌, ◌^◌, ◌≤◌, ◌<◌, ◌≡◌, arith, not, ◌&&◌, ◌||◌, ◌==◌, if◌then◌else◌,
  bit_and, bit_or, digit, digit-le, digit-bit_or, digit-bit_and, digit-pow, digit_complement,
  digit-mod, and-pow, and-low_mask, ℕ_discrete,
}
use my_microkernel.Pmm.Bitmap.{Region, bitmap_test, bitmap_set, bitmap_clear, bit_mask}
use native.Mathlib.Nat.{one-le-pow}

masked : (d p : ℕ) → d ≤ 1 → 1 ≤ p → not (d * p == 0) ≡ (d == 1)
masked zero p h k = ground arith
masked (suc zero) p h k = ground arith
masked (suc (suc d)) p h k = absurd (omega arith)

-- A page's bit is digit `bit & 7` of byte `bit >> 3`.
pub test_digit :
    (r : Region) (bit : ℕ) → bitmap_test r bit ≡ (digit (bit % 8) (r.bitmap (bit / 8)) == 1)
unfolding bitmap_test
test_digit r bit =
    let m : bit_and bit 7 ≡ bit % 8 = and-low_mask 3 bit in
    rw (m, and-pow (bit % 8) (r.bitmap (bit / 8)))
      (masked (digit (bit % 8) (r.bitmap (bit / 8))) (2 ^ (bit % 8))
        (digit-le (bit % 8) (r.bitmap (bit / 8))) (one-le-pow (bit % 8) 2 (omega arith)))

-- The mask of a bit below 8, digit by digit, and its complement in a byte.
mask_digit : (bit k : ℕ) → digit k (bit_mask bit) ≡ (if k == bit % 8 then 1 else 0)
mask_digit bit k = rw (and-low_mask 3 bit) (digit-pow k (bit % 8))

mask_lt : (m : ℕ) → m < 8 → 2 ^ m < 256
mask_lt zero h = omega arith
mask_lt (suc zero) h = omega arith
mask_lt (suc (suc zero)) h = omega arith
mask_lt (suc (suc (suc zero))) h = omega arith
mask_lt (suc (suc (suc (suc zero)))) h = omega arith
mask_lt (suc (suc (suc (suc (suc zero))))) h = omega arith
mask_lt (suc (suc (suc (suc (suc (suc zero)))))) h = omega arith
mask_lt (suc (suc (suc (suc (suc (suc (suc zero))))))) h = omega arith
mask_lt (suc (suc (suc (suc (suc (suc (suc (suc m)))))))) h = absurd (omega arith)

unmask_digit : (bit k : ℕ) → k < 8 → digit k (255 - bit_mask bit) ≡ (if k == bit % 8 then 0 else 1)
unmask_digit bit k h =
    let m = mask_lt (bit % 8) (omega arith) in
    let c : digit k (255 - bit_mask bit) ≡ 1 - digit k (bit_mask bit) =
      digit_complement 8 k (bit_mask bit) h (rw (and-low_mask 3 bit) m) in
    ground (arith, c, mask_digit bit k)

same_bit : (i j : ℕ) → i / 8 ≡ j / 8 → i % 8 ≡ j % 8 → i ≡ j
same_bit i j p q = omega arith

-- After setting page `i`'s bit, the pages read as before, but `i` reads as used.
pub test-set : (r : Region) (i j : ℕ) → bitmap_test (bitmap_set r i) j ≡ (i == j || bitmap_test r j)
test-set r i j =
    rw (test_digit (bitmap_set r i) j, test_digit r j)
      (unfold bitmap_set in
        (elim (ℕ_discrete (i / 8) (j / 8)) [
          | no ne ↦ ground arith
          | yes e ↦ rw (← e) (
              ground (
                arith,
                digit-mod 8 (j % 8) (bit_or (r.bitmap (i / 8)) (bit_mask i)),
                digit-bit_or (j % 8) (r.bitmap (i / 8)) (bit_mask i),
                mask_digit i (j % 8),
                digit-le (j % 8) (r.bitmap (i / 8)),
                same_bit i j,
              ))
        ]))

-- After clearing page `i`'s bit, the pages read as before, but `i` reads as free.
pub test-clear :
    (r : Region) (i j : ℕ) → bitmap_test (bitmap_clear r i) j ≡ (not (i == j) && bitmap_test r j)
test-clear r i j =
    rw (test_digit (bitmap_clear r i) j, test_digit r j)
      (unfold bitmap_clear in
        (elim (ℕ_discrete (i / 8) (j / 8)) [
          | no ne ↦ ground arith
          | yes e ↦ rw (← e) (
              ground (
                arith,
                digit-mod 8 (j % 8) (bit_and (r.bitmap (i / 8)) (255 - bit_mask i)),
                digit-bit_and (j % 8) (r.bitmap (i / 8)) (255 - bit_mask i),
                unmask_digit i (j % 8),
                digit-le (j % 8) (r.bitmap (i / 8)),
                same_bit i j,
              ))
        ]))
