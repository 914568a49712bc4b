-- ===== src/Prelude/Bits.antt =====
-- Laws of `&`, `|` and `^` on variables. `digit k v` is bit `k` of `v`.
use Prim.Native.Nat.{ℕ, zero, suc, ◌+◌, ◌-◌, ◌*◌, ◌/◌, ◌%◌, ◌^◌, ◌≤◌, ◌<◌, min, max}
use Prim.Native.Nat.{
  differ, bit_and, bit_or, bit_xor, bit_and-bitwise, bit_or-bitwise, bit_xor-bitwise,
}
use mathlib.Core.Path.{◌≡◌, refl, ap, sym, ◌∙◌}
use mathlib.Core.Logic.{◌⊎◌}
use native.Mathlib.Nat.{
  pow-suc, one-le-pow, div-add-mod, mod-lt, mod-eq_of_lt, add-mul-mod_self_right,
}
use native.Mathlib.Omega.{arith}
use my_microkernel.Prelude.Tests.{◌==◌, if◌then◌else◌}
use my_microkernel.Prelude.Digits.{bitwise_step}

pub or_step : (a b : ℕ) → bit_or a b ≡ bit_or (a / 2) (b / 2) * 2 + max (a % 2) (b % 2)
or_step zero b = simp bit_or-bitwise (omega arith)
or_step (suc a) b = simp bit_or-bitwise (bitwise_step (λ y. y) max a b)

pub and_step : (a b : ℕ) → bit_and a b ≡ bit_and (a / 2) (b / 2) * 2 + min (a % 2) (b % 2)
and_step zero b = simp bit_and-bitwise (omega arith)
and_step (suc a) b = simp bit_and-bitwise (bitwise_step (λ y. 0) min a b)

pub digit : ℕ → ℕ → ℕ
digit zero v = v % 2
digit (suc k) v = digit k (v / 2)

pub digit-le : (k v : ℕ) → digit k v ≤ 1
unfolding digit
digit-le zero v = omega arith
digit-le (suc k) v = digit-le k (v / 2)

pub digit-bit_or : (k a b : ℕ) → digit k (bit_or a b) ≡ max (digit k a) (digit k b)
unfolding digit
digit-bit_or zero a b = omega (arith, or_step a b)
digit-bit_or (suc k) a b =
    let e : bit_or a b / 2 ≡ bit_or (a / 2) (b / 2) = omega (arith, or_step a b) in
    rw e (digit-bit_or k (a / 2) (b / 2))

pub digit-bit_and : (k a b : ℕ) → digit k (bit_and a b) ≡ min (digit k a) (digit k b)
unfolding digit
digit-bit_and zero a b = omega (arith, and_step a b)
digit-bit_and (suc k) a b =
    let e : bit_and a b / 2 ≡ bit_and (a / 2) (b / 2) = omega (arith, and_step a b) in
    rw e (digit-bit_and k (a / 2) (b / 2))

digit-zero : (k : ℕ) → digit k 0 ≡ 0
unfolding digit
digit-zero zero = refl
digit-zero (suc k) = digit-zero k

-- `1 << m` has the one digit `m`.
pub digit-pow : (k m : ℕ) → digit k (2 ^ m) ≡ (if k == m then 1 else 0)
unfolding digit
digit-pow zero zero = refl
digit-pow zero (suc m) = ground (arith, pow-suc 2 m)
digit-pow (suc k) zero = ground (arith, digit-zero k)
digit-pow (suc k) (suc m) =
    let e : 2 ^ suc m / 2 ≡ 2 ^ m = omega (arith, pow-suc 2 m) in
    rw e (ground (arith, digit-pow k m))

-- `~v` in `w` bits.
pub digit_complement : (w k v : ℕ) → k < w → v < 2 ^ w → digit k (2 ^ w - 1 - v) ≡ 1 - digit k v
unfolding digit
digit_complement zero k v p h = absurd (omega arith)
digit_complement (suc w) zero v p h = omega (arith, pow-suc 2 w)
digit_complement (suc w) (suc k) v p h =
    let e : (2 ^ suc w - 1 - v) / 2 ≡ 2 ^ w - 1 - v / 2 = omega (arith, pow-suc 2 w) in
    rw e (digit_complement w k (v / 2) (omega arith) (omega (arith, pow-suc 2 w)))

pub zero-and : (b : ℕ) → bit_and 0 b ≡ 0
zero-and b = bit_and-bitwise 0 b

and-zero_below : (n a : ℕ) → a ≤ n → bit_and a 0 ≡ 0
and-zero_below n zero h = zero-and 0
and-zero_below zero (suc a) h = absurd (omega arith)
and-zero_below (suc n) (suc a) h =
    omega (arith, and_step (suc a) 0, and-zero_below n (suc a / 2) (omega arith))

pub and-zero : (a : ℕ) → bit_and a 0 ≡ 0
and-zero a = and-zero_below a a (omega arith)

or-zero_below : (n a : ℕ) → a ≤ n → bit_or a 0 ≡ a
or-zero_below n zero h = refl
or-zero_below zero (suc a) h = absurd (omega arith)
or-zero_below (suc n) (suc a) h =
    omega (arith, or_step (suc a) 0, or-zero_below n (suc a / 2) (omega arith))

pub or-zero : (a : ℕ) → bit_or a 0 ≡ a
or-zero a = or-zero_below a a (omega arith)

-- `v & (1 << k)` is not zero exactly if the digit is 1.
pub and-pow : (k v : ℕ) → bit_and v (2 ^ k) ≡ digit k v * 2 ^ k
unfolding digit
and-pow zero v = omega (arith, and_step v 1, and-zero (v / 2))
and-pow (suc k) v =
    let e : 2 ^ suc k / 2 ≡ 2 ^ k = omega (arith, pow-suc 2 k) in
    let r : bit_and (v / 2) (2 ^ suc k / 2) ≡ digit k (v / 2) * 2 ^ k = rw e (and-pow k (v / 2)) in
    omega (
      arith,
      and_step v (2 ^ suc k),
      r,
      pow-suc 2 k,
      ap (λ (t : ℕ). digit k (v / 2) * t) (pow-suc 2 k),
    )

mod_fields : (m q s b : ℕ) → s < m → b < 2 → (s * 2 + b + q * (m * 2)) % (m * 2) ≡ s * 2 + b
mod_fields m q s b p h = omega (
  arith,
  add-mul-mod_self_right (s * 2 + b) q (m * 2),
  mod-eq_of_lt {n = s * 2 + b} {m = m * 2} (omega arith),
)

mod_halves : (m v : ℕ) → 0 < m → v % (m * 2) ≡ v / 2 % m * 2 + v % 2
mod_halves m v h =
    let split : v / 2 % m * 2 + v % 2 + v / 2 / m * (m * 2) ≡ v =
      omega (arith, div-add-mod (v / 2) m) in
    ap (λ t. t % (m * 2)) (sym split)
    ∙ mod_fields m (v / 2 / m) (v / 2 % m) (v % 2) (mod-lt (v / 2) h) (omega arith)

-- `v & (2^k - 1)`.
pub and-low_mask : (k v : ℕ) → bit_and v (2 ^ k - 1) ≡ v % 2 ^ k
and-low_mask zero v = omega (arith, and-zero v)
and-low_mask (suc k) v =
    let e : (2 ^ suc k - 1) / 2 ≡ 2 ^ k - 1 = omega (arith, pow-suc 2 k, one-le-pow k 2) in
    let r : bit_and (v / 2) ((2 ^ suc k - 1) / 2) ≡ v / 2 % 2 ^ k = rw e (and-low_mask k (v / 2)) in
    let h : v % 2 ^ suc k ≡ v / 2 % 2 ^ k * 2 + v % 2 =
      rw (pow-suc 2 k) (mod_halves (2 ^ k) v (one-le-pow k 2 (omega arith))) in
    omega (arith, and_step v (2 ^ suc k - 1), r, h, pow-suc 2 k, one-le-pow k 2)

shift_half : (q k r : ℕ) → (q * 2 ^ suc k + r) / 2 ≡ q * 2 ^ k + r / 2
shift_half q k r = omega (arith, ap (λ (t : ℕ). q * t) (pow-suc 2 k))

shift_even : (q k r : ℕ) → (q * 2 ^ suc k + r) % 2 ≡ r % 2
shift_even q k r = omega (arith, ap (λ (t : ℕ). q * t) (pow-suc 2 k))

pub shift_twice : (q k : ℕ) → q * 2 ^ suc k ≡ q * 2 ^ k * 2
shift_twice q k = omega (arith, ap (λ (t : ℕ). q * t) (pow-suc 2 k))

-- A mask whose low `k` digits are zero cuts them off: `v & (m << k)`.
pub and-high_mask :
    (k q r m : ℕ) → r < 2 ^ k → bit_and (q * 2 ^ k + r) (m * 2 ^ k) ≡ bit_and q m * 2 ^ k
and-high_mask zero q r m h = ground arith
and-high_mask (suc k) q r m h =
    let a = shift_half q k r in
    let b : m * 2 ^ suc k / 2 ≡ m * 2 ^ k = omega (arith, shift_twice m k) in
    let s = and_step (q * 2 ^ suc k + r) (m * 2 ^ suc k) in
    let i = and-high_mask k q (r / 2) m (omega (arith, pow-suc 2 k)) in
    omega (arith, rw (a, b) at s, i, shift_twice m k, shift_twice (bit_and q m) k)

-- `(q << k) | r` is a sum if `r` fits into `k` bits.
pub or_fields : (k q r : ℕ) → r < 2 ^ k → bit_or (q * 2 ^ k) r ≡ q * 2 ^ k + r
or_fields zero q r h = ground (arith, or-zero q)
or_fields (suc k) q r h =
    let a : q * 2 ^ suc k / 2 ≡ q * 2 ^ k = omega (arith, shift_twice q k) in
    let s = or_step (q * 2 ^ suc k) r in
    let i = or_fields k q (r / 2) (omega (arith, pow-suc 2 k)) in
    omega (arith, rw a at s, i, shift_twice q k)

zero-xor : (b : ℕ) → bit_xor 0 b ≡ b
zero-xor b = bit_xor-bitwise 0 b

pub xor_step : (a b : ℕ) → bit_xor a b ≡ bit_xor (a / 2) (b / 2) * 2 + differ (a % 2) (b % 2)
xor_step zero b = simp zero-xor (omega arith)
xor_step (suc a) b = simp bit_xor-bitwise (bitwise_step (λ y. y) differ a b)

differ_bit : (a : ℕ) → a < 2 → (differ a 0 ≡ a) × (differ a 1 ≡ 1 - a)
differ_bit zero h = (refl, refl)
differ_bit (suc zero) h = (refl, refl)
differ_bit (suc (suc a)) h = absurd (omega arith)

xor-zero_below : (n a : ℕ) → a ≤ n → bit_xor a 0 ≡ a
xor-zero_below n zero h = zero-xor 0
xor-zero_below zero (suc a) h = absurd (omega arith)
xor-zero_below (suc n) (suc a) h = omega (
  arith,
  xor_step (suc a) 0,
  xor-zero_below n (suc a / 2) (omega arith),
  (differ_bit (suc a % 2) (omega arith)).0,
)

-- The other half of a pair: the even neighbour of an odd number, the odd one of an even one.
pub partner : ℕ → ℕ
partner q = if q % 2 == 0 then q + 1 else q - 1

-- `(q << k) ^ (1 << k)`.
pub xor-pow : (k q : ℕ) → bit_xor (q * 2 ^ k) (2 ^ k) ≡ partner q * 2 ^ k
unfolding partner
xor-pow zero q = ground (arith, xor_step q 1, xor-zero_below (q / 2) (q / 2), differ_bit (q % 2))
xor-pow (suc k) q =
    let a : q * 2 ^ suc k / 2 ≡ q * 2 ^ k = omega (arith, shift_twice q k) in
    let b : 2 ^ suc k / 2 ≡ 2 ^ k = omega (arith, pow-suc 2 k) in
    let s = xor_step (q * 2 ^ suc k) (2 ^ suc k) in
    let d : differ (q * 2 ^ suc k % 2) (2 ^ suc k % 2) ≡ 0 =
      let e : q * 2 ^ suc k % 2 ≡ 0 = omega (arith, shift_twice q k) in
      let f : 2 ^ suc k % 2 ≡ 0 = omega (arith, pow-suc 2 k) in rw (e, f) in
    omega (arith, rw (a, b) at s, xor-pow k q, d, shift_twice (partner q) k)

-- `(q << k) & ~(1 << k)` in `w` bits.
pub and-clear_bit :
    (k w q : ℕ)
    → k < w
    → q * 2 ^ k < 2 ^ w
    → bit_and (q * 2 ^ k) (2 ^ w - 1 - 2 ^ k) ≡ q / 2 * 2 ^ suc k
and-clear_bit k zero q h s = absurd (omega arith)
and-clear_bit zero (suc w) q h s =
    let e : (2 ^ suc w - 1 - 1) / 2 ≡ 2 ^ w - 1 =
      omega (arith, pow-suc 2 w, one-le-pow w 2 (omega arith)) in
    let a : bit_and (q / 2) ((2 ^ suc w - 1 - 1) / 2) ≡ q / 2 % 2 ^ w =
      rw e (and-low_mask w (q / 2)) in
    let c : q / 2 % 2 ^ w ≡ q / 2 = mod-eq_of_lt (omega (arith, pow-suc 2 w)) in
    let d : bit_and (q * 2 ^ 0) (2 ^ suc w - 1 - 2 ^ 0) ≡ bit_and q (2 ^ suc w - 1 - 1) =
      ap (λ t. bit_and t (2 ^ suc w - 1 - 1)) (omega arith) in
    omega
      (arith, and_step q (2 ^ suc w - 1 - 1), a, c, d, pow-suc 2 w, one-le-pow w 2 (omega arith))
and-clear_bit (suc k) (suc w) q h s =
    let a : q * 2 ^ suc k / 2 ≡ q * 2 ^ k = omega (arith, shift_twice q k) in
    let b : (2 ^ suc w - 1 - 2 ^ suc k) / 2 ≡ 2 ^ w - 1 - 2 ^ k =
      omega (arith, pow-suc 2 w, pow-suc 2 k) in
    let i = and-clear_bit k w q (omega arith) (omega (arith, shift_twice q k, pow-suc 2 w)) in
    let t = and_step (q * 2 ^ suc k) (2 ^ suc w - 1 - 2 ^ suc k) in
    omega (arith, rw (a, b) at t, i, shift_twice q k, shift_twice (q / 2) (suc k))

pub partner_cases :
    (q : ℕ) → ((q ≡ q / 2 * 2) × (partner q ≡ q + 1)) ⊎ ((q ≡ q / 2 * 2 + 1) × (partner q ≡ q - 1))
unfolding partner
partner_cases q = ground arith

-- Cutting a number to `w` bits keeps its digits below `w`.
pub digit-mod : (w k v : ℕ) → k < w → digit k (v % 2 ^ w) ≡ digit k v
unfolding digit
digit-mod zero k v h = absurd (omega arith)
digit-mod (suc w) zero v h =
    let e : v % 2 ^ suc w ≡ v / 2 % 2 ^ w * 2 + v % 2 =
      rw (pow-suc 2 w) (mod_halves (2 ^ w) v (one-le-pow w 2 (omega arith))) in
    omega (arith, e)
digit-mod (suc w) (suc k) v h =
    let e : v % 2 ^ suc w ≡ v / 2 % 2 ^ w * 2 + v % 2 =
      rw (pow-suc 2 w) (mod_halves (2 ^ w) v (one-le-pow w 2 (omega arith))) in
    let d : v % 2 ^ suc w / 2 ≡ v / 2 % 2 ^ w = omega (arith, e) in
    rw d (digit-mod w k (v / 2) (omega arith))

-- All ones.
pub digit_ones : (w k : ℕ) → k < w → digit k (2 ^ w - 1) ≡ 1
digit_ones w k h =
    let c = digit_complement w k 0 h (one-le-pow w 2 (omega arith)) in
    ap (λ t. digit k t) (omega arith) ∙ (rw (digit-zero k) at c)
