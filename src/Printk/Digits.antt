-- ===== src/Printk/Digits.antt =====
-- Reading back the numbers that `printk` formats.
use my_microkernel.Prelude.{
  ℕ, zero, suc, ◌+◌, ◌-◌, ◌*◌, ◌/◌, ◌%◌, ◌^◌, ◌≤◌, ◌<◌, ◌≡◌, refl, sym, ap, ◌∙◌, arith, Bool, true,
  false, ltb, leb, ◌==◌, if◌then◌else◌, bit_and, List, [], ◌∷◌, ◌++◌, Bool-cases, inl, inr,
  and-low_mask, sub32, max,
}
use my_microkernel.Printk.{
  digit_char, chars, low_digits, copy_back, fmt_u32_dec, fmt_int_dec, fmt_u32_hex, hex_from,
  print_hex_u32_width, cstr_len, serial_putn, serial_write_padded,
}
use native.Mathlib.Nat.{
  pow-suc, one-le-pow, div-add-mod, mod-lt, mod-eq_of_lt, add-mul-mod_self_right,
}

-- The digit that a character stands for, and the number that characters spell, most significant
-- first, after the number `n`.
pub char_digit : ℕ → ℕ
char_digit c = if ltb c 58 then c - 48 else c - 87

unfoldable pub spelled : (radix n : ℕ) → List ℕ → ℕ
spelled radix n [] = n
spelled radix n (c ∷ cs) = spelled radix (n * radix + char_digit c) cs

char-digit : (d : ℕ) → d < 16 → char_digit (digit_char d) ≡ d
unfolding char_digit digit_char
char-digit d h = ground arith

-- The number whose digits are given lowest first, times a scale, plus what is spelled already.
spelled-copy_back_dec :
    (value n : ℕ) (out : List ℕ)
    → value < 10 ^ n
    → spelled 10 0 (copy_back (chars (low_digits 10 value n)) out) ≡ spelled 10 value out
unfolding copy_back chars low_digits
spelled-copy_back_dec value zero out h = ap (λ (t : ℕ). spelled 10 t out) (omega arith)
spelled-copy_back_dec value (suc n) out h = elim (Bool-cases (value == 0)) [
  | inl z ↦ rw z (ap (λ (t : ℕ). spelled 10 t out) (ground arith))
  | inr nz ↦
      let c = digit_char (value % 10) in
      let next : spelled 10 (value / 10) (c ∷ out) ≡ spelled 10 value out =
        unfold spelled in
        (ap (λ (t : ℕ). spelled 10 t out) (omega (arith, char-digit (value % 10) (omega arith)))) in
      rw nz (spelled-copy_back_dec (value / 10) n (c ∷ out) (omega (arith, pow-suc 10 n)) ∙ next)
]

spelled-copy_back_hex :
    (value n : ℕ) (out : List ℕ)
    → value < 16 ^ n
    → spelled 16 0 (copy_back (chars (low_digits 16 value n)) out) ≡ spelled 16 value out
unfolding copy_back chars low_digits
spelled-copy_back_hex value zero out h = ap (λ (t : ℕ). spelled 16 t out) (omega arith)
spelled-copy_back_hex value (suc n) out h = elim (Bool-cases (value == 0)) [
  | inl z ↦ rw z (ap (λ (t : ℕ). spelled 16 t out) (ground arith))
  | inr nz ↦
      let c = digit_char (value % 16) in
      let next : spelled 16 (value / 16) (c ∷ out) ≡ spelled 16 value out =
        unfold spelled in
        (ap (λ (t : ℕ). spelled 16 t out) (omega (arith, char-digit (value % 16) (omega arith)))) in
      rw nz (spelled-copy_back_hex (value / 16) n (c ∷ out) (omega (arith, pow-suc 16 n)) ∙ next)
]

-- For a 32-bit value, the characters that `%u` prints spell the value in decimal: the ten places of
-- the buffer are enough.
pub fmt_u32_dec-spelled : (value : ℕ) → value < 2 ^ 32 → spelled 10 0 (fmt_u32_dec value) ≡ value
unfolding fmt_u32_dec spelled char_digit
fmt_u32_dec-spelled value h = elim (Bool-cases (value == 0)) [
  | inl z ↦ rw z (ground arith)
  | inr nz ↦ rw nz (spelled-copy_back_dec value 10 [] (omega arith))
]

-- For a 32-bit value, the characters that `%x` prints spell the value in hexadecimal.
pub fmt_u32_hex-spelled : (value : ℕ) → value < 2 ^ 32 → spelled 16 0 (fmt_u32_hex value) ≡ value
unfolding fmt_u32_hex spelled char_digit
fmt_u32_hex-spelled value h = elim (Bool-cases (value == 0)) [
  | inl z ↦ rw z (ground arith)
  | inr nz ↦ rw nz (spelled-copy_back_hex value 8 [] (omega arith))
]

pow_quarter : (n : ℕ) → 2 ^ (n * 4) ≡ 16 ^ n
pow_quarter zero = refl
pow_quarter (suc n) =
    let e : suc n * 4 ≡ suc (suc (suc (suc (n * 4)))) = omega arith in
    rw (e) (
      omega (
        arith,
        pow_quarter n,
        pow-suc 2 (n * 4),
        pow-suc 2 (suc (n * 4)),
        pow-suc 2 (suc (suc (n * 4))),
        pow-suc 2 (suc (suc (suc (n * 4)))),
        pow-suc 16 n,
      ))

-- The lowest `n + 1` digits are the digit `n` and the `n` below it.
mod_digits : (num n : ℕ) → num % 16 ^ suc n ≡ num / 16 ^ n % 16 * 16 ^ n + num % 16 ^ n
mod_digits num n =
    let m = 16 ^ n in
    let q = num / m in
    let x = q % 16 * m + num % m in
    let pos : 1 ≤ m = one-le-pow n 16 (omega arith) in
    let r : num % m < m = mod-lt num pos in
    let small : x < m * 16 = omega (arith, r, mul_le (q % 16) m (omega arith)) in
    let split : x + q / 16 * (m * 16) ≡ num =
      omega (arith, div-add-mod num m, ap (λ (t : ℕ). t * m) (div-add-mod q 16)) in
    let p : 16 ^ suc n ≡ m * 16 = omega (arith, pow-suc 16 n) in
    ap (λ (t : ℕ). num % t) p
    ∙ ap (λ (t : ℕ). t % (m * 16)) (sym split)
    ∙ add-mul-mod_self_right x (q / 16) (m * 16)
    ∙ mod-eq_of_lt small
  where
    mul_le : (d m : ℕ) → d < 16 → d * m + m ≤ m * 16
    mul_le d m h = let e : d + (15 - d) ≡ 15 = omega arith in omega (arith, ap (λ (t : ℕ). t * m) e)

-- `n` hexadecimal digits, after the number `a`.
hex_from-spelled : (num n a : ℕ) → spelled 16 a (hex_from num n) ≡ a * 16 ^ n + num % 16 ^ n
unfolding hex_from spelled
hex_from-spelled num zero a = omega arith
hex_from-spelled num (suc n) a =
    let d = num / 16 ^ n % 16 in
    let e : bit_and (num / 2 ^ (n * 4)) 15 ≡ d =
      rw (pow_quarter n) (and-low_mask 4 (num / 16 ^ n)) in
    rw (e, char-digit d (omega arith))
      (hex_from-spelled num n (a * 16 + d)
        ∙ omega (arith, mod_digits num n, ap (λ (t : ℕ). a * t) (pow-suc 16 n)))

-- For the word of an `int`, `%d` prints its magnitude in decimal, behind a minus sign exactly if it is negative: the
-- least `int` too.
pub fmt_int_dec-spelled :
    (value : ℕ)
    → value < 2 ^ 32
    → (value < 2 ^ 31 → spelled 10 0 (fmt_int_dec value) ≡ value)
      × (2 ^ 31 ≤ value
          → (t : List ℕ) × (fmt_int_dec value ≡ 45 ∷ t) × (spelled 10 0 t ≡ 2 ^ 32 - value))
unfolding fmt_int_dec
fmt_int_dec-spelled value h = (
  λ p. rw (small value p) (fmt_u32_dec-spelled value h),
  λ p. rw (large value p) (
    fmt_u32_dec (sub32 0 value),
    refl,
    fmt_u32_dec-spelled (sub32 0 value) (omega arith) ∙ omega arith,
  ),
)
  where
    small : (v : ℕ) → v < 2 ^ 31 → leb (2 ^ 31) v ≡ false
    small v p = ground arith

    large : (v : ℕ) → 2 ^ 31 ≤ v → leb (2 ^ 31) v ≡ true
    large v p = ground arith

putn-length : (ch n : ℕ) → cstr_len (serial_putn ch n) ≡ n
unfolding cstr_len serial_putn
putn-length ch zero = refl
putn-length ch (suc n) = omega (arith, putn-length ch n)

len-append : (s t : List ℕ) → cstr_len (s ++ t) ≡ cstr_len s + cstr_len t
unfolding cstr_len
len-append [] t = omega arith
len-append (c ∷ s) t = omega (arith, len-append s t)

-- A padded field has its width, or the length of its text if that is greater.
pub padded-length :
    (s : List ℕ) (width : ℕ) (left_align : Bool) (pad : ℕ)
    → cstr_len (serial_write_padded s width left_align pad) ≡ max (cstr_len s) width
unfolding serial_write_padded
padded-length s width true pad =
    let n = if ltb (cstr_len s) width then width - cstr_len s else 0 in
    ground (arith, len-append s (serial_putn 32 n), putn-length 32 n)
padded-length s width false pad =
    let n = if ltb (cstr_len s) width then width - cstr_len s else 0 in
    ground (arith, len-append (serial_putn pad n) s, putn-length pad n)

-- `%p` prints the eight hexadecimal digits that spell a 32-bit address.
pub print_hex_u32_width-spelled :
    (num : ℕ) → num < 2 ^ 32 → spelled 16 0 (print_hex_u32_width num 8) ≡ num
unfolding print_hex_u32_width
print_hex_u32_width-spelled num h = omega (arith, hex_from-spelled num 8 0)
