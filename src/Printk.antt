-- ===== src/Printk.antt =====
-- src/kernel/core/printk.c: the numbers and the padding of `vprintk`. A character is its ASCII code,
-- and what a function sends to the serial port or writes to its buffer is the list of its
-- characters.
pub mod Digits
mod Tests
use my_microkernel.Prelude.{
  ℕ, zero, suc, ◌+◌, ◌-◌, ◌*◌, ◌/◌, ◌%◌, ◌^◌, Bool, true, false, not, ◌&&◌, ◌||◌, ltb, leb, ◌==◌,
  if◌then◌else◌, word, sub32, bit_and, List, [], ◌∷◌, ◌++◌,
}

-- `is_digit`
pub is_digit : ℕ → Bool
is_digit c = leb 48 c && leb c 57

-- `cstr_len`
pub cstr_len : List ℕ → ℕ
cstr_len [] = 0
cstr_len (c ∷ cs) = 1 + cstr_len cs

-- `serial_putn`
pub serial_putn : ℕ → ℕ → List ℕ
serial_putn ch zero = []
serial_putn ch (suc n) = ch ∷ serial_putn ch n

-- `serial_write_padded`, for a width that is not negative.
pub serial_write_padded : (s : List ℕ) (width : ℕ) (left_align : Bool) (pad : ℕ) → List ℕ
serial_write_padded s width left_align pad =
    let len = cstr_len s in
    let padding = if ltb len width then width - len else 0 in
    if left_align then s ++ serial_putn 32 padding else serial_putn pad padding ++ s

-- The first loop of `fmt_u32_dec` and of `fmt_u32_hex`: the digits, the lowest first, at most `n` of
-- them, as many as `tmp` has room for.
pub low_digits : (radix : ℕ) → (value n : ℕ) → List ℕ
low_digits radix value zero = []
low_digits radix value (suc n) =
    let rest = low_digits radix (value / radix) n in if value == 0 then [] else value % radix ∷ rest

-- The second loop, which copies `tmp` from its end.
pub copy_back : List ℕ → List ℕ → List ℕ
copy_back [] out = out
copy_back (c ∷ tmp) out = copy_back tmp (c ∷ out)

-- `'0' + digit` and `hex[digit]`
pub digit_char : ℕ → ℕ
digit_char d = if ltb d 10 then 48 + d else 87 + d

pub chars : List ℕ → List ℕ
chars [] = []
chars (d ∷ ds) = digit_char d ∷ chars ds

-- `fmt_u32_dec`
pub fmt_u32_dec : ℕ → List ℕ
fmt_u32_dec value = if value == 0 then 48 ∷ [] else copy_back (chars (low_digits 10 value 10)) []

-- `fmt_int_dec`, for the word of an `int`.
pub fmt_int_dec : ℕ → List ℕ
fmt_int_dec value =
    if leb (2 ^ 31) value then 45 ∷ fmt_u32_dec (sub32 0 value) else fmt_u32_dec value

-- `fmt_u32_hex`: `value & 0xF` and `value >>= 4` are the digit and the quotient by 16.
pub fmt_u32_hex : ℕ → List ℕ
fmt_u32_hex value = if value == 0 then 48 ∷ [] else copy_back (chars (low_digits 16 value 8)) []

-- `print_hex_u32_width`, from digit `n - 1` down.
pub hex_from : ℕ → ℕ → List ℕ
hex_from num zero = []
hex_from num (suc n) = digit_char (bit_and (num / 2 ^ (n * 4)) 0xF) ∷ hex_from num n

pub print_hex_u32_width : (num width : ℕ) → List ℕ
print_hex_u32_width num width =
    let w1 = if width == 0 then 1 else width in hex_from num (if ltb 8 w1 then 8 else w1)
