-- ===== src/Printk/Tests.antt =====
-- Numbers as `printk` prints them.
use my_microkernel.Prelude.{◌≡◌, refl, arith, [], ◌∷◌}
use my_microkernel.Printk.{fmt_u32_dec, fmt_u32_hex, low_digits, copy_back, chars, digit_char}
use my_microkernel.Printk.Digits.{spelled, fmt_u32_hex-spelled}

three_digits : fmt_u32_dec 502 ≡ 53 ∷ 48 ∷ 50 ∷ []
unfolding fmt_u32_dec low_digits copy_back chars digit_char
three_digits = refl

fmt_u32_hex-spelled_example : spelled 16 0 (fmt_u32_hex 0xDEADBEEF) ≡ 0xDEADBEEF
fmt_u32_hex-spelled_example = fmt_u32_hex-spelled 0xDEADBEEF (omega arith)
