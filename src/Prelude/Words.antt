-- ===== src/Prelude/Words.antt =====
-- `uint32_t` arithmetic with its wrap-around.
use Prim.Native.Nat.{ℕ, ◌+◌, ◌-◌, ◌*◌, ◌%◌, ◌^◌}

abbrev pub word : ℕ
word = 2 ^ 32

abbrev pub add32 : ℕ → ℕ → ℕ
add32 a b = (a + b) % word

abbrev pub sub32 : ℕ → ℕ → ℕ
sub32 a b = (a + word - b) % word

abbrev pub mul32 : ℕ → ℕ → ℕ
mul32 a b = a * b % word

abbrev pub page_size : ℕ
page_size = 4096
