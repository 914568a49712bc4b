-- ===== src/Keyboard.antt =====
-- src/kernel/drivers/keyboard.c: scancodes become characters in a ring buffer, which the shell
-- empties. A character is its ASCII code. The reading of the port and the waiting of
-- `keyboard_getc` are left out.
pub mod Ring
mod Tests
use my_microkernel.Prelude.{
  ℕ, zero, suc, ◌+◌, ◌-◌, ◌*◌, ◌/◌, ◌%◌, Bool, true, false, not, ◌&&◌, ◌||◌, Option, none, some,
  ltb, leb, ◌==◌, if◌then◌else◌, update, bit_and, List, [], ◌∷◌,
}

abbrev pub buf_size : ℕ
buf_size = 128

-- The static variables: the ring with its two indices, and the state of the decoder.
pub record Keyboard : Type 0 where
  pub buf : ℕ → ℕ
  pub head : ℕ
  pub tail : ℕ
  pub shift_down : ℕ
  pub e0_prefix : ℕ

-- `kbd_buf_put`
pub buf_put : Keyboard → ℕ → Keyboard
buf_put s c =
    let next = (s.head + 1) % buf_size in
    if next == s.tail then s else record s { buf = update s.buf s.head c; head = next }

-- `kbd_buf_get`, for a pointer that is not NULL; none for 0.
pub buf_get : Keyboard → Keyboard × Option ℕ
buf_get s =
    if s.tail == s.head
    then (s, none)
    else (record s { tail = (s.tail + 1) % buf_size }, some (s.buf s.tail))

-- The element of a table, 0 past the initialisers.
pub lookup : List ℕ → ℕ → ℕ
lookup [] i = 0
lookup (c ∷ cs) zero = c
lookup (c ∷ cs) (suc i) = lookup cs i

-- `scancode_map` and `scancode_map_shift`
abbrev pub scancode_map : List ℕ
scancode_map =
    0 ∷ 0 ∷ 49 ∷ 50 ∷ 51 ∷ 52 ∷ 53 ∷ 54 ∷ 55 ∷ 56 ∷ 57 ∷ 48 ∷ 45 ∷ 61 ∷ 8 ∷ 9 ∷ 113 ∷ 119 ∷ 101
    ∷ 114 ∷ 116 ∷ 121 ∷ 117 ∷ 105 ∷ 111 ∷ 112 ∷ 91 ∷ 93 ∷ 10 ∷ 0 ∷ 97 ∷ 115 ∷ 100 ∷ 102 ∷ 103 ∷ 104
    ∷ 106 ∷ 107 ∷ 108 ∷ 59 ∷ 39 ∷ 96 ∷ 0 ∷ 92 ∷ 122 ∷ 120 ∷ 99 ∷ 118 ∷ 98 ∷ 110 ∷ 109 ∷ 44 ∷ 46 ∷ 47
    ∷ 0 ∷ 0 ∷ 0 ∷ 32 ∷ []

abbrev pub scancode_map_shift : List ℕ
scancode_map_shift =
    0 ∷ 0 ∷ 33 ∷ 64 ∷ 35 ∷ 36 ∷ 37 ∷ 94 ∷ 38 ∷ 42 ∷ 40 ∷ 41 ∷ 95 ∷ 43 ∷ 8 ∷ 9 ∷ 81 ∷ 87 ∷ 69 ∷ 82
    ∷ 84 ∷ 89 ∷ 85 ∷ 73 ∷ 79 ∷ 80 ∷ 123 ∷ 125 ∷ 10 ∷ 0 ∷ 65 ∷ 83 ∷ 68 ∷ 70 ∷ 71 ∷ 72 ∷ 74 ∷ 75 ∷ 76
    ∷ 58 ∷ 34 ∷ 126 ∷ 0 ∷ 124 ∷ 90 ∷ 88 ∷ 67 ∷ 86 ∷ 66 ∷ 78 ∷ 77 ∷ 60 ∷ 62 ∷ 63 ∷ 0 ∷ 0 ∷ 0 ∷ 32
    ∷ []

-- `keyboard_handle_scancode`
pub handle_scancode : Keyboard → ℕ → Keyboard
handle_scancode s sc =
    let released = not (bit_and sc 0x80 == 0) in
    let code = bit_and sc 0x7F in
    let ch =
      if s.shift_down == 0 then lookup scancode_map code else lookup scancode_map_shift code in
    if sc == 0xE0
    then record s { e0_prefix = 1 }
    else if not (s.e0_prefix == 0)
    then record s { e0_prefix = 0 }
    else if code == 0x2A || code == 0x36
    then record s { shift_down = if released then 0 else 1 }
    else if released
    then s
    else if ltb code 0x40
    then if ch == 0 then s else buf_put s ch
    else s

-- `keyboard_try_getc`
pub try_getc : Keyboard → Keyboard × Option ℕ
try_getc s = buf_get s
