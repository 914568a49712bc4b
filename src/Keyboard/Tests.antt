-- ===== src/Keyboard/Tests.antt =====
-- The ring after the keys `h` and shift-`i`.
use my_microkernel.Prelude.{◌≡◌, refl, arith, if◌then◌else◌, ◌==◌, [], ◌∷◌, ◌++◌}
use my_microkernel.Keyboard.{Keyboard, buf_put, try_getc, handle_scancode, lookup}
use my_microkernel.Keyboard.Ring.{
  IsValid, size, waiting, Takes, waiting-buf_put, try_getc-Takes, handle_scancode-IsValid, read,
}

abbrev start : Keyboard
start = record { buf = λ i. 0; head = 126; tail = 126; shift_down = 0; e0_prefix = 0 }

start-IsValid : IsValid start
start-IsValid = record { head_in = omega arith; tail_in = omega arith }

abbrev typed : Keyboard
typed = handle_scancode (handle_scancode (handle_scancode start 0x23) 0x2A) 0x17

typed-IsValid : IsValid typed
typed-IsValid =
    let one = handle_scancode-IsValid start 0x23 start-IsValid in
    handle_scancode-IsValid (handle_scancode (handle_scancode start 0x23) 0x2A) 0x17
      (handle_scancode-IsValid (handle_scancode start 0x23) 0x2A one)

waiting-typed : waiting typed ≡ 104 ∷ 73 ∷ []
unfolding handle_scancode buf_put lookup waiting size read
waiting-typed = refl

waiting-buf_put_example :
    waiting (buf_put typed 10)
    ≡ (if size typed == 127 then waiting typed else waiting typed ++ (10 ∷ []))
waiting-buf_put_example = waiting-buf_put typed 10 typed-IsValid

try_getc-Takes_example : Takes typed (try_getc typed)
try_getc-Takes_example = try_getc-Takes typed typed-IsValid
