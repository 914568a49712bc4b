-- ===== src/Syscall/Tests.antt =====
-- A table with a handler of its own, and a write of three bytes.
use my_microkernel.Prelude.{ℕ, ◌≡◌, refl, ◌==◌, none, some, if◌then◌else◌, [], ◌∷◌}
use my_microkernel.Syscall.{
  Regs, Handler, Syscall, minus_enosys, sys_exit, sys_write, sys_brk, print_bytes, call, dispatch,
  init,
}
use my_microkernel.Syscall.Table.{dispatch-init}

abbrev answer : Handler
answer regs w = (w, some 42)

abbrev start : Syscall
start = record {
  table = λ i. some answer;
  ops = none;
  ready = 0;
  world = record { memory = λ a. a; output = [] };
}

abbrev args : (nr : ℕ) → Regs
args nr = record { nr = nr; arg1 = 1; arg2 = 65; arg3 = 3; arg4 = 0; arg5 = 0 }

written : (sys_write (args 4) start.world).0.output ≡ 65 ∷ 66 ∷ 67 ∷ []
unfolding sys_write print_bytes
written = refl

abbrev seven : ℕ
seven = 7

-- A back end whose initialisation prints a byte.
abbrev loud : Syscall
loud = record start {
  ops = some (record { name = 0x101000; init = λ w. record w { output = 33 ∷ w.output } });
}

dispatch-init_example :
    (dispatch (init loud) (some (args 4)) ≡ (
      if 4 == 1
      then call (init loud) (args 4) (some sys_exit)
      else if 4 == 4
      then call (init loud) (args 4) (some sys_write)
      else if 4 == 45
      then call (init loud) (args 4) (some sys_brk)
      else (init loud, some minus_enosys)))
    × ((init loud).world ≡ record start.world { output = 33 ∷ [] })
    × ((init loud).ops ≡ loud.ops)
    × ((init loud).ready ≡ 1)
dispatch-init_example = dispatch-init loud (args 4)
