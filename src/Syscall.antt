-- ===== src/Syscall.antt =====
-- src/kernel/core/syscall.c: the table of system calls. A pointer to a function is the function, and a
-- handler that never returns gives none. Messages to the log are left out; what sys_write prints is the
-- output. -1 and -ENOSYS are the 32-bit words that hold them.
pub mod Table
pub mod Output
mod Tests
use my_microkernel.Prelude.{
  ℕ, zero, suc, ◌+◌, ◌-◌, ◌==◌, Bool, true, false, not, ◌&&◌, ◌||◌, Option, none, some, List, [],
  ◌∷◌, ◌++◌, ltb, leb, if◌then◌else◌, update, add32, word, Status, ok, fail,
}

-- `syscall_regs_t`
pub record Regs : Type 0 where
  pub nr : ℕ
  pub arg1 : ℕ
  pub arg2 : ℕ
  pub arg3 : ℕ
  pub arg4 : ℕ
  pub arg5 : ℕ

-- What handlers work on: the memory, by bytes, and the characters printed.
pub record World : Type 0 where
  pub memory : ℕ → ℕ
  pub output : List ℕ

-- `syscall_handler_t`
abbrev pub Handler : Type 0
Handler = Regs → World → World × Option ℕ

-- `syscall_ops_t`. The name is a pointer.
pub record SyscallOps : Type 0 where
  pub name : ℕ
  pub init : World → World

-- The static variables, none for NULL, and the world.
pub record Syscall : Type 0 where
  pub table : ℕ → Option Handler
  pub ops : Option SyscallOps
  pub ready : ℕ
  pub world : World

-- `SYS_EXIT`, `SYS_WRITE`, `SYS_BRK`, `SYSCALL_MAX`
abbrev pub sys_exit_nr : ℕ
sys_exit_nr = 1

abbrev pub sys_write_nr : ℕ
sys_write_nr = 4

abbrev pub sys_brk_nr : ℕ
sys_brk_nr = 45

abbrev pub syscall_max : ℕ
syscall_max = 256

-- `-ENOSYS` and `-1`
abbrev pub minus_enosys : ℕ
minus_enosys = word - 38

abbrev pub minus_one : ℕ
minus_one = word - 1

-- `sys_exit`: it halts for good.
pub sys_exit : Handler
sys_exit regs w = (w, none)

-- The loop of `sys_write` from the byte `i` on, `n` of them.
pub print_bytes : World → (buf i n : ℕ) → World
print_bytes w buf i zero = w
print_bytes w buf i (suc n) =
    print_bytes (record w { output = w.output ++ (w.memory (add32 buf i) ∷ []) }) buf (i + 1) n

-- `sys_write`
pub sys_write : Handler
sys_write regs w =
    let fd = regs.arg1 in
    let buf = regs.arg2 in
    let count = if ltb 4096 regs.arg3 then 4096 else regs.arg3 in
    if not (fd == 1) && not (fd == 2)
    then (w, some minus_one)
    else if leb 0xC0000000 buf
    then (w, some minus_one)
    else (print_bytes w buf 0 count, some count)

-- `sys_brk`
pub sys_brk : Handler
sys_brk regs w = (w, some 0x00400000)

-- `syscall_register_backend`
pub register_backend : Syscall → Option SyscallOps → Syscall
register_backend s ops = record s { ops = ops }

-- `syscall_backend_name`, 0 for NULL.
pub backend_name : Syscall → ℕ
backend_name s = elim s.ops [ none ↦ 0 | some o ↦ o.name ]

-- `syscall_is_ready`
pub is_ready : Syscall → ℕ
is_ready s = s.ready

-- `syscall_register`
pub register : Syscall → (nr : ℕ) → Option Handler → Syscall × Status
register s nr handler =
    if nr == 0 || leb syscall_max nr
    then (s, fail)
    else (record s { table = update s.table nr handler }, ok)

-- The call of the handler in the table.
pub call : Syscall → Regs → Option Handler → Syscall × Option ℕ
call s regs none = (s, some minus_enosys)
call s regs (some h) = let (w, r) = h regs s.world in (record s { world = w }, r)

-- `syscall_dispatch`, none for a NULL pointer.
pub dispatch : Syscall → Option Regs → Syscall × Option ℕ
dispatch s none = (s, some minus_enosys)
dispatch s (some regs) =
    if leb syscall_max regs.nr then (s, some minus_enosys) else call s regs (s.table regs.nr)

-- The loop of `syscall_init` that clears the table, from the slot `i` on, `n` of them.
pub clear_table : (ℕ → Option Handler) → (i n : ℕ) → ℕ → Option Handler
clear_table t i zero = t
clear_table t i (suc n) = clear_table (update t i none) (i + 1) n

-- The three calls of `syscall_register` in `syscall_init`.
pub register_builtins : Syscall → Syscall
register_builtins s =
    let s1 = (register s sys_exit_nr (some sys_exit)).0 in
    let s2 = (register s1 sys_write_nr (some sys_write)).0 in
    (register s2 sys_brk_nr (some sys_brk)).0

-- The initialisation of the back end.
pub start_backend : Option SyscallOps → World → World
start_backend none w = w
start_backend (some o) w = o.init w

-- `syscall_init`
pub init : Syscall → Syscall
init s =
    let s1 = record s { table = clear_table s.table 0 syscall_max } in
    let s2 = register_builtins s1 in record s2 { world = start_backend s2.ops s2.world; ready = 1 }
