-- ===== src/Syscall/Table.antt =====
-- What the table of system calls holds.
use my_microkernel.Prelude.{
  ℕ, zero, suc, ◌+◌, ◌≤◌, ◌<◌, ◌≡◌, refl, sym, ap, ◌∙◌, arith, ◌==◌, true, false, ◌||◌, Option,
  none, some, leb, if◌then◌else◌, update, ok, fail, ◌⊎◌, inl, inr, Bool-cases, update_ne,
  update_self, ℕ_discrete,
}
use my_microkernel.Syscall.{
  Regs, Handler, World, SyscallOps, Syscall, syscall_max, minus_enosys, sys_exit, sys_write,
  sys_brk, register, call, dispatch, clear_table, register_builtins, init, start_backend,
}

out_of_range : (nr : ℕ) → (nr == 0 || leb syscall_max nr) ≡ true → (nr ≡ 0) ⊎ (syscall_max ≤ nr)
out_of_range nr e = elim (Bool-cases (nr == 0)) [
  | inl y ↦ inl (ground (arith, y))
  | inr z ↦ inr (ground (arith, e, z))
]

clear_table-outside : (t : ℕ → Option Handler) (i n j : ℕ) → j < i → clear_table t i n j ≡ t j
unfolding clear_table
clear_table-outside t i zero j h = refl
clear_table-outside t i (suc n) j h =
    clear_table-outside (update t i none) (i + 1) n j (omega arith)
    ∙ update_ne t i j none (λ e. omega (arith, e))

clear_table-none :
    (t : ℕ → Option Handler) (i n j : ℕ) → i ≤ j → j < i + n → clear_table t i n j ≡ none
unfolding clear_table
clear_table-none t i zero j h k = absurd (omega arith)
clear_table-none t i (suc n) j h k = elim (ℕ_discrete i j) [
  | yes e ↦
      clear_table-outside (update t i none) (i + 1) n j (omega arith)
      ∙ ap (λ (x : ℕ). update t i none x) (sym e)
      ∙ update_self t i none
  | no e ↦ clear_table-none (update t i none) (i + 1) n j (omega (arith, e)) (omega arith)
]

-- The table after `init`.
init_table :
    (s : Syscall) (n : ℕ)
    → (init s).table n ≡ (
        if 45 == n
        then some sys_brk
        else if 4 == n
        then some sys_write
        else if 1 == n
        then some sys_exit
        else clear_table s.table 0 syscall_max n)
unfolding init register_builtins register
init_table s n = refl

-- `register` fails, and changes nothing, for the numbers 0 and 256 and up. For any other number a dispatch
-- with it calls the new handler (or gives -ENOSYS for NULL), and a dispatch with another number
-- finds the table's handler of before.
pub dispatch-register :
    (s : Syscall) (nr : ℕ) (handler : Option Handler)
    → ((register s nr handler ≡ (s, fail)) × ((nr ≡ 0) ⊎ (syscall_max ≤ nr)))
      ⊎ (((register s nr handler).1 ≡ ok)
          × (0 < nr)
          × (nr < syscall_max)
          × ((regs : Regs)
              → dispatch (register s nr handler).0 (some regs) ≡ (
                  let t = (register s nr handler).0 in
                  if nr == regs.nr
                  then call t regs handler
                  else if leb syscall_max regs.nr
                  then (t, some minus_enosys)
                  else call t regs (s.table regs.nr))))
unfolding register dispatch
dispatch-register s nr handler = elim (Bool-cases (nr == 0 || leb syscall_max nr)) [
  | inl y ↦ inl (rw y refl, out_of_range nr y)
  | inr z ↦ inr (
    rw z refl,
    ground (arith, z),
    ground (arith, z),
    λ regs. rw z (elim (Bool-cases (nr == regs.nr)) [
      | inl e ↦
          let small : leb syscall_max regs.nr ≡ false = ground (arith, z, e) in rw (small, e) refl
      | inr e ↦ rw e refl
    ]),
  )
]

by_number :
    (s : Syscall) (regs : Regs)
    → call s regs (
        if 45 == regs.nr
        then some sys_brk
        else if 4 == regs.nr
        then some sys_write
        else if 1 == regs.nr
        then some sys_exit
        else none)
      ≡ (if regs.nr == 1
          then call s regs (some sys_exit)
          else if regs.nr == 4
          then call s regs (some sys_write)
          else if regs.nr == 45
          then call s regs (some sys_brk)
          else (s, some minus_enosys))
unfolding call
by_number s regs = ground arith

by_range :
    (s : Syscall) (regs : Regs)
    → dispatch (init s) (some regs) ≡ (
        if regs.nr == 1
        then call (init s) regs (some sys_exit)
        else if regs.nr == 4
        then call (init s) regs (some sys_write)
        else if regs.nr == 45
        then call (init s) regs (some sys_brk)
        else (init s, some minus_enosys))
unfolding dispatch
by_range s regs = elim (Bool-cases (leb syscall_max regs.nr)) [
  | inl y ↦
      let a : regs.nr == 1 ≡ false = ground (arith, y) in
      let b : regs.nr == 4 ≡ false = ground (arith, y) in
      let c : regs.nr == 45 ≡ false = ground (arith, y) in rw (y, a, b, c) refl
  | inr z ↦
      let cleared =
        clear_table-none s.table 0 syscall_max regs.nr (omega arith) (ground (arith, z)) in
      rw (z, init_table s regs.nr, cleared) (by_number (init s) regs)
]

started :
    (o : Option SyscallOps) (w : World)
    → start_backend o w ≡ elim o [ none ↦ w | some p ↦ p.init w ]
unfolding start_backend
started none w = refl
started (some o) w = refl

init_world :
    (s : Syscall) → (init s).world ≡ elim s.ops [ none ↦ s.world | some o ↦ o.init s.world ]
unfolding init register_builtins register
init_world s = started s.ops s.world

init_state : (s : Syscall) → ((init s).ops ≡ s.ops) × ((init s).ready ≡ 1)
unfolding init register_builtins register
init_state s = (refl, refl)

-- After `init`, for any table before: the numbers 1, 4 and 45 dispatch to sys_exit, sys_write and
-- sys_brk, and every other number gives -ENOSYS and changes nothing. The world is what the
-- initialisation of the registered back end made of the world of before, or unchanged if there is
-- none, the back end is still registered, and the table is marked as ready.
pub dispatch-init :
    (s : Syscall) (regs : Regs)
    → (dispatch (init s) (some regs) ≡ (
        if regs.nr == 1
        then call (init s) regs (some sys_exit)
        else if regs.nr == 4
        then call (init s) regs (some sys_write)
        else if regs.nr == 45
        then call (init s) regs (some sys_brk)
        else (init s, some minus_enosys)))
      × ((init s).world ≡ elim s.ops [ none ↦ s.world | some o ↦ o.init s.world ])
      × ((init s).ops ≡ s.ops)
      × ((init s).ready ≡ 1)
dispatch-init s regs = (by_range s regs, init_world s, (init_state s).0, (init_state s).1)
