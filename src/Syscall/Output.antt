-- ===== src/Syscall/Output.antt =====
-- What sys_write prints.
use my_microkernel.Prelude.{
  ℕ, zero, suc, ◌+◌, ◌≤◌, ◌≡◌, refl, sym, ap, ◌∙◌, arith, ◌==◌, true, false, not, ◌&&◌, ◌||◌, some,
  leb, ltb, min, if◌then◌else◌, inl, inr, Bool-cases, List, [], ◌∷◌, ◌++◌, add32, word,
}
use my_microkernel.Syscall.{Regs, World, minus_one, sys_write, print_bytes}

-- The bytes from `a` on.
unfoldable pub segment : (ℕ → ℕ) → (a n : ℕ) → List ℕ
segment m a zero = []
segment m a (suc n) = m a ∷ segment m (a + 1) n

append_assoc : (xs ys zs : List ℕ) → (xs ++ ys) ++ zs ≡ xs ++ (ys ++ zs)
append_assoc [] ys zs = refl
append_assoc (x ∷ xs) ys zs = ap (λ (l : List ℕ). x ∷ l) (append_assoc xs ys zs)

append_nil : (xs : List ℕ) → xs ++ [] ≡ xs
append_nil [] = refl
append_nil (x ∷ xs) = ap (λ (l : List ℕ). x ∷ l) (append_nil xs)

print_bytes-segment :
    (w : World) (buf i n : ℕ)
    → buf + i + n ≤ word
    → print_bytes w buf i n ≡ record w { output = w.output ++ segment w.memory (buf + i) n }
unfolding print_bytes segment
print_bytes-segment w buf i zero h = λ j. record w { output = sym (append_nil w.output) j }
print_bytes-segment w buf i (suc n) h =
    let in_range : add32 buf i ≡ buf + i = omega arith in
    let next : buf + (i + 1) ≡ buf + i + 1 = omega arith in
    let w1 = record w { output = w.output ++ (w.memory (add32 buf i) ∷ []) } in
    print_bytes-segment w1 buf (i + 1) n (omega arith)
    ∙ (rw (in_range, next)
        (λ j. record w {
          output =
              append_assoc w.output (w.memory (buf + i) ∷ []) (segment w.memory (buf + i + 1) n) j;
        }))

-- `sys_write` gives -1 and prints nothing unless the descriptor is 1 or 2 and the buffer begins in user
-- space. Then it prints the buffer's bytes in order, at most 4096, and gives their number. So it reads
-- nothing from 4096 bytes above the border of user space on.
pub sys_write-segment :
    (regs : Regs) (w : World)
    → (sys_write regs w ≡ (
        if (regs.arg1 == 1 || regs.arg1 == 2) && ltb regs.arg2 0xC0000000
        then (
          record w { output = w.output ++ segment w.memory regs.arg2 (min regs.arg3 4096) },
          some (min regs.arg3 4096),
        )
        else (w, some minus_one)))
unfolding sys_write
sys_write-segment regs w =
    elim (Bool-cases ((regs.arg1 == 1 || regs.arg1 == 2) && ltb regs.arg2 0xC0000000)) [
      | inl y ↦
          let fd : not (regs.arg1 == 1) && not (regs.arg1 == 2) ≡ false = ground (arith, y) in
          let user : leb 0xC0000000 regs.arg2 ≡ false = ground (arith, y) in
          let count : (if ltb 4096 regs.arg3 then 4096 else regs.arg3) ≡ min regs.arg3 4096 =
            ground arith in
          let start : regs.arg2 + 0 ≡ regs.arg2 = omega arith in
          let printed =
            print_bytes-segment w regs.arg2 0 (min regs.arg3 4096) (ground (arith, y)) in
          rw (y, fd, user, count, printed, start) refl
      | inr z ↦ elim (Bool-cases (not (regs.arg1 == 1) && not (regs.arg1 == 2))) [
        | inl y ↦ rw (z, y) refl
        | inr n ↦
            let kernel : leb 0xC0000000 regs.arg2 ≡ true = ground (arith, z, n) in
            rw (z, n, kernel) refl
      ]
    ]
