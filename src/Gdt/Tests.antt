-- ===== src/Gdt/Tests.antt =====
-- The task-state descriptor of a table after `gdt_init`.
use my_microkernel.Prelude.{ℕ, ◌≡◌, ◌≢◌, refl, arith, ◌/◌}
use my_microkernel.Gdt.{Gdt, encode, set_entry, init}
use my_microkernel.Gdt.Decode.{base_of, limit_of, flags_of, set_entry-decode}

abbrev table : Gdt
table = init 0xC0108000 (record { gdt = λ i. encode 0 0 0 0; gdtr_limit = 0; gdtr_base = 0 })

code_flags : flags_of (table.gdt 1) ≡ 12
unfolding init set_entry encode flags_of
code_flags = refl

set_entry-decode_example :
    let e = (set_entry table 5 0xC0109ABC 103 0x89 0).gdt 5 in
    (base_of e ≡ 0xC0109ABC)
    × (limit_of e ≡ 103)
    × (e.access ≡ 0x89)
    × (flags_of e ≡ 0 / 16)
    × ((j : ℕ) → 5 ≢ j → (set_entry table 5 0xC0109ABC 103 0x89 0).gdt j ≡ table.gdt j)
set_entry-decode_example =
    set_entry-decode table 5 0xC0109ABC 103 0x89 0 (omega arith) (omega arith) (omega arith)
