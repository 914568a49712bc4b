-- ===== src/Gdt.antt =====
-- src/kernel/arch/gdt.c: the descriptors of the segments and of the task state. The loading of the
-- table into the CPU is left out but for the value of `gdtr`.
pub mod Decode
mod Tests
use my_microkernel.Prelude.{ℕ, ◌+◌, ◌-◌, ◌*◌, ◌/◌, ◌%◌, ◌^◌, update, bit_and, bit_or}

-- `gdt_entry_t`
pub record Entry : Type 0 where
  pub limit_low : ℕ
  pub base_low : ℕ
  pub base_mid : ℕ
  pub access : ℕ
  pub gran : ℕ
  pub base_high : ℕ

-- `gdt` and `gdtr`
pub record Gdt : Type 0 where
  pub gdt : ℕ → Entry
  pub gdtr_limit : ℕ
  pub gdtr_base : ℕ

-- The fields that `gdt_set_entry` writes: all of the entry.
pub encode : (base limit access flags : ℕ) → Entry
encode base limit access flags = record {
  limit_low = bit_and limit 0xFFFF % 2 ^ 16;
  base_low = bit_and base 0xFFFF % 2 ^ 16;
  base_mid = bit_and (base / 2 ^ 16) 0xFF % 2 ^ 8;
  base_high = bit_and (base / 2 ^ 24) 0xFF % 2 ^ 8;
  access = access;
  gran = bit_or (bit_and flags 0xF0) (bit_and (limit / 2 ^ 16) 0x0F) % 2 ^ 8;
}

-- `gdt_set_entry`
pub set_entry : Gdt → (idx base limit access flags : ℕ) → Gdt
set_entry g idx base limit access flags = record g {
  gdt = update g.gdt idx (encode base limit access flags);
}

-- `gdt_init`, for the address of the table.
pub init : (address : ℕ) → Gdt → Gdt
init address g0 =
    let g1 = set_entry g0 0 0 0 0 0 in
    let g2 = set_entry g1 1 0 0xFFFFF 0x9A 0xC0 in
    let g3 = set_entry g2 2 0 0xFFFFF 0x92 0xC0 in
    let g4 = set_entry g3 3 0 0xFFFFF 0xFA 0xC0 in
    let g5 = set_entry g4 4 0 0xFFFFF 0xF2 0xC0 in
    let g6 = set_entry g5 5 0 0 0 0 in record g6 { gdtr_limit = 6 * 8 - 1; gdtr_base = address }

-- `gdt_set_tss_entry`
pub set_tss_entry : Gdt → (base limit : ℕ) → Gdt
set_tss_entry g base limit = set_entry g 5 base limit 0x89 0
