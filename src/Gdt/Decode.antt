-- ===== src/Gdt/Decode.antt =====
-- What a descriptor of src/kernel/arch/gdt.c means to the CPU.
use my_microkernel.Prelude.{
  ℕ, ◌+◌, ◌*◌, ◌/◌, ◌%◌, ◌^◌, ◌<◌, ◌≡◌, ◌≢◌, refl, sym, ap, ◌∙◌, arith, bit_and, bit_or,
  and-low_mask, and-high_mask, or_fields, update_ne, update_self,
}
use my_microkernel.Gdt.{Entry, Gdt, encode, set_entry}

-- The segment's base, its limit in units, and its flags, by the layout of a descriptor.
pub base_of : Entry → ℕ
base_of e = e.base_low + e.base_mid * 2 ^ 16 + e.base_high * 2 ^ 24

pub limit_of : Entry → ℕ
limit_of e = e.limit_low + e.gran % 16 * 2 ^ 16

unfoldable pub flags_of : Entry → ℕ
flags_of e = e.gran / 16

gran_fields :
    (flags limit : ℕ)
    → flags < 2 ^ 8
    → bit_or (bit_and flags 0xF0) (bit_and (limit / 2 ^ 16) 0x0F)
      ≡ flags / 16 * 16 + limit / 2 ^ 16 % 16
gran_fields flags limit h =
    let a : bit_and (limit / 2 ^ 16) 0x0F ≡ limit / 2 ^ 16 % 16 = and-low_mask 4 (limit / 2 ^ 16) in
    let e : flags / 16 * 2 ^ 4 + flags % 16 ≡ flags = omega arith in
    let b : bit_and flags 0xF0 ≡ bit_and (flags / 16) 15 * 2 ^ 4 =
      ap (λ (t : ℕ). bit_and t 0xF0) (sym e)
      ∙ and-high_mask 4 (flags / 16) (flags % 16) 15 (omega arith) in
    let c : bit_and (flags / 16) 15 ≡ flags / 16 = omega (arith, and-low_mask 4 (flags / 16)) in
    let d : bit_and flags 0xF0 ≡ flags / 16 * 2 ^ 4 = omega (arith, b, c) in
    rw (a, d) (or_fields 4 (flags / 16) (limit / 2 ^ 16 % 16) (omega arith))

-- For a 32-bit base, a 20-bit limit and a byte of flags, the descriptor that `gdt_set_entry` writes
-- means this base, this limit, this access byte and the upper half of the flags, and the other
-- entries of the table are as before.
pub set_entry-decode :
    (g : Gdt) (idx base limit access flags : ℕ)
    → base < 2 ^ 32
    → limit < 2 ^ 20
    → flags < 2 ^ 8
    → let e = (set_entry g idx base limit access flags).gdt idx in
      (base_of e ≡ base)
      × (limit_of e ≡ limit)
      × (e.access ≡ access)
      × (flags_of e ≡ flags / 16)
      × ((j : ℕ) → idx ≢ j → (set_entry g idx base limit access flags).gdt j ≡ g.gdt j)
unfolding set_entry encode base_of limit_of flags_of
set_entry-decode g idx base limit access flags p q h =
    let f = gran_fields flags limit h in
    rw (update_self g.gdt idx (encode base limit access flags)) (
      omega (
        arith,
        and-low_mask 16 base,
        and-low_mask 8 (base / 2 ^ 16),
        and-low_mask 8 (base / 2 ^ 24),
      ),
      omega (arith, f, and-low_mask 16 limit),
      refl,
      omega (arith, f),
      λ j ne. update_ne g.gdt idx j (encode base limit access flags) ne,
    )
