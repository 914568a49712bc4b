-- ===== src/Vmm/Entries.antt =====
-- The flags and the frame of a page-table entry, arithmetically.
use my_microkernel.Prelude.{
  ℕ, ◌+◌, ◌*◌, ◌/◌, ◌%◌, ◌^◌, ◌<◌, ◌≡◌, sym, ap, ◌∙◌, arith, ◌==◌, bit_and, bit_or, or_step,
  or-zero, and-low_mask, and-high_mask, or_fields,
}
use my_microkernel.Vmm.{frame_of, low_bits, has, present, user, pd_index, pt_index}

pub low_bits-mod : (v : ℕ) → low_bits v ≡ v % 4096
low_bits-mod v = and-low_mask 12 v

pub has-present : (v : ℕ) → has v present ≡ (v % 2 == 1)
has-present v = rw (and-low_mask 1 v) (ground arith)

pub pd_index-div : (v : ℕ) → pd_index v ≡ v / 4194304 % 1024
pd_index-div v = and-low_mask 10 (v / 4194304)

pub pt_index-div : (v : ℕ) → pt_index v ≡ v / 4096 % 1024
pt_index-div v = and-low_mask 10 (v / 4096)

-- The mask of the frame cuts a word off below bit 12.
pub frame_of-div : (v : ℕ) → v < 2 ^ 32 → frame_of v ≡ v / 4096 * 4096
frame_of-div v h =
    let e : v / 4096 * 2 ^ 12 + v % 4096 ≡ v = omega arith in
    let m : bit_and (v / 4096 * 2 ^ 12 + v % 4096) (1048575 * 2 ^ 12)
        ≡ bit_and (v / 4096) 1048575 * 2 ^ 12 =
      and-high_mask 12 (v / 4096) (v % 4096) 1048575 (omega arith) in
    let w : bit_and v (1048575 * 2 ^ 12) ≡ bit_and (v / 4096) 1048575 * 2 ^ 12 =
      ap (λ (t : ℕ). bit_and t 0xFFFFF000) (sym e) ∙ m in
    omega (arith, w, and-low_mask 20 (v / 4096))

-- An entry made of an aligned frame and flags below 4096.
pub entry_fields : (f g : ℕ) → f % 4096 ≡ 0 → g < 4096 → bit_or f g ≡ f + g
entry_fields f g a h =
    let e : f / 4096 * 2 ^ 12 ≡ f = omega arith in
    omega (arith, ap (λ (t : ℕ). bit_or t g) e, or_fields 12 (f / 4096) g h)

pub shift-or : (a b : ℕ) → bit_or a b / 2 ≡ bit_or (a / 2) (b / 2)
shift-or a b = omega (arith, or_step a b)

-- Setting the user flag leaves the present flag and the frame.
pub user-keeps : (v : ℕ) → (bit_or v user % 2 ≡ v % 2) × (bit_or v user / 8 ≡ v / 8)
user-keeps v = (
  omega (arith, or_step v 4),
  omega (arith, shift-or v 4, shift-or (v / 2) 2, shift-or (v / 2 / 2) 1, or-zero (v / 2 / 2 / 2)),
)
