-- ===== src/Vma/Area.antt =====
-- src/include/kernel/vma.h: the descriptor of an area.
use my_microkernel.Prelude.{ℕ, ◌≤◌, ◌<◌, ◌%◌, ◌≡◌, page_size}

-- `vm_area_t`. The name is a pointer that the back ends store and never follow, 0 for NULL.
pub record VmArea : Type 0 where
  pub start : ℕ
  pub end : ℕ
  pub flags : ℕ
  pub name : ℕ

-- An area covers the addresses of [start, end).
pub record Covers (a : VmArea) (addr : ℕ) : Type 0 where
  pub from : a.start ≤ addr
  pub below : addr < a.end

-- A range that a back end may register.
pub record IsArea (a : VmArea) : Type 0 where
  pub nonempty : a.start < a.end
  pub start_aligned : a.start % page_size ≡ 0
  pub end_aligned : a.end % page_size ≡ 0
