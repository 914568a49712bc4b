-- ===== src/Pmm/Bitmap/Init/Tests.antt =====
-- A region behind a kernel image that the Multiboot2 information follows.
use my_microkernel.Prelude.{◌≡◌, refl, arith, some}
use my_microkernel.Pmm.Bitmap.{ranges_overlap}
use my_microkernel.Pmm.Bitmap.Init.{
  Layout, skip_kernel, range_layout, attempts, compute_region_layout,
}
use my_microkernel.Pmm.Bitmap.Init.Ranges.{IsLayout, compute_region_layout-IsLayout}

abbrev behind : Layout
behind = record {
  managed_start = 0x141000;
  managed_end = 0x1000000;
  pages = 3775;
  bitmap_bytes = 472;
  bitmap_storage_bytes = 4096;
  bitmap_pages = 1;
}

two_attempts :
    compute_region_layout 0x100000 0x1000000 0x100000 0x140000 0x140000 0x140800 ≡ some behind
unfolding compute_region_layout attempts range_layout skip_kernel ranges_overlap
two_attempts = refl

compute_region_layout-IsLayout_example : IsLayout behind 0x100000 0x1000000 0x140000 0x140800
compute_region_layout-IsLayout_example =
    compute_region_layout-IsLayout 0x100000 0x1000000 0x100000 0x140000 0x140000 0x140800 behind
      (omega arith) (omega arith) (omega arith) (omega arith) (omega arith) two_attempts
