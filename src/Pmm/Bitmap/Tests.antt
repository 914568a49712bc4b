-- ===== src/Pmm/Bitmap/Tests.antt =====
-- A region of ten pages whose first nine are in use.
use my_microkernel.Prelude.{arith, ◌==◌, if◌then◌else◌}
use my_microkernel.Pmm.Bitmap.{Region, find_free_index}
use my_microkernel.Pmm.Bitmap.Scan.{FirstFree, find_free_index-FirstFree}

abbrev ten_pages : Region
ten_pages = record {
  base = 0x100000;
  pages = 10;
  bitmap = λ i. if i == 0 then 255 else 1;
  bitmap_bytes = 2;
  bitmap_storage_bytes = 4096;
  bitmap_pages = 1;
  free = 1;
}

find_free_index-FirstFree_example : FirstFree ten_pages 0 10 (find_free_index ten_pages)
find_free_index-FirstFree_example = find_free_index-FirstFree ten_pages (omega arith)
