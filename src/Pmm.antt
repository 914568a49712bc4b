-- ===== src/Pmm.antt =====
-- Physical memory: the buddy allocator with its intrusive free lists, the bitmap allocator, and the
-- dispatch layer of src/kernel/mm/pmm.c.
pub mod Links
pub mod Buddy
pub mod Bitmap
pub mod Dispatch
