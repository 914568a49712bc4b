-- ===== src/Pmm/Bitmap/Init.antt =====
-- `pmm_bitmap_init` of src/kernel/mm/pmm_bitmap.c: the layout of a region around the kernel image and the
-- Multiboot2 information, its bitmap, the reserved ranges and the self-test. The Multiboot2 tag is read
-- into the list of its entries; `none` is a tag that is missing or malformed.
pub mod Ranges
mod Tests
use my_microkernel.Prelude.{
  ℕ, zero, suc, ◌+◌, ◌-◌, ◌*◌, ◌/◌, ◌%◌, ◌^◌, Bool, true, false, not, ◌&&◌, ◌||◌, Option, none,
  some, List, [], ◌∷◌, ltb, leb, ◌==◌, if◌then◌else◌, update, max, word, add32, sub32, mul32,
  page_size,
}
use my_microkernel.Pmm.Bitmap.{
  Region, State, max_regions, one_mib, align_up, align_down, ranges_overlap, is_page_aligned,
  region_contains, addr_to_index, bitmap_test, bitmap_set, bitmap_clear, resync_free_count,
  alloc_page, free_page,
}

-- `struct mb2_mmap_entry`
pub record MemoryEntry : Type 0 where
  pub addr : ℕ
  pub len : ℕ
  pub kind : ℕ

-- What the boot loader and the linker leave behind.
pub record BootInfo : Type 0 where
  pub entries : Option (List MemoryEntry)
  pub kernel_start : ℕ
  pub kernel_end : ℕ
  pub mb2_start : ℕ
  pub mb2_size : ℕ

-- `pmm_reset_state`
abbrev no_region : Region
no_region = record {
  base = 0;
  pages = 0;
  bitmap = λ i. 0;
  bitmap_bytes = 0;
  bitmap_storage_bytes = 0;
  bitmap_pages = 0;
  free = 0;
}

pub reset_state : State → State
reset_state s = record {
  regions = λ i. if ltb i max_regions then no_region else s.regions i;
  region_count = 0;
  region_rr = 0;
  total_pages = 0;
  total_free = 0;
  ready = false;
}

-- `struct pmm_region_layout`, without the usable range that is copied into it and never read.
pub record Layout : Type 0 where
  pub managed_start : ℕ
  pub managed_end : ℕ
  pub pages : ℕ
  pub bitmap_bytes : ℕ
  pub bitmap_storage_bytes : ℕ
  pub bitmap_pages : ℕ

-- The start of an attempt: past the kernel image, if it overlaps the range.
pub skip_kernel : (managed_start managed_end kernel_start kernel_end : ℕ) → ℕ
skip_kernel managed_start managed_end kernel_start kernel_end =
    if ranges_overlap managed_start managed_end kernel_start kernel_end
      && (ltb managed_start kernel_end && ltb kernel_start managed_end)
    then max managed_start (align_up kernel_end)
    else managed_start

-- The layout of an aligned range.
pub range_layout : (managed_start managed_end : ℕ) → Layout
range_layout managed_start managed_end =
    let pages = sub32 managed_end managed_start / page_size in
    let bitmap_bytes = add32 pages 7 / 8 in
    let bitmap_storage = align_up bitmap_bytes in
    record {
      managed_start = managed_start;
      managed_end = managed_end;
      pages = pages;
      bitmap_bytes = bitmap_bytes;
      bitmap_storage_bytes = bitmap_storage;
      bitmap_pages = bitmap_storage / page_size;
    }

-- The loop of `pmm_compute_region_layout`, with `n` attempts left.
pub attempts :
    (kernel_start kernel_end mb2_start mb2_end : ℕ)
    → (managed_start managed_end n : ℕ) → Option Layout
attempts ks ke ms me start end zero = none
attempts ks ke ms me start end (suc n) =
    let managed_start = align_up (skip_kernel start end ks ke) in
    let managed_end = align_down end in
    let l = range_layout managed_start managed_end in
    let rest = attempts ks ke ms me (align_up me) managed_end n in
    if leb managed_end (add32 managed_start page_size)
    then none
    else if ltb l.pages 8
    then none
    else if leb l.pages l.bitmap_pages
    then none
    else if ltb ms me
        && ranges_overlap managed_start (add32 managed_start l.bitmap_storage_bytes) ms me
    then rest
    else some l

-- `pmm_compute_region_layout`
pub compute_region_layout :
    (usable_start usable_end kernel_start kernel_end mb2_start mb2_end : ℕ) → Option Layout
compute_region_layout usable_start usable_end ks ke ms me =
    if leb usable_end usable_start then none else attempts ks ke ms me usable_start usable_end 4

-- The loop of `pmm_region_bitmap_init_and_free_tail` from page `i` on, `n` pages.
pub free_tail : Region → (i n : ℕ) → Region
free_tail r i zero = r
free_tail r i (suc n) = free_tail (record (bitmap_clear r i) { free = add32 r.free 1 }) (i + 1) n

-- `pmm_region_bitmap_init_and_free_tail`
pub bitmap_init_and_free_tail : Region → Region
bitmap_init_and_free_tail r =
    let filled = record r {
      bitmap = λ i. if ltb i r.bitmap_storage_bytes then 255 else r.bitmap i;
      free = 0;
    } in
    free_tail filled r.bitmap_pages (r.pages - r.bitmap_pages)

-- What `pmm_add_region` does with a layout.
pub add_layout : State → Option Layout → State × Bool
add_layout s none = (s, false)
add_layout s (some l) =
    let r : Region = record {
      base = l.managed_start;
      pages = l.pages;
      bitmap = (s.regions s.region_count).bitmap;
      bitmap_bytes = l.bitmap_bytes;
      bitmap_storage_bytes = l.bitmap_storage_bytes;
      bitmap_pages = l.bitmap_pages;
      free = 0;
    } in
    (
      record s {
        regions = update s.regions s.region_count (bitmap_init_and_free_tail r);
        region_count = s.region_count + 1;
      },
      true,
    )

-- `pmm_add_region`: whether a region was added.
pub add_region :
    State → (usable_start usable_end kernel_start kernel_end mb2_start mb2_end : ℕ) → State × Bool
add_region s us ue ks ke ms me =
    if leb max_regions s.region_count
    then (s, false)
    else add_layout s (compute_region_layout us ue ks ke ms me)

-- `u64_add_sat`
pub add_sat : ℕ → ℕ → ℕ
add_sat a b = let r = (a + b) % 2 ^ 64 in if ltb r a then 2 ^ 64 - 1 else r

-- The part of an entry at or above 1 MiB and below 4 GiB, if it is usable: its start and its end.
pub usable_range : MemoryEntry → Option (ℕ × ℕ)
usable_range e =
    let end64 = add_sat e.addr e.len in
    let end = if leb word end64 then word - 1 else end64 in
    let start = if ltb e.addr one_mib then one_mib else e.addr in
    if not (e.kind == 1)
    then none
    else if end64 == 2 ^ 64 - 1 || leb end64 e.addr
    then none
    else if leb word e.addr
    then none
    else if leb end one_mib
    then none
    else if leb end start
    then none
    else some (start, end)

-- The loop over the entries. It breaks off when a region could not be added because all are in use; so
-- do all later entries, which change nothing.
pub add_entries : State → BootInfo → List MemoryEntry → State
add_entries s b [] = s
add_entries s b (e ∷ es) =
    let mb2_end = add32 b.mb2_start b.mb2_size in
    let s1 : State = elim (usable_range e) [
      | none ↦ s
      | some (start, end) ↦
          (add_region s start end b.kernel_start b.kernel_end b.mb2_start mb2_end).0
    ] in
    add_entries s1 b es

-- The loop of `pmm_recompute_totals` from region `i` on, `n` of them.
pub recompute_from : State → (i n : ℕ) → State
recompute_from s i zero = s
recompute_from s i (suc n) =
    recompute_from
      (record s {
        total_pages = add32 s.total_pages (s.regions i).pages;
        total_free = add32 s.total_free (s.regions i).free;
      })
      (i + 1) n

-- `pmm_recompute_totals`
pub recompute_totals : State → State
recompute_totals s = recompute_from (record s { total_pages = 0; total_free = 0 }) 0 s.region_count

-- What `bitmap_mark_used_by_addr` does with a page that is free.
pub mark_page : State → (ri idx : ℕ) → State
mark_page s ri idx =
    let r = s.regions ri in
    let marked = bitmap_set r idx in
    let counted = if ltb 0 r.free then record marked { free = r.free - 1 } else marked in
    record s {
      regions = update s.regions ri counted;
      total_free = if ltb 0 r.free && ltb 0 s.total_free then s.total_free - 1 else s.total_free;
    }

-- Its loop over the regions from `ri` on, `n` of them.
pub mark_in : State → (addr ri n : ℕ) → State
mark_in s addr ri zero = s
mark_in s addr ri (suc n) =
    let r = s.regions ri in
    let idx = addr_to_index r addr in
    let rest = mark_in s addr (ri + 1) n in
    if not (region_contains r addr)
    then rest
    else if leb r.pages idx
    then s
    else if bitmap_test r idx
    then s
    else mark_page s ri idx

-- `bitmap_mark_used_by_addr`
pub mark_used_by_addr : State → ℕ → State
mark_used_by_addr s addr =
    let aligned = if is_page_aligned addr then addr else align_down addr in
    if not s.ready then s else mark_in s aligned 0 s.region_count

-- The loop of `bitmap_mark_used_range` from `p` on, `n` pages.
pub mark_pages : State → (p n : ℕ) → State
mark_pages s p zero = s
mark_pages s p (suc n) = mark_pages (mark_used_by_addr s p) (p + page_size) n

-- `bitmap_mark_used_range`
pub mark_used_range : State → (start end_excl : ℕ) → State
mark_used_range s start end_excl =
    let from = align_down start in
    if not s.ready || leb end_excl start
    then s
    else mark_pages s from ((align_up end_excl - from) / page_size)

-- The pages that the self-test takes: it stops at the first failure.
pub take_pages : State → ℕ → State × List ℕ
take_pages s zero = (s, [])
take_pages s (suc n) =
    let (s1, page) = alloc_page s in
    let (s2, pages) = take_pages s1 n in if page == 0 then (s1, []) else (s2, page ∷ pages)

pub give_pages : State → List ℕ → State
give_pages s [] = s
give_pages s (p ∷ ps) = give_pages (free_page s p) ps

-- `pmm_selftest`, with this back end behind `pmm_alloc_page`. Whatever it finds, it gives back the pages
-- that it has taken, in their order.
pub selftest : State → State
selftest s =
    let (s1, pages) = take_pages s 4 in
    if not s.ready || (s.region_count == 0 || s.total_pages == 0)
    then s
    else if ltb s.total_free 4
    then s
    else give_pages s1 pages

-- The end of `pmm_bitmap_init`, once there are regions.
pub finish : State → BootInfo → State
finish s b =
    let s1 = recompute_totals (record s { ready = true }) in
    let s2 =
      if ltb b.kernel_start b.kernel_end
      then mark_used_range s1 b.kernel_start b.kernel_end
      else s1 in
    let s3 = mark_used_range s2 b.mb2_start (add32 b.mb2_start b.mb2_size) in
    selftest (resync_free_count s3)

-- `pmm_bitmap_init`, with `none` where there is no Multiboot2 information.
pub init : State → Option BootInfo → State
init s none = reset_state s
init s (some b) = elim b.entries [
  | none ↦ reset_state s
  | some es ↦
      let s1 = add_entries (reset_state s) b es in if s1.region_count == 0 then s1 else finish s1 b
]
