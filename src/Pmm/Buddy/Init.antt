-- ===== src/Pmm/Buddy/Init.antt =====
-- `pmm_buddy_init` of src/kernel/mm/pmm_buddy.c: choosing a region, laying out the page array in
-- front of the managed pages, and filling the free lists. The Multiboot2 tag is a parameter, read
-- into the list of its entries; `none` is a tag that is missing or malformed.
pub mod Fill
pub mod Tests
use my_microkernel.Prelude.{
  ℕ, zero, suc, ◌+◌, ◌-◌, ◌*◌, ◌/◌, ◌%◌, ◌^◌, Bool, true, false, not, ◌&&◌, ◌||◌, Option, none,
  some, List, [], ◌∷◌, ltb, leb, ◌==◌, if◌then◌else◌, update, bit_and, word, add32, sub32, mul32,
  page_size,
}
use my_microkernel.Pmm.Links.{Links, list_init}
use my_microkernel.Pmm.Buddy.{Zone, max_order, head, add_free, alloc_page, free_page}

-- `struct mb2_mmap_entry`
pub record MmapEntry : Type 0 where
  pub addr : ℕ
  pub len : ℕ
  pub kind : ℕ

-- What the boot loader and the linker leave behind.
pub record Boot : Type 0 where
  pub entries : Option (List MmapEntry)
  pub kernel_end : ℕ
  pub mb2_start : ℕ
  pub mb2_size : ℕ

pub record Region : Type 0 where
  pub start : ℕ
  pub end : ℕ

-- `align_up` and `align_down` at the page size.
abbrev pub align_up : ℕ → ℕ
align_up v = bit_and (add32 v (page_size - 1)) (word - page_size)

abbrev pub align_down : ℕ → ℕ
align_down v = bit_and v (word - page_size)

-- The part of an entry at or above 1 MiB and below 4 GiB, if it is usable; `addr + len` wraps.
usable : MmapEntry → Option Region
usable e =
    let e64 = (e.addr + e.len) % 2 ^ 64 in
    let re = if leb word e64 then word - 1 else e64 in
    let rs = if ltb e.addr 0x100000 then 0x100000 else e.addr in
    if not (e.kind == 1)
    then none
    else if leb word e.addr
    then none
    else if leb re 0x100000
    then none
    else if leb re rs
    then none
    else some (record { start = rs; end = re })

-- The loop over the entries keeps the first of the largest regions.
pub best_region : Region → List MmapEntry → Region
unfolding usable
best_region best [] = best
best_region best (e ∷ es) =
    best_region
      (elim (usable e) [
        | none ↦ best
        | some r ↦ if ltb (best.end - best.start) (r.end - r.start) then r else best
      ])
      es

-- Step 2: where the page array starts, and the managed pages behind it.
pub record Layout : Type 0 where
  pub region_start : ℕ
  pub managed_start : ℕ
  pub managed_pages : ℕ

-- `sizeof(page_info_t)` with 32-bit pointers.
abbrev page_info_size : ℕ
page_info_size = 12

pub layout : Boot → Region → Option Layout
layout b best =
    let k_end = align_up b.kernel_end in
    let mb2_end = align_up (add32 b.mb2_start b.mb2_size) in
    let s1 = if ltb best.start k_end && leb k_end best.end then k_end else best.start in
    let s2 = if ltb s1 mb2_end && leb mb2_end best.end then mb2_end else s1 in
    let region_start = align_up s2 in
    let region_end = align_down best.end in
    let region_pages = sub32 region_end region_start / page_size in
    let info_pages = align_up (mul32 region_pages page_info_size) / page_size in
    let managed_start = add32 region_start (mul32 info_pages page_size) in
    let managed_pages = sub32 region_end managed_start / page_size in
    if leb best.end best.start || ltb (best.end - best.start) (32 * page_size)
    then none
    else if leb region_pages info_pages
    then none
    else if ltb managed_pages 16
    then none
    else some (record {
      region_start = region_start;
      managed_start = managed_start;
      managed_pages = managed_pages;
    })

-- `list_init` on the heads of the orders from `i` on, `n` of them.
init_lists : ℕ → ℕ → Links → Links
init_lists zero i l = l
init_lists (suc n) i l = init_lists n (i + 1) (list_init l (head i))

-- Pointers that `memzero` has cleared.
abbrev pub zero_links : Links
zero_links = record { prev = λ n. 0; next = λ n. 0 }

-- The start of `pmm_buddy_init`: the zone is not ready, `memzero` of the zone, here with the page array,
-- and the empty lists.
pub cleared : Zone → Zone
unfolding init_lists
cleared z = record {
  base_phys = 0;
  total_pages = 0;
  order = λ i. 0;
  is_free = λ i. false;
  links = init_lists (max_order + 1) 0 zero_links;
  free_count = λ k. 0;
  total_free = 0;
  ready = false;
}

-- The inner loop of step 4: the largest order from `o` down whose block starts at `idx` and fits.
pub choose_order : (idx managed o : ℕ) → ℕ
choose_order idx managed zero = 0
choose_order idx managed (suc o) =
    if bit_and idx (2 ^ suc o - 1) == 0 && leb (idx + 2 ^ suc o) managed
    then suc o
    else choose_order idx managed o

-- `while (idx < managed_pages)`, with at most `left` rounds.
pub fill : Zone → (idx left : ℕ) → Zone
fill z idx zero = z
fill z idx (suc left) =
    let order = choose_order idx z.total_pages max_order in
    let filled = fill (add_free z idx order) (idx + 2 ^ order) left in
    if ltb idx z.total_pages then filled else z

-- The self test at the end: two pages are taken and given back.
selftest : Zone → Zone
selftest z =
    let (z1, p1) = alloc_page z in
    let (z2, p2) = alloc_page z1 in
    if p1 == 0 || p2 == 0 || p1 == p2
    then (let z3 = if p1 == 0 then z2 else free_page z2 p1 in
        if p2 == 0 then z3 else free_page z3 p2)
    else free_page (free_page z2 p1) p2

-- The zone with all the pages of a layout in it.
pub filled_zone : Zone → Layout → Zone
filled_zone z l =
    let empty = record (cleared z) { base_phys = l.managed_start; total_pages = l.managed_pages } in
    record (fill empty 0 l.managed_pages) { ready = true }

-- `pmm_buddy_init`
pub init : Zone → Option Boot → Zone
unfolding selftest
init z none = cleared z
init z (some b) = elim b.entries [
  | none ↦ cleared z
  | some es ↦ elim (layout b (best_region (record { start = 0; end = 0 }) es)) [
    | none ↦ cleared z
    | some l ↦ selftest (filled_zone z l)
  ]
]
