-- ===== src/Pmm/Bitmap.antt =====
-- src/kernel/mm/pmm_bitmap.c: regions of pages with one bit for each page, 1 for used. A region's
-- bitmap is the array of its bytes, which lies at the start of the region itself. Messages are left
-- out.
pub mod Bits
pub mod Scan
pub mod Init
mod Tests
use my_microkernel.Prelude.{
  ℕ, zero, suc, ◌+◌, ◌-◌, ◌*◌, ◌/◌, ◌%◌, ◌^◌, Bool, true, false, not, ◌&&◌, ◌||◌, Option, none,
  some, ltb, leb, ◌==◌, if◌then◌else◌, update, bit_and, bit_or, min, max, word, add32, sub32, mul32,
  page_size,
}

-- `struct pmm_region`
pub record Region : Type 0 where
  pub base : ℕ
  pub pages : ℕ
  pub bitmap : ℕ → ℕ
  pub bitmap_bytes : ℕ
  pub bitmap_storage_bytes : ℕ
  pub bitmap_pages : ℕ
  pub free : ℕ

-- `PMM_MAX_REGIONS` and `PMM_ONE_MIB`
abbrev pub max_regions : ℕ
max_regions = 32

abbrev pub one_mib : ℕ
one_mib = 0x100000

-- The static variables of the file.
pub record State : Type 0 where
  pub regions : ℕ → Region
  pub region_count : ℕ
  pub region_rr : ℕ
  pub total_pages : ℕ
  pub total_free : ℕ
  pub ready : Bool

-- `align_up_u32` and `align_down_u32` at the page size.
abbrev pub align_up : ℕ → ℕ
align_up v = bit_and (add32 v (page_size - 1)) (word - page_size)

abbrev pub align_down : ℕ → ℕ
align_down v = bit_and v (word - page_size)

-- `ranges_overlap_u32`
pub ranges_overlap : (a_start a_end b_start b_end : ℕ) → Bool
ranges_overlap a_start a_end b_start b_end = ltb (max a_start b_start) (min a_end b_end)

-- `pmm_addr_is_page_aligned`
pub is_page_aligned : ℕ → Bool
is_page_aligned addr = bit_and addr (page_size - 1) == 0

-- `region_contains_addr`
pub region_contains : Region → ℕ → Bool
region_contains r addr =
    let end = add32 r.base (mul32 r.pages page_size) in
    if r.pages == 0 then false else leb r.base addr && ltb addr end

-- `region_addr_to_index` and `region_index_to_addr`
pub addr_to_index : Region → ℕ → ℕ
addr_to_index r addr = sub32 addr r.base / page_size

pub index_to_addr : Region → ℕ → ℕ
index_to_addr r idx = add32 r.base (mul32 idx page_size)

-- `1u << (bit & 7u)`
abbrev pub bit_mask : ℕ → ℕ
bit_mask bit = 2 ^ bit_and bit 7

-- `bitmap_test_r`, `bitmap_set_r` and `bitmap_clear_r`
pub bitmap_test : Region → ℕ → Bool
bitmap_test r bit = not (bit_and (r.bitmap (bit / 8)) (bit_mask bit) == 0)

pub bitmap_set : Region → ℕ → Region
bitmap_set r bit =
    let byte = bit / 8 in
    record r { bitmap = update r.bitmap byte (bit_or (r.bitmap byte) (bit_mask bit) % 256) }

pub bitmap_clear : Region → ℕ → Region
bitmap_clear r bit =
    let byte = bit / 8 in
    record r { bitmap = update r.bitmap byte (bit_and (r.bitmap byte) (255 - bit_mask bit) % 256) }

-- The inner loop of `pmm_find_free_index`: the bits of one byte from `bit` on, `n` of them. It
-- breaks off at the end of the region.
pub find_in_byte : Region → (byte bit n : ℕ) → Option ℕ
find_in_byte r byte bit zero = none
find_in_byte r byte bit (suc n) =
    let idx = byte * 8 + bit in
    let rest = find_in_byte r byte (bit + 1) n in
    if leb r.pages idx then none else if not (bitmap_test r idx) then some idx else rest

-- The outer loop, from the byte `byte` on, `n` of them.
pub find_from : Region → (byte n : ℕ) → Option ℕ
find_from r byte zero = none
find_from r byte (suc n) =
    let rest = find_from r (byte + 1) n in
    if r.bitmap byte == 255
    then rest
    else elim (find_in_byte r byte 0 8) [ some idx ↦ some idx | none ↦ rest ]

-- `pmm_find_free_index`
pub find_free_index : Region → Option ℕ
find_free_index r = find_from r 0 r.bitmap_bytes

-- The loop of `pmm_resync_free_count` over one region's bits from `i` on, `n` of them.
pub count_free : Region → (i n : ℕ) → ℕ
count_free r i zero = 0
count_free r i (suc n) = (if bitmap_test r i then 0 else 1) + count_free r (i + 1) n

-- Its loop over the regions from `ri` on, `n` of them.
pub resync_from : State → (ri n : ℕ) → State
resync_from s ri zero = s
resync_from s ri (suc n) =
    let r = s.regions ri in
    let free = count_free r 0 r.pages in
    resync_from
      (record s {
        regions = update s.regions ri (record r { free = free });
        total_free = add32 s.total_free free;
      })
      (ri + 1) n

-- `pmm_resync_free_count`
pub resync_free_count : State → State
resync_free_count s = resync_from (record s { total_free = 0 }) 0 s.region_count

-- What `pmm_bitmap_alloc_page` does with the page that it has found.
pub take_page : State → (ri idx : ℕ) → State
take_page s ri idx =
    let r = s.regions ri in
    record s {
      regions = update s.regions ri (record (bitmap_set r idx) { free = sub32 r.free 1 });
      total_free = if ltb 0 s.total_free then sub32 s.total_free 1 else s.total_free;
      region_rr = ri;
    }

-- Its loop over the regions, starting at `region_rr`: the region and the page found, with `n`
-- rounds left.
pub find_region : State → (off n : ℕ) → Option (ℕ × ℕ)
find_region s off zero = none
find_region s off (suc n) =
    let ri = add32 s.region_rr off % s.region_count in
    let r = s.regions ri in
    let rest = find_region s (off + 1) n in
    if r.free == 0
    then rest
    else elim (find_free_index r) [ some idx ↦ some (ri, idx) | none ↦ rest ]

alloc_result : State → Option (ℕ × ℕ) → State × ℕ
alloc_result s none = (resync_free_count s, 0)
alloc_result s (some (ri, idx)) = (take_page s ri idx, index_to_addr (s.regions ri) idx)

-- `pmm_bitmap_alloc_page`, 0 for NULL.
pub alloc_page : State → State × ℕ
unfolding alloc_result
alloc_page s =
    if not s.ready || (s.region_count == 0 || s.total_pages == 0)
    then (s, 0)
    else if s.total_free == 0
    then (s, 0)
    else alloc_result s (find_region s 0 s.region_count)

-- The loop of `pmm_bitmap_free_page` over the regions from `ri` on, `n` of them.
pub free_in : State → (addr ri n : ℕ) → State
free_in s addr ri zero = s
free_in s addr ri (suc n) =
    let r = s.regions ri in
    let idx = addr_to_index r addr in
    let rest = free_in s addr (ri + 1) n in
    if not (region_contains r addr)
    then rest
    else if leb r.pages idx
    then s
    else if not (bitmap_test r idx)
    then s
    else record s {
      regions = update s.regions ri (record (bitmap_clear r idx) { free = add32 r.free 1 });
      total_free = add32 s.total_free 1;
    }

-- `pmm_bitmap_free_page`
pub free_page : State → ℕ → State
free_page s addr =
    if not s.ready || addr == 0
    then s
    else if not (is_page_aligned addr)
    then s
    else free_in s addr 0 s.region_count

-- The region of a global page index and the index within it, for `pmm_bitmap_page_addr` and
-- `pmm_bitmap_page_is_used`.
pub locate : State → (idx acc ri n : ℕ) → Option (ℕ × ℕ)
locate s idx acc ri zero = none
locate s idx acc ri (suc n) =
    let r = s.regions ri in
    let rest = locate s idx (add32 acc r.pages) (ri + 1) n in
    if ltb idx (add32 acc r.pages) then some (ri, idx - acc) else rest

-- `pmm_bitmap_page_addr`
pub page_addr : State → ℕ → ℕ
page_addr s idx = if not s.ready then 0 else elim (locate s idx 0 0 s.region_count) [
  | none ↦ 0
  | some (ri, local) ↦ index_to_addr (s.regions ri) local
]

-- `pmm_bitmap_page_is_used`, none for -1.
pub page_is_used : State → ℕ → Option Bool
page_is_used s idx = if not s.ready then none else elim (locate s idx 0 0 s.region_count) [
  | none ↦ none
  | some (ri, local) ↦ some (bitmap_test (s.regions ri) local)
]
