-- ===== src/Heap/Slab.antt =====
-- src/kernel/mm/heap_slab.c: pages that are cut into slots of one size. A slab is the address of its page,
-- 0 for NULL, and memory is a function from pages to their headers. What slots hold is not modelled.
pub mod Bits
pub mod Scan
pub mod Sizes
pub mod Slots
pub mod Moves
pub mod Return
mod Tests
use my_microkernel.Prelude.{
  ℕ, zero, suc, ◌+◌, ◌-◌, ◌*◌, ◌/◌, ◌%◌, ◌^◌, Bool, true, false, not, ◌&&◌, ◌||◌, Option, none,
  some, List, [], ◌∷◌, ltb, leb, ◌==◌, if◌then◌else◌, update, bit_and, bit_or, word, add32, sub32,
  mul32, page_size, Status, ok, fail,
}
use my_microkernel.Vmm.{Services, Vmm, map_page, present, writable}
use my_microkernel.Heap.{Stats, heap_start}
use my_microkernel.Heap.FirstFit.{kheap_end}

-- `slab_header_t`
pub record Header : Type 0 where
  pub next : ℕ
  pub cache_idx : ℕ
  pub obj_size : ℕ
  pub capacity : ℕ
  pub free_count : ℕ
  pub free_bitmap : ℕ → ℕ

-- `slab_cache_t`
pub record Cache : Type 0 where
  pub obj_size : ℕ
  pub partial : ℕ
  pub full : ℕ

-- The static variables, and the headers in memory.
pub record State : Type 0 where
  pub caches : ℕ → Cache
  pub slab_brk : ℕ
  pub slab_committed : ℕ
  pub memory : ℕ → Header

-- `NUM_CACHES`, `cache_sizes` and `SLAB_HDR_SIZE`
abbrev pub num_caches : ℕ
num_caches = 7

abbrev pub cache_sizes : List ℕ
cache_sizes = 32 ∷ 64 ∷ 128 ∷ 256 ∷ 512 ∷ 1024 ∷ 2048 ∷ []

abbrev pub header_size : ℕ
header_size = 40

-- The inner loop of `bitmap_find_first_set` on the word `w` from the bit `b` on, `n` of them: none if
-- it ends, and else what the function returns, none for -1.
pub find_in_word : (ℕ → ℕ) → (bits w b n : ℕ) → Option (Option ℕ)
find_in_word bm bits w b zero = none
find_in_word bm bits w b (suc n) =
    let idx = add32 (mul32 w 32) b in
    let rest = find_in_word bm bits w (b + 1) n in
    if leb bits idx
    then some none
    else if not (bit_and (bm w) (2 ^ b) == 0)
    then some (some idx)
    else rest

-- The outer loop from the word `w` on, `n` of them.
pub find_in_words : (ℕ → ℕ) → (bits w n : ℕ) → Option ℕ
find_in_words bm bits w zero = none
find_in_words bm bits w (suc n) =
    let rest = find_in_words bm bits (w + 1) n in
    if bm w == 0 then rest else elim (find_in_word bm bits w 0 32) [ none ↦ rest | some r ↦ r ]

-- `bitmap_find_first_set`, none for -1.
pub find_first_set : (ℕ → ℕ) → (bits : ℕ) → Option ℕ
find_first_set bm bits = find_in_words bm bits 0 (add32 bits 31 / 32)

-- `bitmap_clear_bit` and `bitmap_set_bit`
pub clear_bit : (ℕ → ℕ) → ℕ → ℕ → ℕ
clear_bit bm idx = update bm (idx / 32) (bit_and (bm (idx / 32)) (word - 1 - 2 ^ (idx % 32)))

pub set_bit : (ℕ → ℕ) → ℕ → ℕ → ℕ
set_bit bm idx = update bm (idx / 32) (bit_or (bm (idx / 32)) (2 ^ (idx % 32)))

-- The loop of `slab_create` that sets the bits from `i` on, `n` of them.
pub set_bits : (ℕ → ℕ) → (i n : ℕ) → ℕ → ℕ
set_bits bm i zero = bm
set_bits bm i (suc n) = set_bits (set_bit bm i) (i + 1) n

-- The header that `slab_create` writes.
pub new_header : (cache_idx obj_size : ℕ) → Header
new_header cache_idx obj_size =
    let room = (page_size - header_size) / obj_size in
    let capacity = if ltb 128 room then 128 else room in
    record {
      next = 0;
      cache_idx = cache_idx;
      obj_size = obj_size;
      capacity = capacity;
      free_count = capacity;
      free_bitmap = set_bits (λ w. 0) 0 capacity;
    }

-- The loop of `find_cache` over the sizes, from the cache `i` on.
pub find_size : (size i : ℕ) → List ℕ → Option ℕ
find_size size i [] = none
find_size size i (c ∷ cs) =
    let rest = find_size size (i + 1) cs in if leb size c then some i else rest

-- `find_cache`, none for -1.
pub find_cache : (size : ℕ) → Option ℕ
find_cache size = find_size size 0 cache_sizes

-- The loop of `heap_slab_init` over the sizes, from the cache `i` on.
pub init_caches : (ℕ → Cache) → (i : ℕ) → List ℕ → ℕ → Cache
init_caches caches i [] = caches
init_caches caches i (c ∷ cs) =
    init_caches (update caches i (record { obj_size = c; partial = 0; full = 0 })) (i + 1) cs

-- `heap_slab_init`
pub init : State → (start size : ℕ) → State
init s start size = record {
  caches = init_caches s.caches 0 cache_sizes;
  slab_brk = start;
  slab_committed = add32 start size;
  memory = s.memory;
}

-- What `heap_slab_alloc` does with the slot that it has found in the slab of the cache `ci`: it marks it, and
-- moves the slab to the full ones when it was the last.
pub take_slot : State → (ci slab slot : ℕ) → State × ℕ
take_slot s ci slab slot =
    let h = s.memory slab in
    let h1 = record h {
      free_bitmap = clear_bit h.free_bitmap slot;
      free_count = sub32 h.free_count 1;
    } in
    let obj = add32 (add32 slab header_size) (mul32 slot h.obj_size) in
    let cache = s.caches ci in
    if h1.free_count == 0
    then (
      record s {
        caches = update s.caches ci (record cache { partial = h1.next; full = slab });
        memory = update s.memory slab (record h1 { next = cache.full });
      },
      obj,
    )
    else (record s { memory = update s.memory slab h1 }, obj)

-- `heap_slab_alloc` from the search for a slot on, 0 for NULL.
pub alloc_slot : State → (ci slab : ℕ) → Option ℕ → State × ℕ
alloc_slot s ci slab none = (s, 0)
alloc_slot s ci slab (some slot) = take_slot s ci slab slot

pub alloc_in : State → (ci : ℕ) → State × ℕ
alloc_in s ci =
    let slab = (s.caches ci).partial in
    let h = s.memory slab in alloc_slot s ci slab (find_first_set h.free_bitmap h.capacity)

-- The removal of a slab from the list whose first slab is `first`: the loop of `heap_slab_free` that looks for
-- the pointer to it, from the slab `at` on with `n` rounds left, and the store to that pointer.
pub unlink_after : (ℕ → Header) → (slab at n : ℕ) → ℕ → Header
unlink_after m slab at zero = m
unlink_after m slab at (suc n) =
    let next = (m at).next in
    let rest = unlink_after m slab next n in
    if next == 0
    then m
    else if next == slab
    then update m at (record (m at) { next = (m slab).next })
    else rest

pub unlink : (ℕ → Header) → (slab first n : ℕ) → (ℕ → Header) × ℕ
unlink m slab first n =
    if first == 0
    then (m, first)
    else if first == slab
    then (m, (m slab).next)
    else (unlink_after m slab first n, first)

-- Rounds enough for a walk over slabs, each of which has a page.
abbrev pub rounds : State → ℕ
rounds s = s.slab_brk / page_size

-- What `heap_slab_free` does with a slab that was full.
pub make_partial : State → (slab : ℕ) → State
make_partial s slab =
    let ci = (s.memory slab).cache_idx in
    let cache = s.caches ci in
    let (m, full) = unlink s.memory slab cache.full (rounds s) in
    record s {
      caches = update s.caches ci (record cache { partial = slab; full = full });
      memory = update m slab (record (m slab) { next = cache.partial });
    }

-- `heap_slab_free` for the slot of a slab.
pub free_slot : State → (slab slot : ℕ) → State
free_slot s slab slot =
    let h = s.memory slab in
    let h1 = record h {
      free_bitmap = set_bit h.free_bitmap slot;
      free_count = add32 h.free_count 1;
    } in
    let s1 = record s { memory = update s.memory slab h1 } in
    if leb h.capacity slot then s else if h.free_count == 0 then make_partial s1 slab else s1

-- `heap_slab_free`
pub free : State → ℕ → State
free s ptr =
    let slab = bit_and ptr (word - page_size) in
    let offset = sub32 (sub32 ptr slab) header_size in
    if ptr == 0 then s else free_slot s slab (offset / (s.memory slab).obj_size)

-- The loops of `heap_slab_stats` over the slabs of a list, `n` at most.
pub partial_stats : (ℕ → Header) → (slab n : ℕ) → Stats → Stats
partial_stats m slab zero t = t
partial_stats m slab (suc n) t =
    let h = m slab in
    let used = sub32 h.capacity h.free_count in
    let rest = partial_stats m h.next n (record t {
      alloc_count = add32 t.alloc_count used;
      used_bytes = add32 t.used_bytes (mul32 used h.obj_size);
      free_count = add32 t.free_count h.free_count;
      free_bytes = add32 t.free_bytes (mul32 h.free_count h.obj_size);
    }) in
    if slab == 0 then t else rest

pub full_stats : (ℕ → Header) → (slab n : ℕ) → Stats → Stats
full_stats m slab zero t = t
full_stats m slab (suc n) t =
    let h = m slab in
    let rest = full_stats m h.next n (record t {
      alloc_count = add32 t.alloc_count h.capacity;
      used_bytes = add32 t.used_bytes (mul32 h.capacity h.obj_size);
    }) in
    if slab == 0 then t else rest

-- The loop over the caches from `i` on, `n` of them.
pub caches_stats : State → (i n : ℕ) → Stats → Stats
caches_stats s i zero t = t
caches_stats s i (suc n) t =
    let t1 = partial_stats s.memory (s.caches i).partial (rounds s) t in
    caches_stats s (i + 1) n (full_stats s.memory (s.caches i).full (rounds s) t1)

-- `heap_slab_stats`
pub stats : State → Stats
stats s = caches_stats s 0 num_caches (record {
  heap_size = if ltb heap_start s.slab_brk then sub32 s.slab_brk heap_start else 0;
  used_bytes = 0;
  free_bytes = 0;
  alloc_count = 0;
  free_count = 0;
})

module _ {S : Type 0} (k : Services S) where
  -- The end of `slab_get_page`, after the mapping of a new page: a page that could not be mapped is given back.
  pub mapped_page : State → (phys : ℕ) → Vmm S × Status → State × Vmm S × ℕ
  mapped_page s phys (v, fail) = (s, record v { rest = k.pmm_free_page v.rest phys }, 0)
  mapped_page s phys (v, ok) = (
    record s {
      slab_committed = add32 s.slab_committed page_size;
      slab_brk = add32 s.slab_brk page_size;
    },
    v,
    s.slab_brk,
  )

  pub new_page : State → Vmm S → S × ℕ → State × Vmm S × ℕ
  new_page s v (rest, phys) =
      let v1 = record v { rest = rest } in
      if phys == 0
      then (s, v1, 0)
      else mapped_page s phys (map_page k v1 s.slab_brk phys (bit_or present writable))

  -- `slab_get_page`, 0 for NULL.
  pub get_page : State → Vmm S → State × Vmm S × ℕ
  get_page s v =
      if leb kheap_end s.slab_brk
      then (s, v, 0)
      else if leb s.slab_committed s.slab_brk
      then new_page s v (k.pmm_alloc_page v.rest)
      else (record s { slab_brk = add32 s.slab_brk page_size }, v, s.slab_brk)

  -- `slab_create`, 0 for NULL.
  pub create : State → Vmm S → (cache_idx : ℕ) → State × Vmm S × ℕ
  create s v ci =
      let (s1, v1, page) = get_page s v in
      if page == 0 then (s1, v1, 0) else (
        record s1 { memory = update s1.memory page (new_header ci (s1.caches ci).obj_size) },
        v1,
        page,
      )

  -- `heap_slab_alloc` once the cache is known, 0 for NULL.
  pub alloc_from : State → Vmm S → Option ℕ → State × Vmm S × ℕ
  alloc_from s v none = (s, v, 0)
  alloc_from s v (some ci) =
      let (s1, v1, slab) = create s v ci in
      let s2 = record s1 {
        caches = update s1.caches ci (record (s1.caches ci) { partial = slab });
      } in
      let (t, p) = alloc_in s ci in
      let (t2, p2) = alloc_in s2 ci in
      if (s.caches ci).partial == 0
      then if slab == 0 then (s1, v1, 0) else (t2, v1, p2)
      else (t, v, p)

  -- `heap_slab_alloc`, 0 for NULL.
  pub alloc : State → Vmm S → (size : ℕ) → State × Vmm S × ℕ
  alloc s v size = if size == 0 then (s, v, 0) else alloc_from s v (find_cache size)
