-- ===== src/Heap/FirstFit.antt =====
-- src/kernel/mm/heap_first_fit.c: a chain of blocks, each behind its header. Memory is read and written
-- through headers only, so it is a function from the address of a header to its fields. A pointer
-- is its address, 0 for NULL. Messages are left out.
pub mod Blocks
pub mod Tiles
pub mod Links
pub mod Carve
pub mod Search
pub mod Merge
pub mod Aligned
pub mod Alloc
pub mod Free
pub mod Tally
pub mod Calls
mod Tests
use my_microkernel.Prelude.{
  ℕ, zero, suc, ◌+◌, ◌-◌, ◌*◌, ◌/◌, ◌%◌, ◌^◌, Bool, true, false, not, ◌&&◌, ◌||◌, Option, none,
  some, ltb, leb, ◌==◌, if◌then◌else◌, update, bit_and, word, add32, sub32, page_size, Status, ok,
  fail, bit_or,
}
use my_microkernel.Vmm.{Services, Vmm, map_page, present, writable}
use my_microkernel.Heap.{Stats, HeapOps}

-- `block_header_t`
pub record Header : Type 0 where
  pub size : ℕ
  pub is_free : ℕ
  pub next : ℕ
  pub prev : ℕ

abbrev pub Memory : Type 0
Memory = ℕ → Header

-- The static variables, and the memory.
pub record State : Type 0 where
  pub heap_start : ℕ
  pub heap_brk : ℕ
  pub heap_end : ℕ
  pub free_list : ℕ
  pub memory : Memory

-- `HEADER_SIZE`, `ALIGN8` and `KHEAP_END`
abbrev pub header_size : ℕ
header_size = 16

abbrev pub align8 : ℕ → ℕ
align8 x = bit_and (add32 x 7) (word - 8)

abbrev pub kheap_end : ℕ
kheap_end = 0xF0000000

-- `merge_with_next`: three stores in the order of the code, each reading what the last one left.
pub merge_with_next : Memory → ℕ → Memory
merge_with_next m block =
    let victim = (m block).next in
    let m1 =
      update m block
        (record (m block) { size = add32 (m block).size (add32 header_size (m victim).size) }) in
    let m2 = update m1 block (record (m1 block) { next = (m1 victim).next }) in
    let after = (m2 victim).next in
    if after == 0 then m2 else update m2 after (record (m2 after) { prev = block })

-- `heap_first_fit_init`
pub init : State → (start size : ℕ) → State
init s start size = record {
  heap_start = start;
  heap_brk = add32 start size;
  heap_end = kheap_end;
  free_list = start;
  memory =
      update s.memory start
        (record { size = sub32 size header_size; is_free = 1; next = 0; prev = 0 });
}

-- The loop of `heap_first_fit_alloc` from the block `curr` on, with `n` rounds left: the first free block
-- that is large enough.
pub find_fit : Memory → (size curr n : ℕ) → Option ℕ
find_fit m size curr zero = none
find_fit m size curr (suc n) =
    let rest = find_fit m size (m curr).next n in
    if curr == 0
    then none
    else if not ((m curr).is_free == 0) && leb size (m curr).size
    then some curr
    else rest

-- The splitting of a block, when enough is left of it.
pub split_block : Memory → (curr size : ℕ) → Memory
split_block m curr size =
    let new_block = add32 (add32 curr header_size) size in
    let m1 = update m new_block (record {
      size = sub32 (sub32 (m curr).size size) header_size;
      is_free = 1;
      next = (m curr).next;
      prev = curr;
    }) in
    let after = (m1 curr).next in
    let m2 = if after == 0 then m1 else update m1 after (record (m1 after) { prev = new_block }) in
    update m2 curr (record (m2 curr) { size = size; next = new_block })

-- What `heap_first_fit_alloc` does with the block that it has found.
pub take : Memory → (curr size : ℕ) → Memory
take m curr size =
    let m1 =
      if ltb (header_size + 8) (sub32 (m curr).size size) then split_block m curr size else m in
    update m1 curr (record (m1 curr) { is_free = 0 })

-- Rounds enough for a walk over the blocks, each of which has a header.
abbrev pub rounds : State → ℕ
rounds s = s.heap_brk - s.heap_start

pub alloc_result : State → (size : ℕ) → Option ℕ → State × ℕ
alloc_result s size none = (s, 0)
alloc_result s size (some curr) =
    (record s { memory = take s.memory curr size }, add32 curr header_size)

-- `heap_first_fit_alloc`, 0 for NULL.
pub alloc : State → ℕ → State × ℕ
alloc s size =
    let aligned = align8 size in
    alloc_result s aligned (find_fit s.memory aligned s.free_list (rounds s))

-- `while (block->next && block->next->is_free)` of `heap_first_fit_free`, with `n` rounds left.
pub merge_forward : Memory → (block n : ℕ) → Memory
merge_forward m block zero = m
merge_forward m block (suc n) =
    let next = (m block).next in
    let rest = merge_forward (merge_with_next m block) block n in
    if next == 0 then m else if (m next).is_free == 0 then m else rest

-- The merging with the block before.
pub merge_backward : Memory → (block : ℕ) → Memory
merge_backward m block =
    let before = (m block).prev in
    if before == 0 then m else if (m before).is_free == 0 then m else merge_with_next m before

pub release : Memory → (block n : ℕ) → Memory
release m block n =
    let m1 = update m block (record (m block) { is_free = 1 }) in
    merge_backward (merge_forward m1 block n) block

-- `heap_first_fit_free`
pub free : State → ℕ → State
free s ptr =
    let block = sub32 ptr header_size in
    if ptr == 0
    then s
    else if ltb block s.heap_start || leb s.heap_brk block
    then s
    else record s { memory = release s.memory block (rounds s) }

-- The loop of `heap_first_fit_stats` from the block `curr` on.
pub stats_from : Memory → (curr n : ℕ) → Stats → Stats
stats_from m curr zero t = t
stats_from m curr (suc n) t =
    let h = m curr in
    let t1 =
      if h.is_free == 0
      then record t {
        used_bytes = add32 t.used_bytes (add32 h.size header_size);
        alloc_count = add32 t.alloc_count 1;
      }
      else record t { free_bytes = add32 t.free_bytes h.size; free_count = add32 t.free_count 1 } in
    let rest = stats_from m h.next n t1 in if curr == 0 then t else rest

-- `heap_first_fit_stats`
pub stats : State → Stats
stats s = stats_from s.memory s.free_list (rounds s) (record {
  heap_size = sub32 s.heap_brk s.heap_start;
  used_bytes = 0;
  free_bytes = 0;
  alloc_count = 0;
  free_count = 0;
})

-- `heap_first_fit_get_ops`, with the pointer to the name.
pub first_fit_ops : (name : ℕ) → HeapOps State
first_fit_ops name = record { name = name; init = init; alloc = alloc; free = free; stats = stats }

module _ {S : Type 0} (k : Services S) where
  -- What a round of `heap_grow` does with a page: give it back if it cannot be mapped.
  pub grow_mapped : State → (phys : ℕ) → Vmm S × Status → State × Vmm S × Status
  grow_mapped s phys (v, ok) = (record s { heap_brk = add32 s.heap_brk page_size }, v, ok)
  grow_mapped s phys (v, fail) = (s, record v { rest = k.pmm_free_page v.rest phys }, fail)

  pub grow_page : State → Vmm S → S × ℕ → State × Vmm S × Status
  grow_page s v (rest, phys) =
      let v1 = record v { rest = rest } in
      if phys == 0
      then (s, v1, fail)
      else grow_mapped s phys (map_page k v1 s.heap_brk phys (bit_or present writable))

  -- The loop of `heap_grow`, `n` pages.
  pub grow_pages : State → Vmm S → ℕ → State × Vmm S × Status
  grow_pages s v zero = (s, v, ok)
  grow_pages s v (suc n) =
      let (s1, v1, r) = grow_page s v (k.pmm_alloc_page v.rest) in
      let rest = grow_pages s1 v1 n in
      if leb s.heap_end s.heap_brk
      then (s, v, fail)
      else elim r [ fail ↦ (s1, v1, fail) | ok ↦ rest ]

  -- `heap_grow`
  pub heap_grow : State → Vmm S → (min_bytes : ℕ) → State × Vmm S × Status
  heap_grow s v min_bytes = grow_pages s v (add32 min_bytes (page_size - 1) / page_size)
