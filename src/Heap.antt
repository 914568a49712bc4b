-- ===== src/Heap.antt =====
-- src/kernel/mm/kmalloc.c: the mapping of the heap's first pages, and calls that are forwarded through a
-- table of operations to the registered back end. `H` is all the static data of the back ends and
-- the heap's memory; `S` is that of the page allocator and the areas.
pub mod FirstFit
pub mod Slab
use my_microkernel.Prelude.{
  ℕ, zero, suc, ◌+◌, ◌*◌, ◌==◌, if◌then◌else◌, Option, none, some, Status, ok, fail, bit_or, add32,
  mul32, page_size,
}
use my_microkernel.Vmm.{Services, Vmm, map_page, present, writable}

-- `kheap_stats_t`
pub record Stats : Type 0 where
  pub heap_size : ℕ
  pub used_bytes : ℕ
  pub free_bytes : ℕ
  pub alloc_count : ℕ
  pub free_count : ℕ

-- `heap_ops_t`. The name is a pointer.
pub record HeapOps (H : Type 0) : Type 0 where
  pub name : ℕ
  pub init : H → (start size : ℕ) → H
  pub alloc : H → ℕ → H × ℕ
  pub free : H → ℕ → H
  pub stats : H → Stats

-- `g_heap_ops`, none for NULL, the data of the back ends, and the page tables.
module _ (S H : Type 0) where
  pub record Heap : Type 0 where
    pub ops : Option (HeapOps H)
    pub store : H
    pub vmm : Vmm S

-- `KHEAP_START` and `KHEAP_INITIAL_PAGES`
abbrev pub heap_start : ℕ
heap_start = 0xE0000000

abbrev pub initial_pages : ℕ
initial_pages = 16

module _ {S H : Type 0} where
  -- `kmalloc_register_backend`
  pub register_heap : Heap S H → Option (HeapOps H) → Heap S H
  register_heap h o = record h { ops = o }

  -- `kmalloc_backend_name`, 0 for NULL.
  pub heap_name : Heap S H → ℕ
  heap_name h = elim h.ops [ none ↦ 0 | some o ↦ o.name ]

  -- `kmalloc`, 0 for NULL.
  pub kmalloc : Heap S H → ℕ → Heap S H × ℕ
  kmalloc h size = elim h.ops [
    | none ↦ (h, 0)
    | some o ↦ let (s, p) = o.alloc h.store size in (record h { store = s }, p)
  ]

  -- `kfree`
  pub kfree : Heap S H → ℕ → Heap S H
  kfree h ptr = elim h.ops [ none ↦ h | some o ↦ record h { store = o.free h.store ptr } ]

  -- `kheap_get_stats`, for a pointer that is not NULL; none where it writes nothing.
  pub get_stats : Heap S H → Option Stats
  get_stats h = elim h.ops [ none ↦ none | some o ↦ some (o.stats h.store) ]

module _ {S : Type 0} (k : Services S) where
  -- What a round of the loop of `kmalloc_init` does after the mapping: a page that could not be mapped is
  -- given back.
  pub keep_or_free : (phys : ℕ) → Vmm S × Status → Vmm S × Status
  keep_or_free phys (s, ok) = (s, ok)
  keep_or_free phys (s, fail) = (record s { rest = k.pmm_free_page s.rest phys }, fail)

  pub map_round : Vmm S → (virt : ℕ) → S × ℕ → Vmm S × Status
  map_round s virt (rest, phys) =
      let s1 = record s { rest = rest } in
      if phys == 0
      then (s1, fail)
      else keep_or_free phys (map_page k s1 virt phys (bit_or present writable))

  -- The loop of `kmalloc_init` from page `i` on, `n` of them. It leaves the pages that it has mapped
  -- behind when it fails.
  pub map_heap : Vmm S → (i n : ℕ) → Vmm S × Status
  map_heap s i zero = (s, ok)
  map_heap s i (suc n) =
      let (s1, r) = map_round s (add32 heap_start (mul32 i page_size)) (k.pmm_alloc_page s.rest) in
      let rest = map_heap s1 (i + 1) n in elim r [ fail ↦ (s1, fail) | ok ↦ rest ]

module _ {S H : Type 0} (k : Services S) where
  pub start_backend : Heap S H → HeapOps H → Vmm S × Status → Heap S H
  start_backend h o (s, fail) = record h { vmm = s }
  start_backend h o (s, ok) = record h {
    vmm = s;
    store = o.init h.store heap_start (initial_pages * page_size);
  }

  -- `kmalloc_init`
  pub kmalloc_init : Heap S H → Heap S H
  kmalloc_init h = elim h.ops [
    | none ↦ h
    | some o ↦ start_backend h o (map_heap k h.vmm 0 initial_pages)
  ]
