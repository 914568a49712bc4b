-- ===== src/Heap/FirstFit/Tests.antt =====
-- A heap of 256 bytes at 4096, and two allocations of 10 and 20 bytes in it.
use my_microkernel.Prelude.{
  ℕ, ◌+◌, ◌*◌, ◌%◌, ◌≤◌, ◌==◌, if◌then◌else◌, ◌≡◌, ◌≢◌, refl, arith, true, false, List, [], ◌∷◌,
  none, fail, ok, page_size, Status, inr, ◌∙◌, add32, mul32, zero, suc,
}
use my_microkernel.Vmm.{Services, Vmm}
use my_microkernel.Vmm.Entries.{low_bits-mod}
use my_microkernel.Vmm.Map.{map_page-ok_iff}
use my_microkernel.Heap.{
  Heap, kmalloc, kfree, map_heap, map_round, keep_or_free, heap_start, initial_pages,
}
use my_microkernel.Heap.FirstFit.{
  State, align8, init, find_fit, split_block, take, alloc, alloc_result, free, stats,
}
use my_microkernel.Heap.FirstFit.Blocks.{
  Block, extent, Coalesced, freed, join_back, absorb_size, absorb_rest,
}
use my_microkernel.Heap.FirstFit.Tiles.{Tiles}
use my_microkernel.Heap.FirstFit.Alloc.{
  IsHeap, Allocates, alloc-Allocates, alloc-bounds, alloc-succeeds, init-IsHeap,
}
use my_microkernel.Heap.FirstFit.Free.{free-IsHeap, free-alloc}
use my_microkernel.Heap.FirstFit.Tally.{number, bytes, stats-blocks}
use my_microkernel.Heap.FirstFit.Calls.{started, first_block, kmalloc-kmalloc_init}

abbrev unset : State
unset = record {
  heap_start = 0;
  heap_brk = 0;
  heap_end = 0;
  free_list = 0;
  memory = λ a. record { size = 0; is_free = 0; next = 0; prev = 0 };
}

abbrev fresh : State
fresh = init unset 4096 256

abbrev whole : List Block
whole = record { size = 240; free = true } ∷ []

fresh-IsHeap : IsHeap fresh whole
fresh-IsHeap =
    init-IsHeap unset 4096 256 (omega arith) (omega arith) (omega arith) (omega arith) (omega arith)

alloc_twice : ((alloc fresh 10).1 ≡ 4112) × ((alloc (alloc fresh 10).0 20).1 ≡ 4144)
unfolding alloc alloc_result find_fit take split_block init
alloc_twice = (refl, refl)

alloc-set : (alloc fresh 10).1 ≢ 0
alloc-set e = omega (arith, alloc_twice.0, e)

init-IsHeap_example : IsHeap (init unset 4096 256) (record { size = 240; free = true } ∷ [])
init-IsHeap_example =
    init-IsHeap unset 4096 256 (omega arith) (omega arith) (omega arith) (omega arith) (omega arith)

alloc-Allocates_example : Allocates fresh whole (align8 10) (alloc fresh 10)
alloc-Allocates_example = alloc-Allocates fresh whole 10 fresh-IsHeap

alloc-bounds_example :
    ((alloc fresh 10).1 % 8 ≡ 0)
    × (fresh.heap_start + 16 ≤ (alloc fresh 10).1)
    × ((alloc fresh 10).1 + 10 ≤ fresh.heap_brk)
alloc-bounds_example = alloc-bounds fresh whole 10 fresh-IsHeap (omega arith) alloc-set

-- A used block between two free ones.
abbrev three : State
three = record {
  heap_start = 4096;
  heap_brk = 4200;
  heap_end = 0xF0000000;
  free_list = 4096;
  memory = λ a.
      if a == 4096
      then record { size = 8; is_free = 1; next = 4120; prev = 0 }
      else if a == 4120
      then record { size = 16; is_free = 0; next = 4152; prev = 4096 }
      else record { size = 32; is_free = 1; next = 0; prev = 4120 };
}

abbrev low : Block
low = record { size = 8; free = true }

abbrev used : Block
used = record { size = 16; free = false }

abbrev high : Block
high = record { size = 32; free = true }

three-IsHeap : IsHeap three (low ∷ used ∷ high ∷ [])
unfolding Tiles extent Coalesced
three-IsHeap = record {
  started = omega arith;
  first = refl;
  non_empty = refl;
  filled = refl;
  small = omega arith;
  tiles = (
    record { size = refl; is_free = refl; next_link = refl; prev_link = refl },
    (
      record { size = refl; is_free = refl; next_link = refl; prev_link = refl },
      (record { size = refl; is_free = refl; next_link = refl; prev_link = refl }, tt),
    ),
  );
  coalesced = (refl, (refl, (refl, tt)));
  start_aligned = refl;
  aligned = (refl, (refl, (refl, tt)));
}

alloc-succeeds_example : (alloc three 30).1 ≢ 0
alloc-succeeds_example =
    alloc-succeeds three (low ∷ used ∷ []) high [] 30 three-IsHeap refl (omega arith)

free-IsHeap_example :
    IsHeap
      (free three (three.heap_start + extent (low ∷ []) + 16))
      (freed (low ∷ []) used (high ∷ []))
free-IsHeap_example = free-IsHeap three (low ∷ []) used (high ∷ []) three-IsHeap

freed_one : freed (low ∷ []) used (high ∷ []) ≡ record { size = 88; free = true } ∷ []
unfolding join_back absorb_size absorb_rest
freed_one = refl

free-alloc_example : IsHeap (free (alloc fresh 10).0 (alloc fresh 10).1) whole
free-alloc_example = free-alloc fresh whole 10 fresh-IsHeap alloc-set

stats-blocks_example :
    (stats three ≡ (record {
      heap_size = extent (low ∷ used ∷ high ∷ []);
      used_bytes = bytes false 16 (low ∷ used ∷ high ∷ []);
      free_bytes = bytes true 0 (low ∷ used ∷ high ∷ []);
      alloc_count = number false (low ∷ used ∷ high ∷ []);
      free_count = number true (low ∷ used ∷ high ∷ []);
    }))
    × ((stats three).used_bytes + (stats three).free_bytes + 16 * (stats three).free_count
        ≡ (stats three).heap_size)
stats-blocks_example = stats-blocks three (low ∷ used ∷ high ∷ []) three-IsHeap

-- The front of the heap, over an allocator that hands out the pages of the 4 MiB from 2 MiB on in turn.
abbrev frames_of : Services ℕ
frames_of = record {
  pmm_alloc_page = λ p. (p + 1, 0x200000 + p % 1024 * page_size);
  pmm_free_page = λ p addr. p;
  pmm_total_pages = λ p. 1024;
  pmm_managed_base = λ p. 0x200000;
  vma_is_ready = λ p. false;
  vma_add = λ p start end flags name. (p, fail);
  vma_remove = λ p start. (p, fail);
}

abbrev kernel : Heap ℕ State
kernel = record {
  ops = none;
  store = unset;
  vmm = record {
    pd = λ i. 0;
    frames = λ f i. 0;
    ready = true;
    next_vaddr = 0xD0000000;
    direct_map_end = 0xD0000000;
    cr3 = 0x106000;
    flushed = [];
    rest = 0;
  };
}

kept-status : (phys : ℕ) (r : Vmm ℕ × Status) → (keep_or_free frames_of phys r).1 ≡ r.1
unfolding keep_or_free
kept-status phys (v, ok) = refl
kept-status phys (v, fail) = refl

round_mapped :
    (v : Vmm ℕ) (virt rest phys : ℕ)
    → virt % page_size ≡ 0
    → phys % page_size ≡ 0
    → phys ≢ 0
    → (map_round frames_of v virt (rest, phys)).1 ≡ ok
unfolding map_round
round_mapped v virt rest phys a b n =
    let set : (phys == 0) ≡ false = ground (arith, n) in
    rw set (
      kept-status phys _
      ∙ (map_page-ok_iff frames_of (record v { rest = rest }) virt phys 3).1
          (low_bits-mod virt ∙ a, low_bits-mod phys ∙ b, inr (λ e. omega (arith, e))))

both_mapped :
    (r : Status) (v : Vmm ℕ) (rest : Vmm ℕ × Status)
    → r ≡ ok
    → rest.1 ≡ ok
    → (elim r as (λ x. Vmm ℕ × Status) [ fail ↦ (v, fail) | ok ↦ rest ]).1 ≡ ok
both_mapped ok v rest e f = f
both_mapped fail v rest e f = e

pages_mapped : (v : Vmm ℕ) (i n : ℕ) → (map_heap frames_of v i n).1 ≡ ok
unfolding map_heap
pages_mapped v i zero = refl
pages_mapped v i (suc n) =
    let virt = add32 heap_start (mul32 i page_size) in
    let step = map_round frames_of v virt (frames_of.pmm_alloc_page v.rest) in
    let e : step.1 ≡ ok =
      round_mapped v virt _ (frames_of.pmm_alloc_page v.rest).1 (omega arith) (omega arith)
        (λ e. omega (arith, e)) in
    both_mapped step.1 step.0 (map_heap frames_of step.0 (i + 1) n) e
      (pages_mapped step.0 (i + 1) n)

kmalloc-kmalloc_init_example :
    let (h1, p) = kmalloc (started frames_of kernel 0x101000) 100 in
    (p % 8 ≡ 0)
    × (heap_start + 16 ≤ p)
    × (p + 100 ≤ heap_start + initial_pages * page_size)
    × IsHeap (kfree h1 p).store (first_block ∷ [])
kmalloc-kmalloc_init_example =
    kmalloc-kmalloc_init frames_of kernel 0x101000 100 (pages_mapped kernel.vmm 0 initial_pages)
      (omega arith)
