-- ===== src/Heap/FirstFit/Calls.antt =====
-- `kmalloc`, `kfree` and `kmalloc_init` with the first-fit back end registered.
use mathlib.Core.Path.{subst}
use my_microkernel.Prelude.{
  ℕ, ◌+◌, ◌*◌, ◌%◌, ◌≤◌, page_size, ◌≡◌, ◌≢◌, refl, sym, arith, true, some, [], ◌∷◌, Status, ok,
  fail,
}
use my_microkernel.Vmm.{Services, Vmm}
use my_microkernel.Heap.{
  Heap, HeapOps, register_heap, kmalloc, kfree, kmalloc_init, start_backend, map_heap,
  initial_pages, heap_start,
}
use my_microkernel.Heap.FirstFit.{State, first_fit_ops, init, alloc}
use my_microkernel.Heap.FirstFit.Aligned.{align8-div}
use my_microkernel.Heap.FirstFit.Blocks.{Block}
use my_microkernel.Heap.FirstFit.Alloc.{IsHeap, init-IsHeap, alloc-bounds, alloc-succeeds}
use my_microkernel.Heap.FirstFit.Free.{free-alloc}

abbrev pub first_block : Block
first_block = record { size = 65520; free = true }

first_block-IsHeap :
    (s : State) → IsHeap (init s heap_start (initial_pages * page_size)) (first_block ∷ [])
first_block-IsHeap s =
    init-IsHeap s heap_start (initial_pages * page_size) (omega arith) (omega arith) (omega arith)
      (omega arith) (omega arith)

module _ {S : Type 0} (k : Services S) (h : Heap S State) (name : ℕ) where
  -- The heap's front after the first-fit back end has been registered and the heap set up.
  abbrev pub started : Heap S State
  started = kmalloc_init k (register_heap h (some (first_fit_ops name)))

  -- The heap's data after the mapping of its pages.
  abbrev pub ready_store : State
  ready_store = init h.store heap_start (initial_pages * page_size)

  abbrev with_first_fit : Heap S State
  with_first_fit = record h { ops = some (first_fit_ops name); store = ready_store }

  start_backend-ok :
      (o : HeapOps State) (r : Vmm S × Status)
      → r.1 ≡ ok
      → start_backend k (record h { ops = some o }) o r ≡ record h {
        ops = some o;
        vmm = r.0;
        store = o.init h.store heap_start (initial_pages * page_size);
      }
  unfolding start_backend
  start_backend-ok o (v, ok) e = refl
  start_backend-ok o (v, fail) e = absurd (ground arith)

  started-mapped :
      (map_heap k h.vmm 0 initial_pages).1 ≡ ok
      → started ≡ record with_first_fit { vmm = (map_heap k h.vmm 0 initial_pages).0 }
  unfolding kmalloc_init register_heap first_fit_ops
  started-mapped e = start_backend-ok (first_fit_ops name) (map_heap k h.vmm 0 initial_pages) e

  -- What `kmalloc` and `kfree` do for a size in the heap of before, `x`.
  abbrev Serves : Heap S State → ℕ → Type 0
  Serves x size =
      let (x1, p) = kmalloc x size in
      (p % 8 ≡ 0)
      × (heap_start + 16 ≤ p)
      × (p + size ≤ heap_start + initial_pages * page_size)
      × IsHeap (kfree x1 p).store (first_block ∷ [])

  serves : (v : Vmm S) (size : ℕ) → size ≤ 65520 → Serves (record with_first_fit { vmm = v }) size
  unfolding kmalloc kfree first_fit_ops init
  serves v size small =
      let i = first_block-IsHeap h.store in
      let n : (alloc ready_store size).1 ≢ 0 =
        alloc-succeeds ready_store [] first_block [] size i refl (omega (arith, align8-div size)) in
      let (a, b, c) = alloc-bounds ready_store (first_block ∷ []) size i (omega arith) n in
      (a, b, c, free-alloc ready_store (first_block ∷ []) size i n)

  -- From start to use: after the first-fit back end has been registered and `kmalloc_init` has mapped all the
  -- heap's pages, `kmalloc` of a size of at most 65520 bytes returns a multiple of 8, and the size
  -- bytes from it on lie behind the first header and before the end of the 64 KiB that are mapped.
  -- `kfree` of it leaves a heap of one free block of 65520 bytes again.
  pub kmalloc-kmalloc_init :
      (size : ℕ)
      → (map_heap k h.vmm 0 initial_pages).1 ≡ ok
      → size ≤ 65520
      → let (h1, p) = kmalloc started size in
        (p % 8 ≡ 0)
        × (heap_start + 16 ≤ p)
        × (p + size ≤ heap_start + initial_pages * page_size)
        × IsHeap (kfree h1 p).store (first_block ∷ [])
  kmalloc-kmalloc_init size e small =
      subst (λ (x : Heap S State). Serves x size) (sym (started-mapped e))
        (serves (map_heap k h.vmm 0 initial_pages).0 size small)
