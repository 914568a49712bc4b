-- ===== src/Heap/FirstFit/Free.antt =====
-- What a release does with the heap's blocks, and that it undoes an allocation.
use mathlib.Core.Path.{subst}
use my_microkernel.Prelude.{
  ℕ, ◌+◌, ◌≤◌, ◌<◌, ◌≡◌, ◌≢◌, refl, sym, ap, ◌∙◌, arith, true, false, ltb, leb, ◌==◌, word, sub32,
  update, update_self, update_ne, List, [], Option, none, some, ◌∷◌, ◌++◌, inl, inr,
}
use my_microkernel.Heap.FirstFit.{
  Header, Memory, State, align8, alloc, alloc_result, find_fit, free, release, rounds,
  merge_forward, merge_backward,
}
use my_microkernel.Heap.FirstFit.Blocks.{
  Block, extent, taken, left_over, absorb, absorb_size, absorb_rest, join_back, freed,
  freed-Coalesced, freed-carve, extent-append, extent-absorb, extent-join_back,
}
use my_microkernel.Heap.FirstFit.Tiles.{
  link, Describes, Tiles, last_of, Rewrites, Tiles-behind, Tiles-exchange, Tiles-agree,
}
use my_microkernel.Heap.FirstFit.Merge.{merge_forward-Tiles, merge_backward-Tiles}
use my_microkernel.Heap.FirstFit.Aligned.{freed-Aligned}
use my_microkernel.Heap.FirstFit.Alloc.{IsHeap, alloc-Allocates}

abbrev released : Block → Block
released b = record { size = b.size; free = true }

mark_free : Memory → ℕ → Memory
mark_free m x = update m x (record (m x) { is_free = 1 })

mark_free-Tiles :
    (m : Memory) (prev a : ℕ) (b : Block) (bs : List Block)
    → Tiles m prev a (b ∷ bs)
    → Rewrites m (mark_free m a) prev a (released b ∷ bs)
unfolding Tiles mark_free
mark_free-Tiles m prev a b bs t =
    let d = t.0 in
    let head : Header = record (m a) { is_free = 1 } in
    let n = update m a head in
    let next = a + 16 + b.size in
    (
      (
        subst (λ (x : Header). Describes x (released b) prev (link next bs))
            (sym (update_self m a head))
            (record {
              size = d.size;
              is_free = refl;
              next_link = d.next_link;
              prev_link = d.prev_link;
            }),
        Tiles-agree m n a next bs (λ x i. sym (update_ne m a x head (λ e. omega (arith, e)))) t.1,
      ),
      λ x i. update_ne m a x head (λ e. omega (arith, e)),
    )

-- Marking the block behind `ps` and merging it with the free blocks behind it.
forward-Tiles :
    (m : Memory) (a n : ℕ) (ps : List Block) (b : Block) (bs : List Block)
    → 0 < a
    → a + extent ps + 16 + b.size + extent bs < word
    → extent bs ≤ n
    → Tiles m 0 a (ps ++ (b ∷ bs))
    → Tiles
        (merge_forward (mark_free m (a + extent ps)) (a + extent ps) n)
        0
        a
        (ps ++ absorb b.size bs)
forward-Tiles m a n ps b bs p w h t =
    let x = a + extent ps in
    let prev = last_of 0 a ps in
    let k = mark_free m x in
    let one = mark_free-Tiles m prev x b bs (Tiles-behind m 0 a ps (b ∷ bs) t) in
    let two =
      merge_forward-Tiles k prev x n b.size bs (omega (arith, p)) (omega (arith, w)) h one.0 in
    Tiles-exchange m (merge_forward k x n) 0 a ps (b ∷ bs) (absorb b.size bs) t
      (λ y i. sym (two.1 y i ∙ one.1 y i)) tt two.0

-- Merging it into the block before.
backward-Tiles :
    (m : Memory) (a : ℕ) (ps : List Block) (b : Block) (bs : List Block)
    → 0 < a
    → a + extent ps + 16 + b.size < word
    → b.free ≡ true
    → Tiles m 0 a (ps ++ (b ∷ bs))
    → Tiles (merge_backward m (a + extent ps)) 0 a (join_back ps (b ∷ bs))
unfolding merge_backward join_back extent Tiles
backward-Tiles m a [] b bs p w f t =
    let at : a + 0 ≡ a = omega arith in
    let none : (m a).prev ≡ 0 = t.0.prev_link in
    let e : merge_backward m (a + 0) ≡ m = rw (at, none) refl in
    subst (λ (x : Memory). Tiles x 0 a (b ∷ bs)) (sym e) t
backward-Tiles m a (q ∷ ps) b bs p w f t =
    (merge_backward-Tiles m 0 a (a + extent (q ∷ ps)) q ps b bs p refl w f t).0

release-Tiles :
    (m : Memory) (a n : ℕ) (ps : List Block) (b : Block) (bs : List Block)
    → 0 < a
    → a + extent ps + 16 + b.size + extent bs < word
    → extent bs ≤ n
    → Tiles m 0 a (ps ++ (b ∷ bs))
    → Tiles (release m (a + extent ps) n) 0 a (freed ps b bs)
unfolding release mark_free
release-Tiles m a n ps b bs p w h t =
    let s = extent-absorb b.size bs in
    backward-Tiles (merge_forward (mark_free m (a + extent ps)) (a + extent ps) n) a ps
      (record { size = absorb_size b.size bs; free = true }) (absorb_rest bs) p
      (omega (arith, s, w)) refl (forward-Tiles m a n ps b bs p w h t)

freed-link : (a : ℕ) (ps : List Block) (b : Block) (bs : List Block) → link a (freed ps b bs) ≡ a
unfolding join_back
freed-link a [] b bs = refl
freed-link a (p ∷ []) b bs = ground arith
freed-link a (p ∷ q ∷ ps) b bs = refl

freed-extent :
    (ps : List Block) (b : Block) (bs : List Block)
    → extent (freed ps b bs) ≡ extent (ps ++ (b ∷ bs))
freed-extent ps b bs =
    unfold extent in
    omega (
      arith,
      extent-join_back ps (absorb b.size bs),
      extent-append ps (b ∷ bs),
      extent-absorb b.size bs,
    )

-- What `free` does with a pointer into the heap.
free-release :
    (s : State) (offset : ℕ)
    → s.heap_start + offset < s.heap_brk
    → s.heap_brk < word
    → free s (s.heap_start + offset + 16)
      ≡ (record s { memory = release s.memory (s.heap_start + offset) (rounds s) })
unfolding free
free-release s offset i w =
    let x = s.heap_start + offset in
    let e1 : sub32 (x + 16) 16 ≡ x = omega (arith, i, w) in
    let e2 : (x + 16) == 0 ≡ false = ground arith in
    let e3 : ltb x s.heap_start ≡ false = ground arith in
    let e4 : leb s.heap_brk x ≡ false = ground (arith, i) in rw (e1, e2, e3, e4) refl

-- `free` of the pointer behind the header of a block of the heap: the block is free, one with the free
-- blocks behind it and with the block before it if that is free, and the rest is as before. So the
-- heap has no two free blocks next to one another. A block that was free already is no exception.
pub free-IsHeap :
    (s : State) (ps : List Block) (b : Block) (bs : List Block)
    → IsHeap s (ps ++ (b ∷ bs))
    → IsHeap (free s (s.heap_start + extent ps + 16)) (freed ps b bs)
free-IsHeap s ps b bs h =
    let x = s.heap_start + extent ps in
    let total : s.heap_brk ≡ s.heap_start + (extent ps + (16 + b.size + extent bs)) =
      h.filled ∙ ap (λ (x : ℕ). s.heap_start + x) (unfold extent in extent-append ps (b ∷ bs)) in
    let inside : x < s.heap_brk = omega (arith, total) in
    let e = free-release s (extent ps) inside h.small in
    let done : IsHeap (record s { memory = release s.memory x (rounds s) }) (freed ps b bs) =
      record {
        started = h.started;
        first = h.first;
        non_empty = freed-link s.heap_start ps b bs;
        filled = h.filled ∙ ap (λ (x : ℕ). s.heap_start + x) (sym (freed-extent ps b bs));
        small = h.small;
        tiles =
            release-Tiles s.memory s.heap_start (rounds s) ps b bs h.started
              (omega (arith, total, h.small)) (omega (arith, total)) h.tiles;
        coalesced = freed-Coalesced ps b bs h.coalesced;
        start_aligned = h.start_aligned;
        aligned = freed-Aligned ps b bs h.aligned;
      } in
    subst (λ (y : State). IsHeap y (freed ps b bs)) (sym e) done

alloc-heap_start : (s : State) (size : ℕ) → (alloc s size).0.heap_start ≡ s.heap_start
unfolding alloc alloc_result
alloc-heap_start s size = of_result (find_fit s.memory (align8 size) s.free_list (rounds s))
  where
    of_result : (o : Option ℕ) → (alloc_result s (align8 size) o).0.heap_start ≡ s.heap_start
    of_result none = refl
    of_result (some x) = refl

-- Freeing the pointer that `alloc` returned, when it is not NULL, gives back the heap of before, block for
-- block.
pub free-alloc :
    (s : State) (bs : List Block) (size : ℕ)
    → IsHeap s bs
    → (alloc s size).1 ≢ 0
    → IsHeap (free (alloc s size).0 (alloc s size).1) bs
free-alloc s bs size h n = elim (alloc-Allocates s bs size h) [
  | inl (e, all) ↦ absurd (n (ap (λ (r : State × ℕ). r.1) e))
  | inr (f, e, k) ↦
      let g : IsHeap s (f.before ++ (f.block ∷ f.after)) = subst (λ l. IsHeap s l) f.splits h in
      let used = taken (align8 size) f.block in
      let rest = left_over (align8 size) f.block ++ f.after in
      let same = freed-carve f.before (align8 size) f.block f.after f.large f.is_free g.coalesced in
      let t = (alloc s size).0 in
      let at : t.heap_start + extent f.before + 16 ≡ (alloc s size).1 =
        ap (λ (x : ℕ). x + extent f.before + 16) (alloc-heap_start s size) ∙ sym e in
      subst (λ (p : ℕ). IsHeap (free t p) bs) at
        (subst (λ l. IsHeap (free t (t.heap_start + extent f.before + 16)) l) (same ∙ sym f.splits)
          (free-IsHeap t f.before used rest k))
]
