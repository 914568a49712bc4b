-- ===== src/Heap/FirstFit/Alloc.antt =====
-- The heap as a list of blocks, and what an allocation does with it.
use mathlib.Core.Path.{subst}
use my_microkernel.Prelude.{
  ℕ, ◌+◌, ◌-◌, ◌%◌, ◌≤◌, ◌<◌, ◌≡◌, ◌≢◌, refl, sym, ap, ◌∙◌, arith, true, false, word, add32, sub32,
  update, update_self, List, [], ◌∷◌, ◌++◌, ◌⊎◌, inl, inr, Option,
}
use my_microkernel.Heap.FirstFit.{
  Header, Memory, State, init, align8, alloc, alloc_result, find_fit, rounds, take,
}
use my_microkernel.Heap.FirstFit.Blocks.{
  Block, extent, fits, AllBlocks, carve, taken, left_over, Coalesced, carved-Coalesced,
  extent-append, extent-carve,
}
use my_microkernel.Heap.FirstFit.Tiles.{
  link, Describes, Tiles, last_of, Rewrites, Tiles-behind, Tiles-exchange,
}
use my_microkernel.Heap.FirstFit.Carve.{take-Tiles}
use my_microkernel.Heap.FirstFit.Search.{FirstFit, Finds, find_fit-Finds}
use my_microkernel.Heap.FirstFit.Aligned.{
  Aligned, mod-align8, align8-large, carve-Aligned, append-Aligned, before-Aligned, after-Aligned,
  extent-Aligned,
}

-- The heap consists of the blocks `bs`, from its start to its break.
pub record IsHeap (s : State) (bs : List Block) : Type 0 where
  pub started : 0 < s.heap_start
  pub first : s.free_list ≡ s.heap_start
  pub non_empty : link s.heap_start bs ≡ s.heap_start
  pub filled : s.heap_brk ≡ s.heap_start + extent bs
  pub small : s.heap_brk < word
  pub tiles : Tiles s.memory 0 s.heap_start bs
  pub coalesced : Coalesced false bs
  pub start_aligned : s.heap_start % 8 ≡ 0
  pub aligned : Aligned bs

link-append :
    (a : ℕ) (ps : List Block) (b c : Block) (bs cs : List Block)
    → link a (ps ++ (b ∷ bs)) ≡ link a (ps ++ (c ∷ cs))
link-append a [] b c bs cs = refl
link-append a (p ∷ ps) b c bs cs = refl

-- Blocks behind the first ones are exchanged for blocks of the same extent.
pub exchanged-IsHeap :
    (s : State) (n : Memory) (ps : List Block) (b c : Block) (bs cs : List Block)
    → IsHeap s (ps ++ (b ∷ bs))
    → Rewrites s.memory n (last_of 0 s.heap_start ps) (s.heap_start + extent ps) (c ∷ cs)
    → extent (c ∷ cs) ≡ extent (b ∷ bs)
    → Coalesced false (ps ++ (c ∷ cs))
    → Aligned (c ∷ cs)
    → IsHeap (record s { memory = n }) (ps ++ (c ∷ cs))
exchanged-IsHeap s n ps b c bs cs h r e k al = record {
  started = h.started;
  first = h.first;
  non_empty = link-append s.heap_start ps c b cs bs ∙ h.non_empty;
  filled = omega (arith, h.filled, extent-append ps (b ∷ bs), extent-append ps (c ∷ cs), e);
  small = h.small;
  tiles =
      Tiles-exchange s.memory n 0 s.heap_start ps (b ∷ bs) (c ∷ cs) h.tiles (λ x i. sym (r.1 x i))
        tt r.0;
  coalesced = k;
  start_aligned = h.start_aligned;
  aligned = append-Aligned ps (c ∷ cs) (before-Aligned ps (b ∷ bs) h.aligned) al;
}

-- What an allocation of `size` bytes may give: NULL when no block fits, and then nothing changes, or
-- the first block that fits, carved.
abbrev pub Allocates : (s : State) (bs : List Block) (size : ℕ) → State × ℕ → Type 0
Allocates s bs size r =
    ((r ≡ (s, 0)) × AllBlocks (λ b. fits size b ≡ false) bs)
    ⊎ ((f : FirstFit size bs) × (r.1 ≡ s.heap_start + extent f.before + 16)
        × IsHeap r.0 (f.before ++ (carve size f.block ++ f.after)))

taken-IsHeap :
    (s : State) (size : ℕ) (ps : List Block) (b : Block) (bs : List Block)
    → size % 8 ≡ 0
    → b.free ≡ true
    → size ≤ b.size
    → IsHeap s (ps ++ (b ∷ bs))
    → IsHeap
        (record s { memory = take s.memory (s.heap_start + extent ps) size })
        (ps ++ (carve size b ++ bs))
taken-IsHeap s size ps b bs d f l h =
    let a = s.heap_start + extent ps in
    let total : s.heap_brk ≡ s.heap_start + (extent ps + (16 + b.size + extent bs)) =
      h.filled ∙ ap (λ (x : ℕ). s.heap_start + x) (unfold extent in extent-append ps (b ∷ bs)) in
    let whole : extent (carve size b ++ bs) ≡ extent (b ∷ bs) =
      unfold extent in omega (arith, extent-append (carve size b) bs, extent-carve size b l) in
    exchanged-IsHeap s (take s.memory a size) ps b (taken size b) bs (left_over size b ++ bs) h
      (take-Tiles s.memory (last_of 0 s.heap_start ps) a size b bs l (omega (arith, h.started))
        (omega (arith, total, h.small)) (Tiles-behind s.memory 0 s.heap_start ps (b ∷ bs) h.tiles))
      whole (carved-Coalesced false ps size b bs f h.coalesced)
      (carve-Aligned size b bs d (after-Aligned ps (b ∷ bs) h.aligned))

alloc_result-Allocates :
    (s : State) (bs : List Block) (size : ℕ) (r : Option ℕ)
    → size % 8 ≡ 0
    → IsHeap s bs
    → Finds size s.heap_start bs r
    → Allocates s bs size (alloc_result s size r)
unfolding alloc_result
alloc_result-Allocates s bs size r d h (inl (e, all)) = inl (rw e refl, all)
alloc_result-Allocates s bs size r d h (inr (f, e)) =
    let a = s.heap_start + extent f.before in
    let g : IsHeap s (f.before ++ (f.block ∷ f.after)) = subst (λ l. IsHeap s l) f.splits h in
    let total : s.heap_brk ≡ s.heap_start + (extent f.before + extent (f.block ∷ f.after)) =
      g.filled ∙ ap (λ (x : ℕ). s.heap_start + x) (extent-append f.before (f.block ∷ f.after)) in
    let sum : add32 a 16 ≡ a + 16 = unfold extent in omega (arith, total, g.small) in
    subst (λ (o : Option ℕ). Allocates s bs size (alloc_result s size o)) (sym e)
      (inr (f, sum, taken-IsHeap s size f.before f.block f.after d f.is_free f.large g))

-- `alloc` on a heap: with the size rounded up to a multiple of 8, either no block fits and the result is
-- NULL in the same state, or the result points behind the header of the first block that fits, and
-- the heap consists of the same blocks with that one carved.
pub alloc-Allocates :
    (s : State) (bs : List Block) (size : ℕ)
    → IsHeap s bs
    → Allocates s bs (align8 size) (alloc s size)
unfolding alloc
alloc-Allocates s bs size h =
    alloc_result-Allocates s bs (align8 size)
      (find_fit s.memory (align8 size) s.free_list (rounds s)) (mod-align8 size) h
      (subst
        (λ (x : ℕ).
          Finds (align8 size) s.heap_start bs (find_fit s.memory (align8 size) x (rounds s)))
        (h.non_empty ∙ sym h.first)
        (find_fit-Finds s.memory (align8 size) 0 s.heap_start bs (rounds s) h.started
          (omega (arith, h.filled)) h.tiles))

-- In a heap, when `alloc` of a size of at most 2^32 - 8 returns a pointer other than NULL, the pointer
-- is a multiple of 8 and lies at least 16 bytes behind the start of the heap, and the size bytes
-- from it on end at or before heap_brk.
pub alloc-bounds :
    (s : State) (bs : List Block) (size : ℕ)
    → IsHeap s bs
    → size + 7 < word
    → (alloc s size).1 ≢ 0
    → ((alloc s size).1 % 8 ≡ 0)
      × (s.heap_start + 16 ≤ (alloc s size).1)
      × ((alloc s size).1 + size ≤ s.heap_brk)
alloc-bounds s bs size h w n = elim (alloc-Allocates s bs size h) [
  | inl (e, all) ↦ absurd (n (ap (λ (r : State × ℕ). r.1) e))
  | inr (f, e, k) ↦
      let g : IsHeap s (f.before ++ (f.block ∷ f.after)) = subst (λ l. IsHeap s l) f.splits h in
      let al = extent-Aligned f.before (before-Aligned f.before (f.block ∷ f.after) g.aligned) in
      let total : s.heap_brk
          ≡ s.heap_start + (extent f.before + (16 + f.block.size + extent f.after)) =
        g.filled
        ∙ ap (λ (x : ℕ). s.heap_start + x)
            (unfold extent in extent-append f.before (f.block ∷ f.after)) in
      (
        omega (arith, e, al, h.start_aligned),
        omega (arith, e),
        omega (arith, e, total, f.large, align8-large size w),
      )
]

unfit-here :
    (size : ℕ) (ps : List Block) (b : Block) (bs : List Block)
    → AllBlocks (λ c. fits size c ≡ false) (ps ++ (b ∷ bs))
    → b.free ≡ true
    → size ≤ b.size
    → ⊥
unfit-here size [] b bs u f l = ground (arith, u.0, f)
unfit-here size (p ∷ ps) b bs u f l = unfit-here size ps b bs u.1 f l

-- In a heap, an allocation succeeds when one of the blocks is free and not smaller than the size as
-- ALIGN8 rounds it.
pub alloc-succeeds :
    (s : State) (ps : List Block) (b : Block) (bs : List Block) (size : ℕ)
    → IsHeap s (ps ++ (b ∷ bs))
    → b.free ≡ true
    → align8 size ≤ b.size
    → (alloc s size).1 ≢ 0
alloc-succeeds s ps b bs size h f l e = elim (alloc-Allocates s (ps ++ (b ∷ bs)) size h) [
  | inl (q, all) ↦ unfit-here (align8 size) ps b bs all f l
  | inr (g, q, k) ↦ absurd (omega (arith, e, q))
]

-- `init` makes the heap one free block.
pub init-IsHeap :
    (s : State) (start size : ℕ)
    → 0 < start
    → start % 8 ≡ 0
    → size % 8 ≡ 0
    → 16 ≤ size
    → start + size < word
    → IsHeap (init s start size) (record { size = size - 16; free = true } ∷ [])
unfolding init extent Tiles Coalesced
init-IsHeap s start size h a b l w = record {
  started = h;
  first = refl;
  non_empty = refl;
  filled = omega arith;
  small = omega arith;
  tiles = (only, tt);
  coalesced = (refl, tt);
  start_aligned = a;
  aligned = (omega (arith, b), tt);
}
  where
    block : Header
    block = record { size = sub32 size 16; is_free = 1; next = 0; prev = 0 }

    only :
        Describes (update s.memory start block start) (record { size = size - 16; free = true }) 0 0
    only =
        subst (λ (x : Header). Describes x (record { size = size - 16; free = true }) 0 0)
          (sym (update_self s.memory start block))
          (record {
            size = omega (arith, l, w);
            is_free = refl;
            next_link = refl;
            prev_link = refl;
          })
