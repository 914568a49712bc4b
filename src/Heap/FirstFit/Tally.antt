-- ===== src/Heap/FirstFit/Tally.antt =====
-- The statistics of a heap.
use my_microkernel.Prelude.{
  ℕ, zero, suc, ◌+◌, ◌*◌, ◌≤◌, ◌<◌, ◌≡◌, refl, sym, ap, ◌∙◌, arith, Bool, true, false, ◌==◌,
  if◌then◌else◌, word, add32, sub32, List, [], ◌∷◌, Bool-cases, inl, inr,
}
use my_microkernel.Heap.{Stats}
use my_microkernel.Heap.FirstFit.{Header, Memory, State, stats, stats_from, rounds}
use my_microkernel.Heap.FirstFit.Blocks.{Block, extent}
use my_microkernel.Heap.FirstFit.Tiles.{link, Describes, Tiles}
use my_microkernel.Heap.FirstFit.Alloc.{IsHeap}

-- The blocks, and the bytes of the blocks, that are free (or not); a header counts `header` bytes.
unfoldable pub number : Bool → List Block → ℕ
number f [] = 0
number f (b ∷ bs) = (if b.free then (if f then 1 else 0) else (if f then 0 else 1)) + number f bs

unfoldable pub bytes : (f : Bool) (header : ℕ) → List Block → ℕ
bytes f header [] = 0
bytes f header (b ∷ bs) =
    (if b.free then (if f then b.size + header else 0) else (if f then 0 else b.size + header))
    + bytes f header bs

-- Nothing wraps around in adding the blocks to `t`.
record Room (t : Stats) (bs : List Block) : Type 0 where
  used_bytes : t.used_bytes + extent bs < word
  free_bytes : t.free_bytes + extent bs < word
  alloc_count : t.alloc_count + extent bs < word
  free_count : t.free_count + extent bs < word

abbrev tallied : Stats → List Block → Stats
tallied t bs = record t {
  used_bytes = t.used_bytes + bytes false 16 bs;
  free_bytes = t.free_bytes + bytes true 0 bs;
  alloc_count = t.alloc_count + number false bs;
  free_count = t.free_count + number true bs;
}

abbrev counted : (size used free allocs frees : ℕ) → Stats
counted size used free allocs frees = record {
  heap_size = size;
  used_bytes = used;
  free_bytes = free;
  alloc_count = allocs;
  free_count = frees;
}

same :
    (h : ℕ) {u u1 f f1 a a1 c c1 : ℕ}
    → u ≡ u1
    → f ≡ f1
    → a ≡ a1
    → c ≡ c1
    → counted h u f a c ≡ counted h u1 f1 a1 c1
same h p q r s = λ i. record {
  heap_size = h;
  used_bytes = p i;
  free_bytes = q i;
  alloc_count = r i;
  free_count = s i;
}

-- The statistics after the block `b`.
step : Stats → Block → Stats
step t b =
    if b.free
    then record t { free_bytes = t.free_bytes + b.size; free_count = t.free_count + 1 }
    else record t { used_bytes = t.used_bytes + (b.size + 16); alloc_count = t.alloc_count + 1 }

step-Room : (t : Stats) (b : Block) (bs : List Block) → Room t (b ∷ bs) → Room (step t b) bs
unfolding extent step
step-Room t b bs r = elim (Bool-cases b.free) [
  | inl y ↦ rw y (record {
    used_bytes = omega (arith, r.used_bytes);
    free_bytes = omega (arith, r.free_bytes);
    alloc_count = omega (arith, r.alloc_count);
    free_count = omega (arith, r.free_count);
  })
  | inr y ↦ rw y (record {
    used_bytes = omega (arith, r.used_bytes);
    free_bytes = omega (arith, r.free_bytes);
    alloc_count = omega (arith, r.alloc_count);
    free_count = omega (arith, r.free_count);
  })
]

tallied-step :
    (t : Stats) (b : Block) (bs : List Block) → tallied (step t b) bs ≡ tallied t (b ∷ bs)
unfolding step number bytes
tallied-step t b bs = elim (Bool-cases b.free) [
  | inl y ↦ rw y (same t.heap_size (omega arith) (omega arith) (omega arith) (omega arith))
  | inr y ↦ rw y (same t.heap_size (omega arith) (omega arith) (omega arith) (omega arith))
]

-- What the loop makes of one block.
abbrev round : Header → Stats → Stats
round h t =
    if h.is_free == 0
    then record t {
      used_bytes = add32 t.used_bytes (add32 h.size 16);
      alloc_count = add32 t.alloc_count 1;
    }
    else record t { free_bytes = add32 t.free_bytes h.size; free_count = add32 t.free_count 1 }

round-step :
    (h : Header) (b : Block) (prev next : ℕ) (bs : List Block) (t : Stats)
    → Describes h b prev next
    → Room t (b ∷ bs)
    → round h t ≡ step t b
unfolding step extent
round-step h b prev next bs t d r = elim (Bool-cases b.free) [
  | inl y ↦
      let e : h.is_free == 0 ≡ false = ground (arith, d.is_free, y) in
      rw (e, y, d.size)
        (same t.heap_size refl (omega (arith, r.free_bytes)) refl (omega (arith, r.free_count)))
  | inr y ↦
      let e : h.is_free == 0 ≡ true = ground (arith, d.is_free, y) in
      rw (e, y, d.size)
        (same t.heap_size (omega (arith, r.used_bytes)) refl (omega (arith, r.alloc_count)) refl)
]

stats_from-tallied :
    (m : Memory) (prev a n : ℕ) (bs : List Block) (t : Stats)
    → 0 < a
    → extent bs ≤ n
    → Room t bs
    → Tiles m prev a bs
    → stats_from m (link a bs) n t ≡ tallied t bs
unfolding stats_from Tiles extent number bytes
stats_from-tallied m prev a zero [] t p h r u =
    same t.heap_size (omega arith) (omega arith) (omega arith) (omega arith)
stats_from-tallied m prev a (suc n) [] t p h r u =
    same t.heap_size (omega arith) (omega arith) (omega arith) (omega arith)
stats_from-tallied m prev a zero (b ∷ bs) t p h r u = absurd (omega arith)
stats_from-tallied m prev a (suc n) (b ∷ bs) t p h r u =
    let next = a + 16 + b.size in
    let later =
      stats_from-tallied m a next n bs (step t b) (omega arith) (omega arith) (step-Room t b bs r)
        u.1 in
    let z : a == 0 ≡ false = ground arith in
    let first : stats_from m a (suc n) t ≡ stats_from m (link next bs) n (round (m a) t) =
      rw (z, u.0.next_link) refl in
    first
    ∙ ap (λ (x : Stats). stats_from m (link next bs) n x)
        (round-step (m a) b prev (link next bs) bs t u.0 r)
    ∙ later
    ∙ tallied-step t b bs

bytes_total :
    (bs : List Block) → bytes false 16 bs + bytes true 0 bs + 16 * number true bs ≡ extent bs
unfolding bytes number extent
bytes_total [] = refl
bytes_total (b ∷ bs) = ground (arith, bytes_total bs)

stats-all :
    (s : State) (bs : List Block)
    → IsHeap s bs
    → stats s ≡ (record {
      heap_size = extent bs;
      used_bytes = bytes false 16 bs;
      free_bytes = bytes true 0 bs;
      alloc_count = number false bs;
      free_count = number true bs;
    })
unfolding stats
stats-all s bs h =
    let size : sub32 s.heap_brk s.heap_start ≡ extent bs = omega (arith, h.filled, h.small) in
    let start : Stats = record {
      heap_size = extent bs;
      used_bytes = 0;
      free_bytes = 0;
      alloc_count = 0;
      free_count = 0;
    } in
    let room : Room start bs = record {
      used_bytes = omega (arith, h.filled, h.small);
      free_bytes = omega (arith, h.filled, h.small);
      alloc_count = omega (arith, h.filled, h.small);
      free_count = omega (arith, h.filled, h.small);
    } in
    let list : s.free_list ≡ link s.heap_start bs = h.first ∙ sym h.non_empty in
    rw (size, list)
      (stats_from-tallied s.memory 0 s.heap_start (rounds s) bs start h.started
          (omega (arith, h.filled)) room h.tiles
        ∙ same (extent bs) (omega arith) (omega arith) (omega arith) (omega arith))

-- `stats` of a heap: the heap's bytes, the bytes of the used blocks with their headers, those of the free
-- blocks without, and the numbers of both. Nothing wraps around, and with the headers of the free
-- blocks the two sums make up the heap.
pub stats-blocks :
    (s : State) (bs : List Block)
    → IsHeap s bs
    → (stats s ≡ (record {
      heap_size = extent bs;
      used_bytes = bytes false 16 bs;
      free_bytes = bytes true 0 bs;
      alloc_count = number false bs;
      free_count = number true bs;
    }))
      × ((stats s).used_bytes + (stats s).free_bytes + 16 * (stats s).free_count
          ≡ (stats s).heap_size)
stats-blocks s bs h =
    let e = stats-all s bs h in
    let sum : (Stats → ℕ) = λ t. t.used_bytes + t.free_bytes + 16 * t.free_count in
    (e, ap sum e ∙ bytes_total bs ∙ sym (ap (λ (t : Stats). t.heap_size) e))
