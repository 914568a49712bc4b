-- ===== src/Heap/Slab/Tests.antt =====
-- A slab of the largest size, which has room for one object, and a bitmap with the bits 5 and 40.
use my_microkernel.Prelude.{ap, digit-pow, ℕ, ◌≡◌, refl, arith, ◌==◌, if◌then◌else◌, true, some}
use my_microkernel.Heap.Slab.{
  Header, State, new_header, find_first_set, find_in_words, find_in_word, find_cache, find_size,
  take_slot, alloc_slot, alloc_in, free,
}
use my_microkernel.Heap.Slab.Bits.{test}
use my_microkernel.Heap.Slab.Slots.{IsSlab, Takes, alloc_in-Takes}
use my_microkernel.Heap.Slab.Moves.{Restored}
use my_microkernel.Heap.Slab.Return.{free-alloc_in}

abbrev bitmap : ℕ → ℕ
bitmap w = if w == 0 then 32 else if w == 1 then 256 else 0

first_bit : find_first_set bitmap 126 ≡ some 5
unfolding find_first_set find_in_words find_in_word
first_bit = refl

cache_of_fifty : find_cache 50 ≡ some 1
unfolding find_cache find_size
cache_of_fifty = refl

abbrev large : Header
large = record {
  next = 0;
  cache_idx = 6;
  obj_size = 2048;
  capacity = 1;
  free_count = 1;
  free_bitmap = λ w. if w == 0 then 1 else 0;
}

created : (new_header 6 2048).capacity ≡ 1
unfolding new_header
created = refl

abbrev one_slab : State
one_slab = record {
  caches = λ i.
      if i == 6
      then record { obj_size = 2048; partial = 0xE0000000; full = 0 }
      else record { obj_size = 32; partial = 0; full = 0 };
  slab_brk = 0xE0001000;
  slab_committed = 0xE0010000;
  memory = λ a. large;
}

one_slab-IsSlab : IsSlab one_slab 0xE0000000
one_slab-IsSlab = record {
  set = omega arith;
  page = refl;
  small = omega arith;
  sized = omega arith;
  fits = omega arith;
  bounded = omega arith;
  counted = omega arith;
  in_word = omega arith;
}

allocated : (alloc_in one_slab 6).1 ≡ 0xE0000028
unfolding alloc_in alloc_slot find_first_set find_in_words find_in_word take_slot
allocated = refl

bit-set : test large.free_bitmap 0 ≡ true
unfolding test
bit-set = ap (λ (x : ℕ). x == 1) (digit-pow 0 0)

alloc_in-Takes_example : Takes one_slab 6 (alloc_in one_slab 6)
alloc_in-Takes_example = alloc_in-Takes one_slab 6 0 one_slab-IsSlab (omega arith) bit-set

free-alloc_in_example :
    Restored one_slab (free (alloc_in one_slab 6).0 (alloc_in one_slab 6).1) 0xE0000000
free-alloc_in_example = free-alloc_in one_slab 6 0 one_slab-IsSlab refl (omega arith) bit-set
