-- ===== src/Heap/Slab/Moves.antt =====
-- The steps of a release: the slot, and the move of the slab between the lists.
use mathlib.Core.Path.{subst}
use my_microkernel.Prelude.{
  ℕ, ◌+◌, ◌-◌, ◌*◌, ◌<◌, ◌≡◌, ◌≢◌, refl, arith, true, false, ◌==◌, leb, update, bit_and, word,
  add32, sub32, ℕ_discrete,
}
use my_microkernel.Heap.Slab.{
  Header, State, set_bit, clear_bit, unlink, make_partial, free_slot, free,
}
use my_microkernel.Heap.Slab.Bits.{test, test-set_bit, test-clear_bit}
use my_microkernel.Heap.Slab.Slots.{IsSlab, SameHeader, address, slot_room, page_of, times_div}

-- The headers and the lists are as before.
pub record Restored (s u : State) (slab : ℕ) : Type 0 where
  pub caches : (i : ℕ) → u.caches i ≡ s.caches i
  pub others : (x : ℕ) → slab ≢ x → u.memory x ≡ s.memory x
  pub header : SameHeader (u.memory slab) (s.memory slab)

-- `free` of the address of a slot finds the slab and the slot.
pub free-slot :
    (s t : State) (ci slab slot : ℕ)
    → IsSlab s slab
    → slot < (s.memory slab).capacity
    → (t.memory slab).obj_size ≡ (s.memory slab).obj_size
    → free t (address s slab slot) ≡ free_slot t slab slot
unfolding free
free-slot s t ci slab slot v l e =
    let size = (s.memory slab).obj_size in
    let room = slot_room s ci slab slot v l in
    let at : address s slab slot ≡ slab + (40 + slot * size) = omega arith in
    let page : bit_and (slab + (40 + slot * size)) (word - 4096) ≡ slab =
      page_of slab (40 + slot * size) v.page (omega (arith, v.small))
        (omega (arith, room, v.sized)) in
    let offset : sub32 (sub32 (slab + (40 + slot * size)) slab) 40 ≡ slot * size =
      omega (arith, v.small, room) in
    let set : (slab + (40 + slot * size)) == 0 ≡ false = ground arith in
    rw (at, page, set, offset, e, times_div slot size v.sized) refl

pub given_back :
    (bm : ℕ → ℕ) (slot j : ℕ)
    → test bm slot ≡ true
    → test (set_bit (clear_bit bm slot) slot) j ≡ test bm j
given_back bm slot j t =
    rw (test-set_bit (clear_bit bm slot) slot j, test-clear_bit bm slot j)
      (elim (ℕ_discrete slot j) [ yes e ↦ rw (← e) (ground (arith, t)) | no n ↦ ground (arith, n) ])

-- The header with a slot given back.
abbrev pub returned : Header → ℕ → Header
returned h slot = record h {
  free_bitmap = set_bit h.free_bitmap slot;
  free_count = add32 h.free_count 1;
}

pub free_slot-full :
    (t : State) (slab slot : ℕ)
    → slot < (t.memory slab).capacity
    → (t.memory slab).free_count ≡ 0
    → free_slot t slab slot
      ≡ make_partial
          (record t { memory = update t.memory slab (returned (t.memory slab) slot) })
          slab
unfolding free_slot
free_slot-full t slab slot l n =
    let c : leb (t.memory slab).capacity slot ≡ false = ground (arith, l) in
    let z : (t.memory slab).free_count == 0 ≡ true = ground (arith, n) in rw (c, z) refl

-- The state after a slab has been moved from the head of the full ones of the cache `ci`.
abbrev pub moved : (t : State) (ci slab : ℕ) → State
moved t ci slab = record t {
  caches =
      update t.caches ci
        (record { obj_size = (t.caches ci).obj_size; partial = slab; full = (t.memory slab).next });
  memory = update t.memory slab (record (t.memory slab) { next = (t.caches ci).partial });
}

make_partial-own :
    (t : State) (slab : ℕ)
    → 0 < slab
    → (t.caches (t.memory slab).cache_idx).full ≡ slab
    → make_partial t slab ≡ moved t (t.memory slab).cache_idx slab
unfolding make_partial unlink
make_partial-own t slab p f =
    let e : slab == slab ≡ true = ground arith in
    let g : slab == 0 ≡ false = ground (arith, p) in rw (f, g, e) refl

pub make_partial-first :
    (t : State) (ci slab : ℕ)
    → 0 < slab
    → (t.memory slab).cache_idx ≡ ci
    → (t.caches ci).full ≡ slab
    → make_partial t slab ≡ moved t ci slab
make_partial-first t ci slab p i f =
    subst (λ (c : ℕ). (t.caches c).full ≡ slab → make_partial t slab ≡ moved t c slab) i
      (λ g. make_partial-own t slab p g) f
