-- ===== src/Heap/Slab/Return.antt =====
-- A slot that is taken and given back.
use mathlib.Core.Path.{subst}
use my_microkernel.Prelude.{
  ℕ, ◌-◌, ◌<◌, ◌≡◌, ◌≢◌, refl, sym, ap, ◌∙◌, arith, true, false, ◌==◌, leb, update, update_self,
  update_ne, add32, ℕ_discrete,
}
use my_microkernel.Heap.Slab.{
  Header, Cache, State, set_bit, clear_bit, take_slot, alloc_in, free_slot, free,
}
use my_microkernel.Heap.Slab.Bits.{test}
use my_microkernel.Heap.Slab.Slots.{
  IsSlab, SameHeader, taken, after_last, after_other, take_last, take_other, alloc_in-Takes,
}
use my_microkernel.Heap.Slab.Moves.{
  Restored, returned, free-slot, given_back, free_slot-full, make_partial-first,
}

module _ (s : State) (ci slot : ℕ) (v : IsSlab s (s.caches ci).partial) where
  abbrev slab : ℕ
  slab = (s.caches ci).partial

  abbrev head : Header
  head = s.memory slab

  -- The header after both.
  abbrev back : Header
  back = record head {
    free_bitmap = set_bit (clear_bit head.free_bitmap slot) slot;
    free_count = add32 (head.free_count - 1) 1;
  }

  back-SameHeader : test head.free_bitmap slot ≡ true → SameHeader back head
  back-SameHeader t = record {
    next = refl;
    cache_idx = refl;
    obj_size = refl;
    capacity = refl;
    free_count = omega (arith, v.counted, v.in_word);
    bits = λ j. given_back head.free_bitmap slot j t;
  }

  free_slot-other :
      slot < head.capacity
      → head.free_count ≢ 1
      → free_slot (after_other s ci slab slot) slab slot
        ≡ (record s { memory = update (update s.memory slab (taken head slot)) slab back })
  unfolding free_slot
  free_slot-other l n =
      let e : slab == slab ≡ true = ground arith in
      let c : leb head.capacity slot ≡ false = ground (arith, l) in
      let z : (head.free_count - 1) == 0 ≡ false = ground (arith, n, v.counted) in rw (e, c, z) refl

  -- The state when the slab was full and has got its slot back, before it is moved.
  abbrev full_head : Header
  full_head = record (taken head slot) { next = (s.caches ci).full }

  abbrev moving : State
  moving = record (after_last s ci slab slot) {
    memory =
        update (after_last s ci slab slot).memory slab
          (returned ((after_last s ci slab slot).memory slab) slot);
  }

  at_full : (after_last s ci slab slot).memory slab ≡ full_head
  at_full = update_self s.memory slab full_head

  at_moving : moving.memory slab ≡ returned full_head slot
  at_moving =
      update_self (after_last s ci slab slot).memory slab
        (returned ((after_last s ci slab slot).memory slab) slot)
      ∙ ap (λ (h : Header). returned h slot) at_full

  at_cache : moving.caches ci ≡ (record (s.caches ci) { partial = head.next; full = slab })
  at_cache = update_self s.caches ci (record (s.caches ci) { partial = head.next; full = slab })

  abbrev moved_cache : Cache
  moved_cache = record {
    obj_size = (moving.caches ci).obj_size;
    partial = slab;
    full = (moving.memory slab).next;
  }

  moved_same : moved_cache ≡ s.caches ci
  moved_same =
      λ j. record { obj_size = (at_cache j).obj_size; partial = slab; full = (at_moving j).next }

  abbrev moved_head : Header
  moved_head = record (moving.memory slab) { next = (moving.caches ci).partial }

  moved_back : moved_head ≡ back
  moved_back = λ j. record (at_moving j) { next = (at_cache j).partial }

  moved_caches : (x : ℕ) → update moving.caches ci moved_cache x ≡ s.caches x
  moved_caches x = elim (ℕ_discrete ci x) [
    | yes e ↦ rw (← e) (update_self moving.caches ci moved_cache ∙ moved_same)
    | no n ↦
        update_ne moving.caches ci x moved_cache n
        ∙ update_ne s.caches ci x (record (s.caches ci) { partial = head.next; full = slab }) n
  ]

  moved_memory : (x : ℕ) → slab ≢ x → update moving.memory slab moved_head x ≡ s.memory x
  moved_memory x n =
      update_ne moving.memory slab x moved_head n
      ∙ update_ne (after_last s ci slab slot).memory slab x
          (returned ((after_last s ci slab slot).memory slab) slot) n
      ∙ update_ne s.memory slab x full_head n

  free-taken :
      head.cache_idx ≡ ci
      → slot < head.capacity
      → test head.free_bitmap slot ≡ true
      → Restored s (free (take_slot s ci slab slot).0 (take_slot s ci slab slot).1) slab
  free-taken i l t = elim (ℕ_discrete head.free_count 1) [
    | yes n ↦
        let after = after_last s ci slab slot in
        let size = ap (λ (h : Header). h.obj_size) at_full in
        let room : slot < (after.memory slab).capacity =
          subst (λ (h : Header). slot < h.capacity) (sym at_full) l in
        let none_free : (after.memory slab).free_count ≡ 0 =
          ap (λ (h : Header). h.free_count) at_full ∙ omega (arith, n) in
        let e =
          free-slot s after ci slab slot v l size
          ∙ free_slot-full after slab slot room none_free
          ∙ make_partial-first moving ci slab v.set (ap (λ (h : Header). h.cache_idx) at_moving ∙ i)
              (ap (λ (c : Cache). c.full) at_cache) in
        subst (λ (r : State × ℕ). Restored s (free r.0 r.1) slab)
          (sym (take_last s ci slab slot v l n))
          (subst (λ (u : State). Restored s u slab) (sym e)
            (record {
              caches = moved_caches;
              others = moved_memory;
              header =
                  subst (λ (h : Header). SameHeader h head)
                    (sym (update_self moving.memory slab moved_head ∙ moved_back))
                    (back-SameHeader t);
            }))
    | no n ↦
        let after = after_other s ci slab slot in
        let size = ap (λ (h : Header). h.obj_size) (update_self s.memory slab (taken head slot)) in
        let e = free-slot s after ci slab slot v l size ∙ free_slot-other l n in
        let m1 = update s.memory slab (taken head slot) in
        subst (λ (r : State × ℕ). Restored s (free r.0 r.1) slab)
          (sym (take_other s ci slab slot v l n))
          (subst (λ (u : State). Restored s u slab) (sym e)
            (record {
              caches = λ x. refl;
              others =
                  λ x d. update_ne m1 slab x back d ∙ update_ne s.memory slab x (taken head slot) d;
              header =
                  subst (λ (h : Header). SameHeader h head) (sym (update_self m1 slab back))
                    (back-SameHeader t);
            }))
  ]

-- `free` of the pointer that `alloc_in` returned gives back the lists of all caches and all headers, bit
-- for bit, also when the slab was full in between and went to the other list and back: if the
-- cache's first slab with free slots is in order, belongs to the cache and has a free slot.
pub free-alloc_in :
    (s : State) (ci i : ℕ)
    → IsSlab s (s.caches ci).partial
    → (s.memory (s.caches ci).partial).cache_idx ≡ ci
    → i < (s.memory (s.caches ci).partial).capacity
    → test (s.memory (s.caches ci).partial).free_bitmap i ≡ true
    → Restored s (free (alloc_in s ci).0 (alloc_in s ci).1) (s.caches ci).partial
free-alloc_in s ci i v c l t =
    let (slot, p, q, e, at, inside, bits) = alloc_in-Takes s ci i v l t in
    subst (λ (r : State × ℕ). Restored s (free r.0 r.1) (s.caches ci).partial) (sym e)
      (free-taken s ci slot v c p q)
