-- ===== src/Heap/Slab/Slots.antt =====
-- Taking a slot of a slab, and giving it back.
use native.Mathlib.Nat.{mul-div_cancel}
use my_microkernel.Prelude.{
  ℕ, zero, suc, ◌+◌, ◌-◌, ◌*◌, ◌/◌, ◌%◌, ◌^◌, ◌≤◌, ◌<◌, ◌≡◌, ◌≢◌, refl, sym, ap, ◌∙◌, arith, true,
  false, not, ◌&&◌, ◌==◌, update, update_self, bit_and, word, add32, sub32, mul32, and-high_mask,
  and-low_mask, ℕ_discrete, inl, inr,
}
use my_microkernel.Heap.Slab.{Header, State, clear_bit, take_slot, alloc_slot, alloc_in}
use my_microkernel.Heap.Slab.Bits.{test, test-clear_bit}
use my_microkernel.Heap.Slab.Scan.{find_first_set-FirstSet}

-- A slab in its page.
pub record IsSlab (s : State) (slab : ℕ) : Type 0 where
  pub set : 0 < slab
  pub page : slab % 4096 ≡ 0
  pub small : slab + 4096 < word
  pub sized : 0 < (s.memory slab).obj_size
  pub fits : (s.memory slab).capacity * (s.memory slab).obj_size + 40 ≤ 4096
  pub bounded : (s.memory slab).capacity ≤ 128
  pub counted : 0 < (s.memory slab).free_count
  pub in_word : (s.memory slab).free_count < word

-- The headers agree, bit by bit.
pub record SameHeader (h g : Header) : Type 0 where
  pub next : h.next ≡ g.next
  pub cache_idx : h.cache_idx ≡ g.cache_idx
  pub obj_size : h.obj_size ≡ g.obj_size
  pub capacity : h.capacity ≡ g.capacity
  pub free_count : h.free_count ≡ g.free_count
  pub bits : (j : ℕ) → test h.free_bitmap j ≡ test g.free_bitmap j

pub slot_end : (a b k : ℕ) → a < b → a * k + k ≤ b * k
slot_end a zero k h = absurd (omega arith)
slot_end a (suc b) k h = elim (ℕ_discrete a b) [
  | yes e ↦ rw e (omega arith)
  | no n ↦ omega (arith, slot_end a b k (omega (arith, n)))
]

pub times_div : (a k : ℕ) → 0 < k → a * k / k ≡ a
times_div a k h = mul-div_cancel a h

-- The page of an address inside it.
mod_small : (q : ℕ) → q < 2 ^ 20 → q % 2 ^ 20 ≡ q
mod_small q h = omega (arith, h)

pub page_of :
    (slab r : ℕ)
    → slab % 4096 ≡ 0
    → slab < word
    → r < 4096
    → bit_and (slab + r) (word - 4096) ≡ slab
page_of slab r e w h =
    let q = slab / 4096 in
    let a : q * 2 ^ 12 + r ≡ slab + r = omega (arith, e) in
    let f = and-high_mask 12 q r (2 ^ 20 - 1) (omega (arith, h)) in
    let g : bit_and q (2 ^ 20 - 1) ≡ q = and-low_mask 20 q ∙ mod_small q (omega (arith, w)) in
    let b : q * 2 ^ 12 ≡ slab = omega (arith, e) in
    ap (λ (t : ℕ). bit_and t (word - 4096)) (sym a) ∙ f ∙ ap (λ (t : ℕ). t * 2 ^ 12) g ∙ b

-- The address of a slot.
abbrev pub address : (s : State) (slab slot : ℕ) → ℕ
address s slab slot = slab + 40 + slot * (s.memory slab).obj_size

-- The header after a slot has been taken.
abbrev pub taken : Header → ℕ → Header
taken h slot = record h {
  free_bitmap = clear_bit h.free_bitmap slot;
  free_count = h.free_count - 1;
}

module _ (s : State) (ci slab slot : ℕ) where
  abbrev pub after_last : State
  after_last = record s {
    caches =
        update s.caches ci (record (s.caches ci) { partial = (s.memory slab).next; full = slab });
    memory =
        update s.memory slab (record (taken (s.memory slab) slot) { next = (s.caches ci).full });
  }

  abbrev pub after_other : State
  after_other = record s { memory = update s.memory slab (taken (s.memory slab) slot) }

module _ (s : State) (ci slab slot : ℕ) (v : IsSlab s slab)
    (l : slot < (s.memory slab).capacity) where
  pub slot_room : slot * (s.memory slab).obj_size + (s.memory slab).obj_size + 40 ≤ 4096
  slot_room =
      omega (arith, v.fits, slot_end slot (s.memory slab).capacity (s.memory slab).obj_size l)

  pub sum : add32 (add32 slab 40) (mul32 slot (s.memory slab).obj_size) ≡ address s slab slot
  sum = omega (arith, v.small, slot_room)

  pub less : sub32 (s.memory slab).free_count 1 ≡ (s.memory slab).free_count - 1
  less = omega (arith, v.counted, v.in_word)

  pub take_last :
      (s.memory slab).free_count ≡ 1
      → take_slot s ci slab slot ≡ (after_last s ci slab slot, address s slab slot)
  unfolding take_slot
  take_last e =
      let z : ((s.memory slab).free_count - 1) == 0 ≡ true = ground (arith, e) in
      rw (sum, less, z) refl

  pub take_other :
      (s.memory slab).free_count ≢ 1
      → take_slot s ci slab slot ≡ (after_other s ci slab slot, address s slab slot)
  unfolding take_slot
  take_other e =
      let z : ((s.memory slab).free_count - 1) == 0 ≡ false = ground (arith, e, v.counted) in
      rw (sum, less, z) refl

-- What an allocation in the cache `ci` does when its first slab with free slots is in order: it takes the
-- slab's first free slot, whose bytes lie in the slab's page behind the header. Its bit is cleared,
-- and the other bits stay.
abbrev pub Takes : (s : State) (ci : ℕ) → State × ℕ → Type 0
Takes s ci r =
    let slab = (s.caches ci).partial in
    let h = s.memory slab in
    (slot : ℕ) × (slot < h.capacity)
    × (test h.free_bitmap slot ≡ true)
    × (r ≡ take_slot s ci slab slot)
    × (r.1 ≡ address s slab slot)
    × (r.1 + h.obj_size ≤ slab + 4096)
    × ((j : ℕ) → test (r.0.memory slab).free_bitmap j ≡ (not (slot == j) && test h.free_bitmap j))

module _ (s : State) (ci slot : ℕ) (v : IsSlab s (s.caches ci).partial) where
  abbrev slab : ℕ
  slab = (s.caches ci).partial

  abbrev head : Header
  head = s.memory slab

  -- From the state that taking the slot gives.
  reached-Takes :
      (r : State × ℕ)
      → slot < head.capacity
      → test head.free_bitmap slot ≡ true
      → take_slot s ci slab slot ≡ r
      → r.1 ≡ address s slab slot
      → (r.0.memory slab).free_bitmap ≡ clear_bit head.free_bitmap slot
      → Takes s ci (take_slot s ci slab slot)
  reached-Takes r l t e a b =
      let at : (take_slot s ci slab slot).1 ≡ address s slab slot =
        ap (λ (x : State × ℕ). x.1) e ∙ a in
      (
        slot,
        l,
        t,
        refl,
        at,
        omega (arith, at, slot_room s ci slab slot v l),
        λ j.
            ap (λ (x : State × ℕ). test (x.0.memory slab).free_bitmap j) e
            ∙ ap (λ (m : ℕ → ℕ). test m j) b
            ∙ test-clear_bit head.free_bitmap slot j,
      )

  take_slot-Takes :
      slot < head.capacity
      → test head.free_bitmap slot ≡ true
      → Takes s ci (take_slot s ci slab slot)
  take_slot-Takes l t = elim (ℕ_discrete head.free_count 1) [
    | yes e ↦
        reached-Takes (after_last s ci slab slot, address s slab slot) l t
          (take_last s ci slab slot v l e) refl
          (ap (λ (h : Header). h.free_bitmap)
            (update_self s.memory slab (record (taken head slot) { next = (s.caches ci).full })))
    | no n ↦
        reached-Takes (after_other s ci slab slot, address s slab slot) l t
          (take_other s ci slab slot v l n) refl
          (ap (λ (h : Header). h.free_bitmap) (update_self s.memory slab (taken head slot)))
  ]

-- `alloc_in`, the part of `heap_slab_alloc` behind the choice of the slab, takes a slot when the cache's first slab
-- with free slots is in order and has one.
pub alloc_in-Takes :
    (s : State) (ci i : ℕ)
    → IsSlab s (s.caches ci).partial
    → i < (s.memory (s.caches ci).partial).capacity
    → test (s.memory (s.caches ci).partial).free_bitmap i ≡ true
    → Takes s ci (alloc_in s ci)
unfolding alloc_in alloc_slot
alloc_in-Takes s ci i v l t =
    let h = s.memory (s.caches ci).partial in
    elim (find_first_set-FirstSet h.free_bitmap h.capacity (omega (arith, v.bounded))) [
      | inl (e, none_set) ↦ absurd (ground (arith, none_set i (omega arith) l, t))
      | inr (slot, e, p, q, f) ↦ rw e (take_slot-Takes s ci slot v p q)
    ]
