-- ===== src/Vma/RedBlack/Attach.antt =====
-- What an accepted addition does to the store, as the steps that the theorems of this folder are about.
use mathlib.Core.Path.{subst, fun_ext}
use my_microkernel.Prelude.{
  ℕ, ◌+◌, ◌≡◌, ◌≢◌, refl, ap, ◌∙◌, arith, ◌==◌, leb, true, false, not, ◌||◌, bit_and, List, update,
  update_self, Bool-cases, inl, inr, add32, some, Status, ok,
}
use my_microkernel.Vma.Area.{VmArea}
use my_microkernel.Vma.RedBlack.{Node, Tree, nil, null, red, no_area, max_nodes, pool_alloc}
use my_microkernel.Vma.RedBlack.Insert.{attach, add, add_below, descend, insert_fixup}
use my_microkernel.Vma.RedBlack.Descent.{accepts}
use my_microkernel.Vma.RedBlack.Seat.{seat, fresh_node, drawn}

update_twice : (m : ℕ → Node) (z : ℕ) (v w : Node) → update (update m z v) z w ≡ update m z w
update_twice m z v w =
    fun_ext λ k. elim (Bool-cases (z == k)) [ inl y ↦ rw y refl | inr n ↦ rw n refl ]

-- The last steps of `attach`.
unfoldable pub finish : (a : VmArea) → (p z : ℕ) → Tree → Tree × Status
finish a p z t =
    let t1 = insert_fixup (seat t p z a.start) z in (record t1 { count = add32 t1.count 1 }, ok)

drawn-update :
    (t : Tree) (a : VmArea) (p z : ℕ)
    → let blank : Node = record {
      area = no_area;
      color = red;
      parent = nil;
      left = nil;
      right = nil;
    } in
      let m = update t.nodes z blank in
      update m z (record (m z) { area = a; parent = p }) ≡ update t.nodes z (fresh_node a p)
drawn-update t a p z =
    let blank : Node = record {
      area = no_area;
      color = red;
      parent = nil;
      left = nil;
      right = nil;
    } in
    let m = update t.nodes z blank in
    ap (λ (v : Node). update m z (record v { area = a; parent = p })) (update_self t.nodes z blank)
    ∙ update_twice t.nodes z blank (fresh_node a p)

pub attach-steps :
    (t : Tree) (a : VmArea) (p z : ℕ)
    → t.free_head ≡ z
    → z ≢ null
    → attach t a p (pool_alloc t) ≡ finish a p z (drawn t a p z)
unfolding attach pool_alloc finish drawn seat
attach-steps t a p z e f =
    subst (λ (x : ℕ). attach t a p (pool_alloc t) ≡ finish a p x (drawn t a p x)) e
      (let h = t.free_head in
        let g : h == 257 ≡ false = ground (arith, e, f) in
        rw (g, g)
          (ap
            (λ (m : ℕ → Node). finish a p h (record t { nodes = m; free_head = (t.nodes h).right }))
            (drawn-update t a p h)))

pub accepted-add :
    (t : Tree) (start end flags name p : ℕ) (list : List VmArea)
    → accepts t start end list ≡ true
    → descend t start end nil t.root (max_nodes + 1) ≡ some p
    → add t start end flags name
      ≡ attach t (record { start = start; end = end; flags = flags; name = name }) p (pool_alloc t)
unfolding add accepts add_below
accepted-add t start end flags name p list e d =
    let room : leb max_nodes t.count ≡ false = ground (arith, e) in
    let range : leb end start ≡ false = ground (arith, e) in
    let pages : not (bit_and start 0xFFF == 0) || not (bit_and end 0xFFF == 0) ≡ false =
      ground (arith, e) in
    rw (room, range, pages, d) refl
