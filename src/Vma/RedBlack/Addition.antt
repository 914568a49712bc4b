-- ===== src/Vma/RedBlack/Addition.antt =====
-- `rb_add` on a back end that meets its invariant.
use mathlib.Core.Path.{subst}
use my_microkernel.Prelude.{
  ℕ, ◌+◌, ◌≤◌, ◌<◌, ◌≡◌, ◌≢◌, refl, sym, ap, ◌∙◌, arith, ltb, true, false, List, [], ◌∷◌,
  Bool-cases, inl, inr, ◌⊎◌, some, Status, ok, fail,
}
use my_microkernel.Vma.Area.{VmArea}
use my_microkernel.Vma.RedBlack.{Tree, nil, null, max_nodes}
use my_microkernel.Vma.RedBlack.Insert.{add, descend}
use my_microkernel.Vma.RedBlack.Shape.{size}
use my_microkernel.Vma.RedBlack.Descent.{
  overlapping, accepts, refused, descend-refused, unfit-add, add-accepts,
}
use my_microkernel.Vma.RedBlack.Painted.{top, shape, top_of, summit, holder, Stored}
use my_microkernel.Vma.RedBlack.Spot.{placed}
use my_microkernel.Vma.RedBlack.Walk.{spot, descend-spot, Stored-Forms}
use my_microkernel.Vma.RedBlack.Seat.{drawn}
use my_microkernel.Vma.RedBlack.Sound.{Chain, length, IsSound, IsSound-Forms, IsSound-Ordered}
use my_microkernel.Vma.RedBlack.Attach.{finish, attach-steps, accepted-add}
use my_microkernel.Vma.RedBlack.Seated.{finish-IsSound}

a_free_one : (list : List ℕ) → 1 ≤ length list → (z : ℕ) × (rest : List ℕ) × (list ≡ z ∷ rest)
unfolding length
a_free_one [] h = absurd (omega (arith, h))
a_free_one (z ∷ rest) h = (z, rest, refl)

-- The addition of an acceptable area.
accepted-IsSound :
    (t : Tree) (start end flags name : ℕ) (list : List VmArea)
    → IsSound t list
    → accepts t start end list ≡ true
    → ((add t start end flags name).1 ≡ ok)
      × IsSound
          (add t start end flags name).0
          (placed (record { start = start; end = end; flags = flags; name = name }) list)
unfolding accepts
accepted-IsSound t start end flags name list v e =
    let a : VmArea = record { start = start; end = end; flags = flags; name = name } in
    let s = v.tree.painted in
    let room : t.count < max_nodes = ground (arith, e) in
    let range : start < end = ground (arith, e) in
    let clear : overlapping start end list ≡ false = ground (arith, e) in
    let (z, rest, f) = a_free_one v.free (omega (arith, room, v.room, v.counted)) in
    let head = subst (Chain t.nodes t.free_head) f v.chain in
    let p = holder (spot start (top t) s) in
    let root : t.root ≡ top_of s = unfold summit in v.tree.located.root in
    let stored : Stored t.nodes 0 s = unfold holder in v.tree.located.inner in
    let small : size (shape s) < max_nodes + 1 = omega (arith, room, v.counted) in
    let met : refused (descend t start end nil (top_of s) (max_nodes + 1)) ≡ false =
      descend-refused t start end 0 v.bound nil (top_of s) (max_nodes + 1) (shape s) range
        (Stored-Forms t.nodes 0 s stored) (IsSound-Ordered t list v) small
      ∙ ap (overlapping start end) v.tree.order
      ∙ clear in
    let way : descend t start end nil t.root (max_nodes + 1) ≡ some p =
      ap (λ (x : ℕ). descend t start end nil x (max_nodes + 1)) root
      ∙ unfold holder in descend-spot t start end (max_nodes + 1) (top t) s stored small met in
    let steps : add t start end flags name ≡ finish a p z (drawn t a p z) =
      accepted-add t start end flags name p list e way
      ∙ unfold Chain in attach-steps t a p z head.0 head.2 in
    subst (λ (r : Tree × Status). (r.1 ≡ ok) × IsSound r.0 (placed a list)) (sym steps)
      (unfold finish in refl, finish-IsSound t a list z rest v f room range clear)

-- An area that is not acceptable changes nothing.
refused_lem :
    (t : Tree) (start end flags name : ℕ) (list : List VmArea)
    → IsSound t list
    → accepts t start end list ≡ false
    → add t start end flags name ≡ (t, fail)
unfolding Chain
refused_lem t start end flags name list v e = elim (Bool-cases (ltb t.count max_nodes)) [
  | inr n ↦ unfit-add t start end flags name (ground (arith, n))
  | inl y ↦
      let s = v.tree.painted in
      let (z, rest, f) = a_free_one v.free (ground (arith, y, v.room, v.counted)) in
      let head = subst (Chain t.nodes t.free_head) f v.chain in
      let none_free : t.free_head ≢ null = λ x. head.2 (sym head.0 ∙ x) in
      elim (add-accepts t start end flags name 0 v.bound (shape s) (IsSound-Forms t list v)
        (IsSound-Ordered t list v) (omega (arith, v.room)) none_free) [
          | inl k ↦ k.1
          | inr k ↦ absurd (clash (sym e ∙ ap (accepts t start end) (sym v.tree.order) ∙ k.0))
        ]
]
  where
    clash : false ≡ true → ⊥
    clash x = ground (arith, x)

-- `add` to a store that holds a red-black tree of the areas of the list, with all other nodes free (IsSound):
-- when the tree is full, the range is empty or not aligned to pages, or any area of the list overlaps it, the
-- result is -1 and nothing changes. In every other case the result is 0, and the store then holds such a tree
-- of the list with the new area in its place.
pub add-IsSound :
    (t : Tree) (start end flags name : ℕ) (list : List VmArea)
    → IsSound t list
    → ((accepts t start end list ≡ false) × (add t start end flags name ≡ (t, fail)))
      ⊎ ((accepts t start end list ≡ true)
          × ((add t start end flags name).1 ≡ ok)
          × IsSound
              (add t start end flags name).0
              (placed (record { start = start; end = end; flags = flags; name = name }) list))
add-IsSound t start end flags name list v = elim (Bool-cases (accepts t start end list)) [
  | inl y ↦ let r = accepted-IsSound t start end flags name list v y in inr (y, r.0, r.1)
  | inr n ↦ inl (n, refused_lem t start end flags name list v n)
]
