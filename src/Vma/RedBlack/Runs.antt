-- ===== src/Vma/RedBlack/Runs.antt =====
-- Any sequence of additions after `rb_init`, against the sorted list of the accepted areas.
use mathlib.Core.Path.{subst}
use my_microkernel.Prelude.{
  ℕ, ◌≡◌, refl, sym, ap, ◌∙◌, arith, ◌==◌, if◌then◌else◌, ltb, Bool, not, ◌&&◌, bit_and, List, [],
  ◌∷◌, inl, inr, Status,
}
use my_microkernel.Vma.Area.{VmArea}
use my_microkernel.Vma.RedBlack.{Tree, max_nodes, init, find, count_areas}
use my_microkernel.Vma.RedBlack.Insert.{add}
use my_microkernel.Vma.RedBlack.Lookup.{first_covering, find-covering}
use my_microkernel.Vma.RedBlack.Descent.{overlapping, accepts}
use my_microkernel.Vma.RedBlack.Painted.{shape}
use my_microkernel.Vma.RedBlack.Spot.{placed}
use my_microkernel.Vma.RedBlack.Sound.{IsSound, IsSound-Forms, IsSound-Ordered}
use my_microkernel.Vma.RedBlack.Start.{init-IsSound}
use my_microkernel.Vma.RedBlack.Seated.{count_all, size-areas}
use my_microkernel.Vma.RedBlack.Addition.{add-IsSound}

-- The additions one after the other.
unfoldable pub add_all : Tree → List VmArea → Tree
add_all t [] = t
add_all t (a ∷ rest) = add_all (add t a.start a.end a.flags a.name).0 rest

-- The conditions for an area, on the list of the areas that are there.
unfoldable pub acceptable : List VmArea → VmArea → Bool
acceptable list a =
    ltb (count_all list) max_nodes
    && (ltb a.start a.end
        && ((bit_and a.start 0xFFF == 0 && bit_and a.end 0xFFF == 0)
            && not (overlapping a.start a.end list)))

-- The sorted list of the areas that were accepted.
unfoldable pub keep_all : List VmArea → List VmArea → List VmArea
keep_all list [] = list
keep_all list (a ∷ rest) = keep_all (if acceptable list a then placed a list else list) rest

-- `find` and `count` of a back end in order, on the list.
pub IsSound-find :
    (t : Tree) (addr : ℕ) (list : List VmArea)
    → IsSound t list
    → (find t addr ≡ first_covering addr list) × (count_areas t ≡ count_all list)
unfolding count_areas
IsSound-find t addr list v =
    let s = v.tree.painted in
    (
      find-covering t addr 0 v.bound (shape s) (IsSound-Forms t list v) (IsSound-Ordered t list v)
            (omega (arith, v.room))
          ∙ ap (first_covering addr) v.tree.order,
      v.counted ∙ size-areas (shape s) ∙ ap count_all v.tree.order,
    )

accepts-acceptable :
    (t : Tree) (a : VmArea) (list : List VmArea)
    → IsSound t list
    → accepts t a.start a.end list ≡ acceptable list a
unfolding accepts acceptable count_areas
accepts-acceptable t a list v = rw (IsSound-find t 0 list v).1 refl

pub add_all-IsSound :
    (t : Tree) (list more : List VmArea)
    → IsSound t list
    → IsSound (add_all t more) (keep_all list more)
unfolding add_all keep_all
add_all-IsSound t list [] v = v
add_all-IsSound t list (a ∷ rest) v =
    let t1 = (add t a.start a.end a.flags a.name).0 in
    let e = accepts-acceptable t a list v in
    add_all-IsSound t1 (if acceptable list a then placed a list else list) rest
      (elim (add-IsSound t a.start a.end a.flags a.name list v) [
        | inl k ↦ rw (sym e ∙ k.0) (subst (λ (x : Tree × Status). IsSound x.0 list) (sym k.1) v)
        | inr k ↦ rw (sym e ∙ k.0) k.2
      ])

-- After `init` and any additions, accepted or refused, `find` gives the area of the sorted list of the accepted
-- ones that covers the address, and the count is the length of the list.
pub find-add_all :
    (t : Tree) (more : List VmArea) (addr : ℕ)
    → (find (add_all (init t) more) addr ≡ first_covering addr (keep_all [] more))
      × (count_areas (add_all (init t) more) ≡ count_all (keep_all [] more))
find-add_all t more addr =
    IsSound-find (add_all (init t) more) addr (keep_all [] more)
      (add_all-IsSound (init t) [] more (init-IsSound t))
