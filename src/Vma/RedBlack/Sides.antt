-- ===== src/Vma/RedBlack/Sides.antt =====
-- A round of `insert_fixup` for a parent that is a right child: the other round in the mirror.
use my_microkernel.Prelude.{ℕ, ◌≡◌, sym, ap, ◌∙◌, ◌==◌, Bool-cases, inl, inr}
use my_microkernel.Vma.RedBlack.{
  Tree, black, red, set_color, rotate_left, rotate_right, parent_of, color_of,
}
use my_microkernel.Vma.RedBlack.Insert.{recolor, insert_left, insert_right}
use my_microkernel.Vma.RedBlack.Round.{
  report, redden, straighten, turn_grandparent, redden_grandparent,
}
use my_microkernel.Vma.RedBlack.Mirror.{mirror, mirror-set_color, rotate_right-mirror}

abbrev pub mirror_round : Tree × ℕ → Tree × ℕ
mirror_round (t, z) = (mirror t, z)

pub rotate_left-mirror : (t : Tree) (x : ℕ) → rotate_left (mirror t) x ≡ mirror (rotate_right t x)
rotate_left-mirror t x = ap mirror (sym (rotate_right-mirror (mirror t) x))

-- `recolor` from its second store on.
unfoldable recolor_uncle : (z u : ℕ) → Tree → Tree × ℕ
recolor_uncle z u t = redden z (set_color t u black)

recolor-mirror : (t : Tree) (z u : ℕ) → recolor (mirror t) z u ≡ mirror_round (recolor t z u)
unfolding recolor recolor_uncle redden report
recolor-mirror t z u =
    let t1 = set_color t (parent_of t z) black in
    let t2 = set_color t1 u black in
    ap (recolor_uncle z u) (mirror-set_color t (parent_of t z) black)
    ∙ ap (redden z) (mirror-set_color t1 u black)
    ∙ ap (report z) (mirror-set_color t2 (parent_of t2 (parent_of t2 z)) red)

-- The colours of the parent and the grandparent, and the rotation of the latter, on each side.
unfoldable turn_left : (z : ℕ) → Tree → Tree × ℕ
turn_left z t = (rotate_left t (parent_of t (parent_of t z)), z)

unfoldable redden_left : (z : ℕ) → Tree → Tree × ℕ
redden_left z t = turn_left z (set_color t (parent_of t (parent_of t z)) red)

unfoldable finish_left : (z : ℕ) → Tree → Tree × ℕ
finish_left z t = redden_left z (set_color t (parent_of t z) black)

finish-mirror : (t : Tree) (z : ℕ) → finish_left z (mirror t) ≡ mirror_round (straighten t z)
unfolding finish_left straighten redden_grandparent turn_grandparent redden_left turn_left
finish-mirror t z =
    let t1 = set_color t (parent_of t z) black in
    let t2 = set_color t1 (parent_of t1 (parent_of t1 z)) red in
    ap (redden_left z) (mirror-set_color t (parent_of t z) black)
    ∙ ap (turn_left z) (mirror-set_color t1 (parent_of t1 (parent_of t1 z)) red)
    ∙ ap (λ (u : Tree). (u, z)) (rotate_left-mirror t2 (parent_of t2 (parent_of t2 z)))

-- `insert_right` is `insert_left` in the mirror.
pub insert_right-mirror :
    (t : Tree) (z : ℕ) → insert_right (mirror t) z ≡ mirror_round (insert_left t z)
unfolding insert_left insert_right finish_left straighten redden_grandparent turn_grandparent
    redden_left turn_left
insert_right-mirror t z =
    let p = parent_of t z in
    let u = (t.nodes (parent_of t p)).right in
    elim (Bool-cases (color_of t u == red)) [
      | inl y ↦ rw y (recolor-mirror t z u)
      | inr n ↦ elim (Bool-cases (z == (t.nodes p).right)) [
        | inl y ↦
            rw (n, y)
              (ap (finish_left p) (rotate_right-mirror t p) ∙ finish-mirror (rotate_left t p) p)
        | inr k ↦ rw (n, k) (finish-mirror t z)
      ]
    ]
