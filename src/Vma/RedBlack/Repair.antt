-- ===== src/Vma/RedBlack/Repair.antt =====
-- A round of `insert_fixup` at any place of the tree.
use mathlib.Core.Path.{subst}
use my_microkernel.Prelude.{ℕ, sym, true, false}
use my_microkernel.Vma.Area.{VmArea}
use my_microkernel.Vma.RedBlack.{Tree}
use my_microkernel.Vma.RedBlack.Insert.{insert_left, insert_right}
use my_microkernel.Vma.RedBlack.Painted.{
  Painted, tip, fork, Above, left_of, right_of, holder, Located,
}
use my_microkernel.Vma.RedBlack.Colour.{to_left, to_right, Located-parent}
use my_microkernel.Vma.RedBlack.Reflect.{mirrored, mirrored_above, Located-mirrored}
use my_microkernel.Vma.RedBlack.Balance.{Dark, Balanced, Dark-mirrored, Balanced-mirrored}
use my_microkernel.Vma.RedBlack.Mirror.{mirror}
use my_microkernel.Vma.RedBlack.Sides.{insert_right-mirror}
use my_microkernel.Vma.RedBlack.Outcome.{Outcome, Outcome-mirrored}
use my_microkernel.Vma.RedBlack.Uncle.{red_uncle, dark_outer, dark_inner}

-- The node is the left child of a left child, and the right child of one.
pub left_outer :
    (t : Tree) (up : Above) (g p z h : ℕ) (ga pa za : VmArea) (zl zr r u : Painted)
    → Located t up (fork g false ga (fork p true pa (fork z true za zl zr) r) u)
    → Balanced (fork z true za zl zr) h
    → Balanced r h
    → Dark r
    → Balanced u h
    → Outcome (insert_left t z) up (fork g false ga (fork p true pa (fork z true za zl zr) r) u) h
unfolding holder Dark
left_outer t up g p z h ga pa za zl zr r tip v bz br dr bu =
    dark_outer t up g p z h ga pa za zl zr r tip v bz br dr bu tt
left_outer t up g p z h ga pa za zl zr r (fork n false a ul ur) v bz br dr bu =
    dark_outer t up g p z h ga pa za zl zr r (fork n false a ul ur) v bz br dr bu tt
left_outer t up g p z h ga pa za zl zr r (fork n true a ul ur) v bz br dr bu =
    let x = fork z true za zl zr in
    let u = fork n true a ul ur in
    let above = left_of g false ga u up in
    let left = to_left t up g false ga (fork p true pa x r) u v in
    let e =
      Located-parent t (left_of p true pa r above) z true za zl zr
        (to_left t above p true pa x r left) in
    red_uncle t up g p n z h ga pa a x r ul ur v bz br bu e

pub left_inner :
    (t : Tree) (up : Above) (g p z h : ℕ) (ga pa za : VmArea) (zl zr l u : Painted)
    → Located t up (fork g false ga (fork p true pa l (fork z true za zl zr)) u)
    → Balanced (fork z true za zl zr) h
    → Balanced l h
    → Dark l
    → Balanced u h
    → Outcome (insert_left t z) up (fork g false ga (fork p true pa l (fork z true za zl zr)) u) h
unfolding holder Dark
left_inner t up g p z h ga pa za zl zr l tip v bz bl dl bu =
    dark_inner t up g p z h ga pa za zl zr l tip v bz bl dl bu tt
left_inner t up g p z h ga pa za zl zr l (fork n false a ul ur) v bz bl dl bu =
    dark_inner t up g p z h ga pa za zl zr l (fork n false a ul ur) v bz bl dl bu tt
left_inner t up g p z h ga pa za zl zr l (fork n true a ul ur) v bz bl dl bu =
    let x = fork z true za zl zr in
    let u = fork n true a ul ur in
    let above = left_of g false ga u up in
    let left = to_left t up g false ga (fork p true pa l x) u v in
    let e =
      Located-parent t (right_of p true pa l above) z true za zl zr
        (to_right t above p true pa l x left) in
    red_uncle t up g p n z h ga pa a l x ul ur v bl bz bu e

-- The same below a right child, in the mirror.
insert_right-Outcome :
    (t : Tree) (up : Above) (s : Painted) (z h : ℕ)
    → Outcome (insert_left (mirror t) z) (mirrored_above up) (mirrored s) h
    → Outcome (insert_right t z) up s h
insert_right-Outcome t up s z h o =
    subst (λ (r : Tree × ℕ). Outcome r up s h) (sym (insert_right-mirror (mirror t) z))
      (Outcome-mirrored (insert_left (mirror t) z) up s h o)

pub right_outer :
    (t : Tree) (up : Above) (g p z h : ℕ) (ga pa za : VmArea) (zl zr l u : Painted)
    → Located t up (fork g false ga u (fork p true pa l (fork z true za zl zr)))
    → Balanced (fork z true za zl zr) h
    → Balanced l h
    → Dark l
    → Balanced u h
    → Outcome (insert_right t z) up (fork g false ga u (fork p true pa l (fork z true za zl zr))) h
unfolding mirrored
right_outer t up g p z h ga pa za zl zr l u v bz bl dl bu =
    let s = fork g false ga u (fork p true pa l (fork z true za zl zr)) in
    insert_right-Outcome t up s z h (
      left_outer (mirror t) (mirrored_above up) g p z h ga pa za (mirrored zr) (mirrored zl)
        (mirrored l) (mirrored u) (Located-mirrored t up s v)
        (Balanced-mirrored (fork z true za zl zr) h bz) (Balanced-mirrored l h bl)
        (Dark-mirrored l dl) (Balanced-mirrored u h bu))

pub right_inner :
    (t : Tree) (up : Above) (g p z h : ℕ) (ga pa za : VmArea) (zl zr r u : Painted)
    → Located t up (fork g false ga u (fork p true pa (fork z true za zl zr) r))
    → Balanced (fork z true za zl zr) h
    → Balanced r h
    → Dark r
    → Balanced u h
    → Outcome (insert_right t z) up (fork g false ga u (fork p true pa (fork z true za zl zr) r)) h
unfolding mirrored
right_inner t up g p z h ga pa za zl zr r u v bz br dr bu =
    let s = fork g false ga u (fork p true pa (fork z true za zl zr) r) in
    insert_right-Outcome t up s z h (
      left_inner (mirror t) (mirrored_above up) g p z h ga pa za (mirrored zr) (mirrored zl)
        (mirrored r) (mirrored u) (Located-mirrored t up s v)
        (Balanced-mirrored (fork z true za zl zr) h bz) (Balanced-mirrored r h br)
        (Dark-mirrored r dr) (Balanced-mirrored u h bu))
