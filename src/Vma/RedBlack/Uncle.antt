-- ===== src/Vma/RedBlack/Uncle.antt =====
-- A round of `insert_fixup`, by the colour of the uncle and the side of the node.
use mathlib.Core.Path.{subst}
use mathlib.Core.List.{append_assoc}
use my_microkernel.Prelude.{ℕ, ◌≡◌, ◌≢◌, refl, sym, ap, ◌∙◌, arith, true, false, ◌++◌, ◌∷◌, List}
use my_microkernel.Vma.Area.{VmArea}
use my_microkernel.Vma.RedBlack.{Node, Tree, black, red, rotate_left, parent_of, color_of}
use my_microkernel.Vma.RedBlack.Insert.{recolor, insert_left}
use my_microkernel.Vma.RedBlack.Shape.{areas}
use my_microkernel.Vma.RedBlack.Painted.{
  Painted, tip, fork, Above, left_of, right_of, paint, shape, top_of, holder, Stored, Located, hits,
  hits_above, hit_self, top_of-ne,
}
use my_microkernel.Vma.RedBlack.Colour.{to_left, from_left, to_right, Located-parent, Located-color}
use my_microkernel.Vma.RedBlack.Balance.{Dark, Balanced}
use my_microkernel.Vma.RedBlack.Rotate.{rotate_left-Located}
use my_microkernel.Vma.RedBlack.Round.{
  straighten, insert_left-recolor, insert_left-outer, insert_left-inner,
}
use my_microkernel.Vma.RedBlack.Outcome.{Outcome, recolor-Outcome, straighten-Outcome}

pub Dark-color :
    (t : Tree) (up : Above) (s : Painted) → Located t up s → Dark s → color_of t (top_of s) ≡ black
unfolding Dark top_of paint
Dark-color t up tip v d = v.sentinel
Dark-color t up (fork n true a l r) v d = absurd d
Dark-color t up (fork n false a l r) v d = Located-color t up n false a l r v

-- The uncle that a round looks at.
uncle-top_of :
    (t : Tree) (up : Above) (z g p : ℕ) (ga pa : VmArea) (l r u : Painted)
    → Located t up (fork g false ga (fork p true pa l r) u)
    → parent_of t z ≡ p
    → (t.nodes (parent_of t (parent_of t z))).right ≡ top_of u
unfolding Stored holder
uncle-top_of t up z g p ga pa l r u v e =
    ap (λ (k : ℕ). (t.nodes (parent_of t k)).right) e
    ∙ ap (λ (k : ℕ). (t.nodes k).right)
        (Located-parent t (left_of g false ga u up) p true pa l r
          (to_left t up g false ga (fork p true pa l r) u v))
    ∙ ap (λ (m : Node). m.right) v.inner.1

uncle-dark :
    (t : Tree) (up : Above) (z g p : ℕ) (ga pa : VmArea) (l r u : Painted)
    → Located t up (fork g false ga (fork p true pa l r) u)
    → parent_of t z ≡ p
    → Dark u
    → color_of t (t.nodes (parent_of t (parent_of t z))).right ≢ red
uncle-dark t up z g p ga pa l r u v e d =
    let above = right_of g false ga (fork p true pa l r) up in
    let c =
      ap (λ (k : ℕ). color_of t k) (uncle-top_of t up z g p ga pa l r u v e)
      ∙ Dark-color t above u (to_right t up g false ga (fork p true pa l r) u v) d in
    omega (arith, c)

-- A red uncle, whatever side the node is on.
pub red_uncle :
    (t : Tree) (up : Above) (g p un z h : ℕ) (ga pa ua : VmArea) (l r ul ur : Painted)
    → Located t up (fork g false ga (fork p true pa l r) (fork un true ua ul ur))
    → Balanced l h
    → Balanced r h
    → Balanced (fork un true ua ul ur) h
    → parent_of t z ≡ p
    → Outcome (insert_left t z) up (fork g false ga (fork p true pa l r) (fork un true ua ul ur)) h
unfolding top_of paint
red_uncle t up g p un z h ga pa ua l r ul ur v bl br bu e =
    let u = fork un true ua ul ur in
    let s = fork g false ga (fork p true pa l r) u in
    let above = right_of g false ga (fork p true pa l r) up in
    let k = uncle-top_of t up z g p ga pa l r u v e in
    let c =
      Located-color t above un true ua ul ur (to_right t up g false ga (fork p true pa l r) u v) in
    subst (λ (x : Tree × ℕ). Outcome x up s h)
      (sym (insert_left-recolor t z (ap (λ (x : ℕ). color_of t x) k ∙ c) ∙ ap (recolor t z) k))
      (recolor-Outcome t up g p un z h ga pa ua l r ul ur v bl br bu e)

pub dark_outer :
    (t : Tree) (up : Above) (g p z h : ℕ) (ga pa za : VmArea) (zl zr r u : Painted)
    → Located t up (fork g false ga (fork p true pa (fork z true za zl zr) r) u)
    → Balanced (fork z true za zl zr) h
    → Balanced r h
    → Dark r
    → Balanced u h
    → Dark u
    → Outcome (insert_left t z) up (fork g false ga (fork p true pa (fork z true za zl zr) r) u) h
unfolding Stored holder hits hits_above top_of
dark_outer t up g p z h ga pa za zl zr r u v bz br dr bu du =
    let x = fork z true za zl zr in
    let s = fork g false ga (fork p true pa x r) u in
    let left = to_left t up g false ga (fork p true pa x r) u v in
    let low = to_left t (left_of g false ga u up) p true pa x r left in
    let e = Located-parent t (left_of p true pa r (left_of g false ga u up)) z true za zl zr low in
    let side : z ≢ (t.nodes (parent_of t z)).right = λ q.
      top_of-ne z r low.inner.0 (omega (arith, low.once z, hit_self z))
        (sym (q ∙ ap (λ (k : ℕ). (t.nodes k).right) e ∙ ap (λ (m : Node). m.right) left.inner.1)) in
    subst (λ (k : Tree × ℕ). Outcome k up s h)
      (sym (insert_left-outer t z (uncle-dark t up z g p ga pa x r u v e du) side))
      (straighten-Outcome t up g p z h ga pa za zl zr r u s v bz br dr bu du refl (λ n. refl))

pub dark_inner :
    (t : Tree) (up : Above) (g p z h : ℕ) (ga pa za : VmArea) (zl zr l u : Painted)
    → Located t up (fork g false ga (fork p true pa l (fork z true za zl zr)) u)
    → Balanced (fork z true za zl zr) h
    → Balanced l h
    → Dark l
    → Balanced u h
    → Dark u
    → Outcome (insert_left t z) up (fork g false ga (fork p true pa l (fork z true za zl zr)) u) h
unfolding Stored holder top_of Balanced shape areas hits
dark_inner t up g p z h ga pa za zl zr l u v bz bl dl bu du =
    let x = fork z true za zl zr in
    let s = fork g false ga (fork p true pa l x) u in
    let above = left_of g false ga u up in
    let left = to_left t up g false ga (fork p true pa l x) u v in
    let low = to_right t above p true pa l x left in
    let e = Located-parent t (right_of p true pa l above) z true za zl zr low in
    let side : z ≡ (t.nodes (parent_of t z)).right =
      sym (ap (λ (k : ℕ). (t.nodes k).right) e ∙ ap (λ (m : Node). m.right) left.inner.1) in
    let t1 = rotate_left t p in
    let v1 =
      from_left t1 up g false ga (fork z true za (fork p true pa l zl) zr) u
        (rotate_left-Located t above p true pa z true za l zl zr left) in
    let order =
      ap (λ (k : List VmArea). k ++ (ga ∷ areas (shape u)))
        (append_assoc (areas (shape l)) (pa ∷ areas (shape zl)) (za ∷ areas (shape zr))) in
    subst (λ (k : Tree × ℕ). Outcome k up s h)
      (sym (
        insert_left-inner t z (uncle-dark t up z g p ga pa l x u v e du) side
        ∙ ap (λ (k : ℕ). straighten (rotate_left t k) k) e))
      (straighten-Outcome t1 up g z p h ga za pa l zl zr u s v1 (dl, bz.0, bl, bz.2) bz.3 bz.1 bu du
        order (λ n. omega arith))
