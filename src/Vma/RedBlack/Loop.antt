-- ===== src/Vma/RedBlack/Loop.antt =====
-- The loop of `insert_fixup`, by induction on the nodes above.
use my_microkernel.Prelude.{ℕ, zero, suc, ◌≤◌, ◌≡◌, refl, sym, ap, ◌∙◌, arith, true, false, inr}
use my_microkernel.Vma.Area.{VmArea}
use my_microkernel.Vma.RedBlack.{Node, Tree, parent_of, color_of}
use my_microkernel.Vma.RedBlack.Insert.{insert_left, insert_right, insert_rounds}
use my_microkernel.Vma.RedBlack.Painted.{
  Painted, tip, fork, Above, top, left_of, right_of, paint, plug, top_of, holder, outside, Stored,
  Located, top_of-ne, hits, hits_above, hit_self,
}
use my_microkernel.Vma.RedBlack.Colour.{
  from_left, from_right, to_left, to_right, Located-parent, Located-color,
}
use my_microkernel.Vma.RedBlack.Balance.{
  Red, Balanced, DarkAbove, Fits, plug-IsRedBlack, Balanced-IsRedBlack,
}
use my_microkernel.Vma.RedBlack.Whole.{depth}
use my_microkernel.Vma.RedBlack.Ending.{
  rounds-left, rounds-right, Finished, ends, EndsWithin, onward,
}
use my_microkernel.Vma.RedBlack.Repair.{left_outer, left_inner, right_outer, right_inner}

-- The round below a red node `p` on either side of `g`.
left-round :
    (t : Tree) (up : Above) (g p z k : ℕ) (ga pa : VmArea) (l r u : Painted)
    → Located t up (fork g false ga (fork p true pa l r) u)
    → parent_of t z ≡ p
    → insert_rounds t z (suc k) ≡ insert_rounds (insert_left t z).0 (insert_left t z).1 k
unfolding holder paint Stored top_of
left-round t up g p z k ga pa l r u v e =
    let s = fork p true pa l r in
    let above = left_of g false ga u up in
    let w = to_left t up g false ga s u v in
    let f = ap (λ (x : ℕ). parent_of t x) e ∙ Located-parent t above p true pa l r w in
    rounds-left t z k (ap (λ (x : ℕ). color_of t x) e ∙ Located-color t above p true pa l r w)
      (e ∙ sym (ap (λ (x : ℕ). (t.nodes x).left) f ∙ ap (λ (m : Node). m.left) v.inner.1))

right-round :
    (t : Tree) (up : Above) (g p z k : ℕ) (ga pa : VmArea) (l r u : Painted)
    → Located t up (fork g false ga u (fork p true pa l r))
    → parent_of t z ≡ p
    → insert_rounds t z (suc k) ≡ insert_rounds (insert_right t z).0 (insert_right t z).1 k
unfolding holder paint Stored top_of hits hits_above
right-round t up g p z k ga pa l r u v e =
    let s = fork p true pa l r in
    let above = right_of g false ga u up in
    let w = to_right t up g false ga u s v in
    let f = ap (λ (x : ℕ). parent_of t x) e ∙ Located-parent t above p true pa l r w in
    rounds-right t z k (ap (λ (x : ℕ). color_of t x) e ∙ Located-color t above p true pa l r w)
      (λ q. top_of-ne p u w.inner.0 (omega (arith, v.once p, hit_self p)) (
        sym (sym e ∙ q ∙ ap (λ (x : ℕ). (t.nodes x).left) f ∙ ap (λ (m : Node). m.left) v.inner.1)))

-- The loop from a red node below a red one, and below that on either side.
below_left :
    (n : ℕ) (t : Tree) (up : Above) (p z h : ℕ) (pa a : VmArea) (r zl zr : Painted)
    → EndsWithin n
    → Located t (left_of p true pa r up) (fork z true a zl zr)
    → Balanced (fork z true a zl zr) h
    → Fits (left_of p true pa r up) h
    → depth up ≤ suc n
    → Finished (outside up) t z (suc n) (plug (left_of p true pa r up) (fork z true a zl zr))
unfolding depth Fits DarkAbove holder plug outside
below_left n t (top base) p z h pa a r zl zr ih v b f d = absurd f.2
below_left n t (left_of g true ga u up) p z h pa a r zl zr ih v b f d = absurd f.2
below_left n t (right_of g true ga u up) p z h pa a r zl zr ih v b f d = absurd f.2
below_left n t (left_of g false ga u up) p z h pa a r zl zr ih v b f d =
    let s = fork z true a zl zr in
    let above = left_of g false ga u up in
    let e = Located-parent t (left_of p true pa r above) z true a zl zr v in
    let w = from_left t up g false ga (fork p true pa s r) u (from_left t above p true pa s r v) in
    onward t up z n h (insert_left t z) (fork g false ga (fork p true pa s r) u) ih
      (λ k. left-round t up g p z k ga pa s r u w e)
      (left_outer t up g p z h ga pa a zl zr r u w b f.1 f.0 f.3.0) f.3.1 (omega (arith, d))
below_left n t (right_of g false ga u up) p z h pa a r zl zr ih v b f d =
    let s = fork z true a zl zr in
    let above = right_of g false ga u up in
    let e = Located-parent t (left_of p true pa r above) z true a zl zr v in
    let w = from_right t up g false ga u (fork p true pa s r) (from_left t above p true pa s r v) in
    onward t up z n h (insert_right t z) (fork g false ga u (fork p true pa s r)) ih
      (λ k. right-round t up g p z k ga pa s r u w e)
      (right_inner t up g p z h ga pa a zl zr r u w b f.1 f.0 f.3.0) f.3.1 (omega (arith, d))

below_right :
    (n : ℕ) (t : Tree) (up : Above) (p z h : ℕ) (pa a : VmArea) (l zl zr : Painted)
    → EndsWithin n
    → Located t (right_of p true pa l up) (fork z true a zl zr)
    → Balanced (fork z true a zl zr) h
    → Fits (right_of p true pa l up) h
    → depth up ≤ suc n
    → Finished (outside up) t z (suc n) (plug (right_of p true pa l up) (fork z true a zl zr))
unfolding depth Fits DarkAbove holder plug outside
below_right n t (top base) p z h pa a l zl zr ih v b f d = absurd f.2
below_right n t (left_of g true ga u up) p z h pa a l zl zr ih v b f d = absurd f.2
below_right n t (right_of g true ga u up) p z h pa a l zl zr ih v b f d = absurd f.2
below_right n t (left_of g false ga u up) p z h pa a l zl zr ih v b f d =
    let s = fork z true a zl zr in
    let above = left_of g false ga u up in
    let e = Located-parent t (right_of p true pa l above) z true a zl zr v in
    let w = from_left t up g false ga (fork p true pa l s) u (from_right t above p true pa l s v) in
    onward t up z n h (insert_left t z) (fork g false ga (fork p true pa l s) u) ih
      (λ k. left-round t up g p z k ga pa l s u w e)
      (left_inner t up g p z h ga pa a zl zr l u w b f.1 f.0 f.3.0) f.3.1 (omega (arith, d))
below_right n t (right_of g false ga u up) p z h pa a l zl zr ih v b f d =
    let s = fork z true a zl zr in
    let above = right_of g false ga u up in
    let e = Located-parent t (right_of p true pa l above) z true a zl zr v in
    let w =
      from_right t up g false ga u (fork p true pa l s) (from_right t above p true pa l s v) in
    onward t up z n h (insert_right t z) (fork g false ga u (fork p true pa l s)) ih
      (λ k. right-round t up g p z k ga pa l s u w e)
      (right_outer t up g p z h ga pa a zl zr l u w b f.1 f.0 f.3.0) f.3.1 (omega (arith, d))

-- The loop ends at a dark parent, and at the root.
pub insert_rounds-EndsWithin : (n : ℕ) → EndsWithin n
unfolding EndsWithin top_of Red depth Fits DarkAbove holder paint plug outside
insert_rounds-EndsWithin n t up tip h v x b f d = absurd x
insert_rounds-EndsWithin n t up (fork z false a l r) h v x b f d = absurd x
insert_rounds-EndsWithin n t (top base) (fork z true a l r) h v x b f d =
    let s = fork z true a l r in
    ends t (top base) s s z n v refl (λ x. refl) (Balanced-IsRedBlack s h b)
      (ap (λ (k : ℕ). color_of t k) (Located-parent t (top base) z true a l r v) ∙ v.sentinel)
insert_rounds-EndsWithin n t (left_of p false pa pr up) (fork z true a l r) h v x b f d =
    let s = fork z true a l r in
    let above = left_of p false pa pr up in
    ends t above s s z n v refl (λ x. refl) (plug-IsRedBlack above s h f (inr tt) b)
      (ap (λ (k : ℕ). color_of t k) (Located-parent t above z true a l r v)
        ∙ Located-color t up p false pa s pr (from_left t up p false pa s pr v))
insert_rounds-EndsWithin n t (right_of p false pa pl up) (fork z true a l r) h v x b f d =
    let s = fork z true a l r in
    let above = right_of p false pa pl up in
    ends t above s s z n v refl (λ x. refl) (plug-IsRedBlack above s h f (inr tt) b)
      (ap (λ (k : ℕ). color_of t k) (Located-parent t above z true a l r v)
        ∙ Located-color t up p false pa pl s (from_right t up p false pa pl s v))
insert_rounds-EndsWithin zero t (left_of p true pa pr up) (fork z true a l r) h v x b f d =
    absurd (omega arith)
insert_rounds-EndsWithin zero t (right_of p true pa pl up) (fork z true a l r) h v x b f d =
    absurd (omega arith)
insert_rounds-EndsWithin (suc n) t (left_of p true pa pr up) (fork z true a l r) h v x b f d =
    below_left n t up p z h pa a pr l r (insert_rounds-EndsWithin n) v b f (omega (arith, d))
insert_rounds-EndsWithin (suc n) t (right_of p true pa pl up) (fork z true a l r) h v x b f d =
    below_right n t up p z h pa a pl l r (insert_rounds-EndsWithin n) v b f (omega (arith, d))
