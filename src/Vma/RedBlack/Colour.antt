-- ===== src/Vma/RedBlack/Colour.antt =====
-- Stores of colours, and steps up and down in the tree of the store.
use mathlib.Core.Path.{subst}
use my_microkernel.Prelude.{
  ℕ, ◌≡◌, sym, ap, ◌∙◌, arith, Bool, update, update_self, update_ne, ℕ_discrete,
}
use my_microkernel.Vma.Area.{VmArea}
use my_microkernel.Vma.RedBlack.{Node, Tree, set_color, parent_of, color_of}
use my_microkernel.Vma.RedBlack.Painted.{
  Painted, fork, Above, left_of, right_of, paint, top_of, holder, summit, outside, Stored, Around,
  hits, hits_above, Located, hit_self, hit_zero, Stored-update, Around-update,
}

-- From a node to its children and back.
pub to_left :
    (t : Tree) (up : Above) (n : ℕ) (c : Bool) (a : VmArea) (l r : Painted)
    → Located t up (fork n c a l r)
    → Located t (left_of n c a r up) l
unfolding Stored Around hits hits_above top_of holder summit outside
to_left t up n c a l r v = record {
  inner = v.inner.2;
  outer = (v.inner.0, v.inner.1, v.inner.3, v.outer);
  root = v.root;
  once = λ k. omega (arith, v.once k);
  sentinel = v.sentinel;
  others = λ k p q. v.others k (omega (arith, p, q)) (omega (arith, p, q));
  free = v.free;
  counted = v.counted;
}

pub from_left :
    (t : Tree) (up : Above) (n : ℕ) (c : Bool) (a : VmArea) (l r : Painted)
    → Located t (left_of n c a r up) l
    → Located t up (fork n c a l r)
unfolding Stored Around hits hits_above top_of holder summit outside
from_left t up n c a l r v = record {
  inner = (v.outer.0, v.outer.1, v.inner, v.outer.2);
  outer = v.outer.3;
  root = v.root;
  once = λ k. omega (arith, v.once k);
  sentinel = v.sentinel;
  others = λ k p q. v.others k (omega (arith, p, q)) (omega (arith, p, q));
  free = v.free;
  counted = v.counted;
}

pub to_right :
    (t : Tree) (up : Above) (n : ℕ) (c : Bool) (a : VmArea) (l r : Painted)
    → Located t up (fork n c a l r)
    → Located t (right_of n c a l up) r
unfolding Stored Around hits hits_above top_of holder summit outside
to_right t up n c a l r v = record {
  inner = v.inner.3;
  outer = (v.inner.0, v.inner.1, v.inner.2, v.outer);
  root = v.root;
  once = λ k. omega (arith, v.once k);
  sentinel = v.sentinel;
  others = λ k p q. v.others k (omega (arith, p, q)) (omega (arith, p, q));
  free = v.free;
  counted = v.counted;
}

pub from_right :
    (t : Tree) (up : Above) (n : ℕ) (c : Bool) (a : VmArea) (l r : Painted)
    → Located t (right_of n c a l up) r
    → Located t up (fork n c a l r)
unfolding Stored Around hits hits_above top_of holder summit outside
from_right t up n c a l r v = record {
  inner = (v.outer.0, v.outer.1, v.outer.2, v.inner);
  outer = v.outer.3;
  root = v.root;
  once = λ k. omega (arith, v.once k);
  sentinel = v.sentinel;
  others = λ k p q. v.others k (omega (arith, p, q)) (omega (arith, p, q));
  free = v.free;
  counted = v.counted;
}

pub set_color-Located :
    (t : Tree) (up : Above) (n : ℕ) (c d : Bool) (a : VmArea) (l r : Painted)
    → Located t up (fork n c a l r)
    → Located (set_color t n (paint d)) up (fork n d a l r)
unfolding Stored hits top_of
set_color-Located t up n c d a l r v =
    let f = v.inner in
    let k : Node = record (t.nodes n) { color = paint d } in
    let own = hit_self n in
    let nil0 : (update t.nodes n k) 0 ≡ t.nodes 0 = update_ne t.nodes n 0 k f.0 in
    record {
      inner = (
        f.0,
        update_self t.nodes n k ∙ ap (λ (m : Node). record m { color = paint d }) f.1,
        Stored-update t.nodes n n k l (omega (arith, v.once n, own)) f.2,
        Stored-update t.nodes n n k r (omega (arith, v.once n, own)) f.3,
      );
      outer = Around-update t.nodes n n k up (omega (arith, v.once n, own)) v.outer;
      root = v.root;
      once = λ x. omega (arith, v.once x);
      sentinel = ap (λ (m : Node). m.color) nil0 ∙ v.sentinel;
      others = λ x p q.
          update_ne t.nodes n x k (λ e. hit_zero x n (omega (arith, p)) (sym e)) ∙ v.others x p q;
      free = v.free;
      counted = v.counted;
    }

-- What the store says of the node at the top of a tree.
pub Located-parent :
    (t : Tree) (up : Above) (n : ℕ) (c : Bool) (a : VmArea) (l r : Painted)
    → Located t up (fork n c a l r)
    → parent_of t n ≡ holder up
unfolding Stored
Located-parent t up n c a l r v = ap (λ (m : Node). m.parent) v.inner.1

pub Located-color :
    (t : Tree) (up : Above) (n : ℕ) (c : Bool) (a : VmArea) (l r : Painted)
    → Located t up (fork n c a l r)
    → color_of t n ≡ paint c
unfolding Stored
Located-color t up n c a l r v = ap (λ (m : Node). m.color) v.inner.1

pub parent_of-set_color : (t : Tree) (n c k : ℕ) → parent_of (set_color t n c) k ≡ parent_of t k
parent_of-set_color t n c k =
    let v : Node = record (t.nodes n) { color = c } in
    elim (ℕ_discrete n k) [
      | yes e ↦
          subst (λ (j : ℕ). parent_of (set_color t n c) j ≡ parent_of t j) e
            (ap (λ (m : Node). m.parent) (update_self t.nodes n v))
      | no e ↦ ap (λ (m : Node). m.parent) (update_ne t.nodes n k v e)
    ]
