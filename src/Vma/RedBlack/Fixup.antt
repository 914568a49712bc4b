-- ===== src/Vma/RedBlack/Fixup.antt =====
-- `insert_fixup` and its loop, on any tree.
use mathlib.Core.Path.{subst}
use my_microkernel.Prelude.{
  ℕ, ◌≤◌, ◌≡◌, ◌≢◌, refl, sym, ◌∙◌, arith, false, List, update, update_ne, update_self, ℕ_discrete,
}
use my_microkernel.Vma.Area.{VmArea}
use my_microkernel.Vma.RedBlack.{Node, Tree, max_nodes, black, red, set_color, color_of, parent_of}
use my_microkernel.Vma.RedBlack.Insert.{insert_rounds, insert_fixup}
use my_microkernel.Vma.RedBlack.Shape.{areas}
use my_microkernel.Vma.RedBlack.Painted.{
  Painted, tip, fork, Above, top, paint, plug, shape, top_of, summit, outside, Located, Stored,
  Around, hits, hits_above, holder,
}
use my_microkernel.Vma.RedBlack.Colour.{set_color-Located}
use my_microkernel.Vma.RedBlack.Balance.{Red, Dark, Balanced, Fits, IsRedBlack, blackened}
use my_microkernel.Vma.RedBlack.Whole.{depth}
use my_microkernel.Vma.RedBlack.Ending.{EndsWithin}
use my_microkernel.Vma.RedBlack.Loop.{insert_rounds-EndsWithin}

-- The store holds a red-black tree of the areas of the list, in this order; the nodes outside of it, the
-- count and the list of free nodes are those of `base`.
pub record IsTree (base t : Tree) (list : List VmArea) : Type 0 where
  pub painted : Painted
  pub located : Located t (top base) painted
  pub order : areas (shape painted) ≡ list
  pub dark : Dark painted
  pub height : ℕ
  pub balanced : Balanced painted height

blackened-Located :
    (base t : Tree) (s : Painted)
    → Located t (top base) s
    → Located (set_color t t.root black) (top base) (blackened s)
unfolding blackened paint top_of summit Stored Around hits hits_above holder outside
blackened-Located base t tip v =
    let k : Node = record (t.nodes 0) { color = 0 } in
    let e : t.root ≡ 0 = v.root in
    let same : record (t.nodes 0) { color = 0 } ≡ t.nodes 0 =
      λ i. record (t.nodes 0) { color = sym v.sentinel i } in
    subst (λ (n : ℕ). Located (set_color t n black) (top base) tip) (sym e)
      (record {
        inner = tt;
        outer = tt;
        root = v.root;
        once = v.once;
        sentinel = refl;
        others = λ n p q. elim (ℕ_discrete 0 n) [
          | yes z ↦
              subst (λ (j : ℕ). update t.nodes 0 k j ≡ base.nodes j) z
                (update_self t.nodes 0 k ∙ same ∙ v.others 0 refl refl)
          | no z ↦ update_ne t.nodes 0 n k z ∙ v.others n refl refl
        ];
        free = v.free;
        counted = v.counted;
      })
blackened-Located base t (fork n c a l r) v =
    subst (λ (k : ℕ). Located (set_color t k black) (top base) (fork n false a l r)) (sym v.root)
      (set_color-Located t (top base) n c false a l r v)

areas-blackened : (s : Painted) → areas (shape (blackened s)) ≡ areas (shape s)
unfolding areas shape blackened
areas-blackened tip = refl
areas-blackened (fork n c a l r) = refl

hits-blackened : (n : ℕ) (s : Painted) → hits n (blackened s) ≡ hits n s
unfolding hits blackened
hits-blackened n tip = refl
hits-blackened n (fork k c a l r) = refl

Dark-blackened : (s : Painted) → Dark (blackened s)
unfolding Dark blackened
Dark-blackened tip = tt
Dark-blackened (fork n c a l r) = tt

-- `insert_fixup` of a red node anywhere in a tree that else meets the red-black conditions makes a red-black
-- tree of the same nodes, with the same areas in the same order. It changes nothing outside of the tree.
pub insert_fixup-IsTree :
    (t : Tree) (up : Above) (s : Painted) (h : ℕ)
    → Located t up s
    → Red s
    → Balanced s h
    → Fits up h
    → depth up ≤ max_nodes
    → (v : IsTree (outside up) (insert_fixup t (top_of s)) (areas (shape (plug up s)))) × ((n : ℕ)
        → hits n v.painted ≡ hits n (plug up s))
unfolding insert_fixup EndsWithin IsRedBlack
insert_fixup-IsTree t up s h v r b f d =
    let e = insert_rounds-EndsWithin max_nodes t up s h v r b f d in
    let t1 = (insert_rounds t (top_of s) max_nodes).0 in
    (
      record {
        painted = blackened e.result;
        located = blackened-Located (outside up) t1 e.result e.located;
        order = areas-blackened e.result ∙ e.order;
        dark = Dark-blackened e.result;
        height = e.balanced.0;
        balanced = e.balanced.1;
      },
      λ n. hits-blackened n e.result ∙ e.same n,
    )

-- The loop of `insert_fixup` ends by its condition, after at most as many rounds as nodes lie above the
-- node it starts from: from a red node in a tree that is red-black apart from a red parent of this node, and with
-- this number of rounds allowed, or any greater one, the loop leaves a tree and a node whose parent is not red.
pub insert_rounds-ends :
    (t : Tree) (up : Above) (s : Painted) (h n : ℕ)
    → Located t up s
    → Red s
    → Balanced s h
    → Fits up h
    → depth up ≤ n
    → let (t1, z) = insert_rounds t (top_of s) n in color_of t1 (parent_of t1 z) ≢ red
unfolding EndsWithin
insert_rounds-ends t up s h n v r b f d =
    let e = (insert_rounds-EndsWithin n t up s h v r b f d).stopped in
    λ x. absurd (omega (arith, e, x))
