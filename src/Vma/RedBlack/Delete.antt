-- ===== src/Vma/RedBlack/Delete.antt =====
-- The removal of an area: `rb_remove`, `transplant` and `delete_fixup`.
use my_microkernel.Prelude.{
  ℕ, zero, suc, ◌+◌, not, ◌&&◌, ltb, ◌==◌, if◌then◌else◌, sub32, Status, ok, fail,
}
use my_microkernel.Vma.RedBlack.{
  Tree, max_nodes, black, red, nil, set_color, set_parent, set_left, set_right, pool_free,
  rotate_left, rotate_right, parent_of, color_of,
}

-- A round of `delete_fixup` when `x` is a left child, and when it is a right child.
unfoldable pub delete_left : Tree → ℕ → Tree × ℕ
delete_left t x =
    let w = (t.nodes (parent_of t x)).right in
    let turned = set_color (set_color t w black) (parent_of t x) red in
    let t1 = if color_of t w == red then rotate_left turned (parent_of turned x) else t in
    let w1 = (t1.nodes (parent_of t1 x)).right in
    let far_black = color_of t1 (t1.nodes w1).right == black in
    let inner = set_color (set_color t1 (t1.nodes w1).left black) w1 red in
    let t2 = if far_black then rotate_right inner w1 else t1 in
    let w2 = (t2.nodes (parent_of t2 x)).right in
    let t3 = set_color t2 w2 (color_of t2 (parent_of t2 x)) in
    let t4 = set_color t3 (parent_of t3 x) black in
    let t5 = set_color t4 (t4.nodes w2).right black in
    let t6 = rotate_left t5 (parent_of t5 x) in
    if color_of t1 (t1.nodes w1).left == black && far_black
    then (let t7 = set_color t1 w1 red in (t7, parent_of t7 x))
    else (t6, t6.root)

unfoldable pub delete_right : Tree → ℕ → Tree × ℕ
delete_right t x =
    let w = (t.nodes (parent_of t x)).left in
    let turned = set_color (set_color t w black) (parent_of t x) red in
    let t1 = if color_of t w == red then rotate_right turned (parent_of turned x) else t in
    let w1 = (t1.nodes (parent_of t1 x)).left in
    let far_black = color_of t1 (t1.nodes w1).left == black in
    let inner = set_color (set_color t1 (t1.nodes w1).right black) w1 red in
    let t2 = if far_black then rotate_left inner w1 else t1 in
    let w2 = (t2.nodes (parent_of t2 x)).left in
    let t3 = set_color t2 w2 (color_of t2 (parent_of t2 x)) in
    let t4 = set_color t3 (parent_of t3 x) black in
    let t5 = set_color t4 (t4.nodes w2).left black in
    let t6 = rotate_right t5 (parent_of t5 x) in
    if color_of t1 (t1.nodes w1).right == black && far_black
    then (let t7 = set_color t1 w1 red in (t7, parent_of t7 x))
    else (t6, t6.root)

-- The loop of `delete_fixup`, `n` rounds at most.
unfoldable pub delete_rounds : Tree → (x n : ℕ) → Tree × ℕ
delete_rounds t x zero = (t, x)
delete_rounds t x (suc n) =
    let (t1, x1) =
      if x == (t.nodes (parent_of t x)).left then delete_left t x else delete_right t x in
    let rest = delete_rounds t1 x1 n in
    if not (x == t.root) && color_of t x == black then rest else (t, x)

-- `delete_fixup`
unfoldable pub delete_fixup : Tree → ℕ → Tree
delete_fixup t x = let (t1, x1) = delete_rounds t x (max_nodes + 1) in set_color t1 x1 black

-- `transplant`
unfoldable pub transplant : Tree → (u v : ℕ) → Tree
transplant t u v =
    let p = parent_of t u in
    let t1 =
      if p == nil
      then record t { root = v }
      else if u == (t.nodes p).left
      then set_left t p v
      else set_right t p v in
    set_parent t1 v (parent_of t1 u)

-- `tree_minimum`, `n` rounds at most.
unfoldable pub tree_minimum : Tree → (x n : ℕ) → ℕ
tree_minimum t x zero = x
tree_minimum t x (suc n) =
    let rest = tree_minimum t (t.nodes x).left n in if (t.nodes x).left == nil then x else rest

-- The loop of `rb_remove` from `z` on that looks for the area, `n` rounds at most, 0 for NIL.
unfoldable pub find_start : Tree → (start z n : ℕ) → ℕ
find_start t start z zero = nil
find_start t start z (suc n) =
    let a = (t.nodes z).area in
    let next = if ltb start a.start then (t.nodes z).left else (t.nodes z).right in
    let rest = find_start t start next n in
    if z == nil then nil else if start == a.start then z else rest

-- The replacement of a node with two children by its successor `y`: the tree and `x`.
unfoldable pub splice_successor : Tree → (z y : ℕ) → Tree × ℕ
splice_successor t z y =
    let x = (t.nodes y).right in
    let far = set_right (transplant t y x) y ((transplant t y x).nodes z).right in
    let t1 =
      if parent_of t y == z then set_parent t x y else set_parent far (far.nodes y).right y in
    let t2 = transplant t1 z y in
    let t3 = set_left t2 y (t2.nodes z).left in
    let t4 = set_parent t3 (t3.nodes y).left y in (set_color t4 y (color_of t4 z), x)

-- The three cases of `rb_remove`: the tree, `x`, and the colour that was taken away.
unfoldable pub splice : Tree → ℕ → Tree × ℕ × ℕ
splice t z =
    let h = t.nodes z in
    let y = tree_minimum t h.right max_nodes in
    let (t1, x) = splice_successor t z y in
    if h.left == nil
    then (transplant t z h.right, h.right, h.color)
    else if h.right == nil
    then (transplant t z h.left, h.left, h.color)
    else (t1, x, color_of t y)

-- `rb_remove` of the node `z`.
unfoldable pub remove_node : Tree → ℕ → Tree
remove_node t z =
    let (t1, x, color) = splice t z in
    let t2 = if color == black then delete_fixup t1 x else t1 in
    let t3 = pool_free t2 z in record t3 { count = sub32 t3.count 1 }

-- `rb_remove`
unfoldable pub remove : Tree → (start : ℕ) → Tree × Status
remove t start =
    let z = find_start t start t.root (max_nodes + 1) in
    if z == nil then (t, fail) else (remove_node t z, ok)
