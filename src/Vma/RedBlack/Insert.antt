-- ===== src/Vma/RedBlack/Insert.antt =====
-- The addition of an area: `rb_add` and `insert_fixup`.
use my_microkernel.Prelude.{
  ℕ, zero, suc, ◌+◌, not, ◌&&◌, ◌||◌, Option, none, some, ltb, leb, ◌==◌, if◌then◌else◌, update,
  bit_and, add32, Status, ok, fail,
}
use my_microkernel.Vma.Area.{VmArea}
use my_microkernel.Vma.RedBlack.{
  Tree, max_nodes, black, red, nil, null, set_color, set_left, set_right, pool_alloc, rotate_left,
  rotate_right, parent_of, color_of,
}

-- The first branch of `insert_fixup`, for a red uncle: the colours move up.
unfoldable pub recolor : Tree → (z uncle : ℕ) → Tree × ℕ
recolor t z uncle =
    let t1 = set_color t (parent_of t z) black in
    let t2 = set_color t1 uncle black in
    let t3 = set_color t2 (parent_of t2 (parent_of t2 z)) red in (t3, parent_of t3 (parent_of t3 z))

-- A round of `insert_fixup` when the parent is a left child, and when it is a right child.
unfoldable pub insert_left : Tree → ℕ → Tree × ℕ
insert_left t z =
    let uncle = (t.nodes (parent_of t (parent_of t z))).right in
    let inner = z == (t.nodes (parent_of t z)).right in
    let z1 = if inner then parent_of t z else z in
    let t1 = if inner then rotate_left t z1 else t in
    let t2 = set_color t1 (parent_of t1 z1) black in
    let t3 = set_color t2 (parent_of t2 (parent_of t2 z1)) red in
    if color_of t uncle == red
    then recolor t z uncle
    else (rotate_right t3 (parent_of t3 (parent_of t3 z1)), z1)

unfoldable pub insert_right : Tree → ℕ → Tree × ℕ
insert_right t z =
    let uncle = (t.nodes (parent_of t (parent_of t z))).left in
    let inner = z == (t.nodes (parent_of t z)).left in
    let z1 = if inner then parent_of t z else z in
    let t1 = if inner then rotate_right t z1 else t in
    let t2 = set_color t1 (parent_of t1 z1) black in
    let t3 = set_color t2 (parent_of t2 (parent_of t2 z1)) red in
    if color_of t uncle == red
    then recolor t z uncle
    else (rotate_left t3 (parent_of t3 (parent_of t3 z1)), z1)

-- The loop of `insert_fixup`, `n` rounds at most: the tree and `z` afterwards.
unfoldable pub insert_rounds : Tree → (z n : ℕ) → Tree × ℕ
insert_rounds t z zero = (t, z)
insert_rounds t z (suc n) =
    let p = parent_of t z in
    let (t1, z1) =
      if p == (t.nodes (parent_of t p)).left then insert_left t z else insert_right t z in
    let rest = insert_rounds t1 z1 n in if color_of t p == red then rest else (t, z)

-- `insert_fixup`
unfoldable pub insert_fixup : Tree → ℕ → Tree
insert_fixup t z = let (t1, z1) = insert_rounds t z max_nodes in set_color t1 t1.root black

-- The loop of `rb_add` at `cur`, with `n` rounds left: none if an area on the way overlaps, and else the parent
-- of the new node.
unfoldable pub descend : Tree → (start end parent cur n : ℕ) → Option ℕ
descend t start end parent cur zero = some parent
descend t start end parent cur (suc n) =
    let a = (t.nodes cur).area in
    let next = if ltb start a.start then (t.nodes cur).left else (t.nodes cur).right in
    let rest = descend t start end cur next n in
    if cur == nil then some parent else if ltb start a.end && ltb a.start end then none else rest

-- What `rb_add` does below the parent that it has found.
unfoldable pub attach : Tree → (a : VmArea) → (parent : ℕ) → Tree × ℕ → Tree × Status
attach t a parent (t1, z) =
    let t2 = record t1 {
      nodes = update t1.nodes z (record (t1.nodes z) { area = a; parent = parent });
    } in
    let t3 =
      if parent == nil
      then record t2 { root = z }
      else if ltb a.start (t2.nodes parent).area.start
      then set_left t2 parent z
      else set_right t2 parent z in
    let t4 = insert_fixup t3 z in
    if z == null then (t1, fail) else (record t4 { count = add32 t4.count 1 }, ok)

unfoldable pub add_below : Tree → VmArea → Option ℕ → Tree × Status
add_below t a none = (t, fail)
add_below t a (some parent) = attach t a parent (pool_alloc t)

-- `rb_add`
unfoldable pub add : Tree → (start end flags name : ℕ) → Tree × Status
add t start end flags name =
    if leb max_nodes t.count
    then (t, fail)
    else if leb end start
    then (t, fail)
    else if not (bit_and start 0xFFF == 0) || not (bit_and end 0xFFF == 0)
    then (t, fail)
    else add_below t (record { start = start; end = end; flags = flags; name = name })
        (descend t start end nil t.root (max_nodes + 1))
