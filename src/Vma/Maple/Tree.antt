-- ===== src/Vma/Maple/Tree.antt =====
-- The splitting of nodes, and the way up after a split.
use my_microkernel.Prelude.{ℕ, zero, suc, ◌+◌, ◌-◌, ◌==◌, if◌then◌else◌, ltb, sub32}
use my_microkernel.Vma.Maple.{
  Maple, node_slots, split_mid, nr_entries, pivot, child, parent, set_pivot, set_child, set_parent,
  set_nr_entries, set_is_leaf, node_alloc,
}
use my_microkernel.Vma.Maple.Entries.{internal_find_child, internal_insert_at}

-- The loop of `split_leaf` at `i`, `n` rounds.
unfoldable pub move_entries : (ℕ → ℕ) → (leaf new_leaf i n : ℕ) → ℕ → ℕ
move_entries m leaf new_leaf i zero = m
move_entries m leaf new_leaf i (suc n) =
    let m1 = set_pivot m new_leaf i (pivot m leaf (split_mid + i)) in
    let m2 = set_child m1 new_leaf i (child m1 leaf (split_mid + i)) in
    let m3 = set_pivot m2 leaf (split_mid + i) 0 in
    move_entries (set_child m3 leaf (split_mid + i) 0) leaf new_leaf (i + 1) n

-- `split_leaf`: the words and the key that goes up.
unfoldable pub split_leaf : (ℕ → ℕ) → (leaf new_leaf : ℕ) → (ℕ → ℕ) × ℕ
split_leaf m leaf new_leaf =
    let m1 = set_is_leaf m new_leaf 1 in
    let moves = sub32 (nr_entries m1 leaf) split_mid in
    let m2 = set_nr_entries (move_entries m1 leaf new_leaf 0 moves) new_leaf moves in
    let m3 = set_nr_entries m2 leaf split_mid in (m3, pivot m3 new_leaf 0)

-- The loops of `split_internal` at `i`, `n` rounds.
unfoldable pub move_pivots : (ℕ → ℕ) → (node new_node i n : ℕ) → ℕ → ℕ
move_pivots m node new_node i zero = m
move_pivots m node new_node i (suc n) =
    let m1 = set_pivot m new_node i (pivot m node (split_mid + i)) in
    move_pivots (set_pivot m1 node (split_mid + i) 0) node new_node (i + 1) n

unfoldable pub move_children : (ℕ → ℕ) → (node new_node i n : ℕ) → ℕ → ℕ
move_children m node new_node i zero = m
move_children m node new_node i (suc n) =
    let m1 = set_child m new_node i (child m node (split_mid + i)) in
    let c = child m1 new_node i in
    let m2 = if c == 0 then m1 else set_parent m1 c new_node in
    move_children (set_child m2 node (split_mid + i) 0) node new_node (i + 1) n

-- `split_internal`: the words and the key that goes up.
unfoldable pub split_internal : (ℕ → ℕ) → (node new_node : ℕ) → (ℕ → ℕ) × ℕ
split_internal m node new_node =
    let m1 = set_is_leaf m new_node 0 in
    let key = pivot m1 node (split_mid - 1) in
    let pivots = sub32 (sub32 (nr_entries m1 node) 1) split_mid in
    let m2 = move_pivots m1 node new_node 0 pivots in
    let children = sub32 (nr_entries m2 node) split_mid in
    let m3 = set_nr_entries (move_children m2 node new_node 0 children) new_node children in
    (set_pivot (set_nr_entries m3 node split_mid) node (split_mid - 1) 0, key)

-- The new root of `maple_add`, for the two halves of the old one.
unfoldable pub new_root : Maple → (old new_child key : ℕ) → Maple
new_root s old new_child key =
    let (s1, r) = node_alloc s in
    let m1 = set_pivot (set_nr_entries (set_is_leaf s1.words r 0) r 2) r 0 key in
    let m2 = set_parent (set_child (set_child m1 r 0 old) r 1 new_child) r 0 in
    if r == 0
    then s
    else record s1 { words = set_parent (set_parent m2 old r) new_child r; root = r }

-- The insertion of a key and the child behind it.
unfoldable pub insert_key : Maple → (node key new_child : ℕ) → Maple
insert_key s node key new_child = record s {
  words = internal_insert_at s.words node (internal_find_child s.words node key) key new_child;
}

-- The loop of `maple_add` on the way up, `n` rounds at most.
unfoldable pub climb : Maple → (node new_node key n : ℕ) → Maple
climb s node new_node key zero = s
climb s node new_node key (suc n) =
    let p = parent s.words node in
    let (s1, q) = node_alloc s in
    let (m, up) = split_internal s1.words p q in
    let s2 : Maple = record s1 { words = m } in
    let s3 = if ltb key up then insert_key s2 p key new_node else insert_key s2 q key new_node in
    let rest = climb s3 p q up n in
    if p == 0
    then new_root s node new_node key
    else if ltb (nr_entries s.words p) node_slots
    then insert_key s p key new_node
    else if q == 0
    then s
    else rest
