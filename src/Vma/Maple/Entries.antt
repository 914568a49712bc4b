-- ===== src/Vma/Maple/Entries.antt =====
-- The entries of one node: the ordered arrays of leaves and inner nodes.
use my_microkernel.Prelude.{ℕ, zero, suc, ◌+◌, ◌-◌, if◌then◌else◌, ltb, leb, sub32}
use my_microkernel.Vma.Maple.{
  nr_entries, pivot, child, set_pivot, set_child, set_parent, set_nr_entries,
}

-- The loop of `leaf_find_slot` at `i`, with `n` entries left.
unfoldable pub find_slot : (ℕ → ℕ) → (leaf start i n : ℕ) → ℕ
find_slot m leaf start i zero = i
find_slot m leaf start i (suc n) =
    let rest = find_slot m leaf start (i + 1) n in if leb start (pivot m leaf i) then i else rest

-- `leaf_find_slot`
unfoldable pub leaf_find_slot : (ℕ → ℕ) → (leaf start : ℕ) → ℕ
leaf_find_slot m leaf start = find_slot m leaf start 0 (nr_entries m leaf)

-- The loop of `leaf_insert_at` from `i` down, `n` rounds.
unfoldable pub shift_entries : (ℕ → ℕ) → (leaf i n : ℕ) → ℕ → ℕ
shift_entries m leaf i zero = m
shift_entries m leaf i (suc n) =
    let m1 = set_pivot m leaf i (pivot m leaf (i - 1)) in
    shift_entries (set_child m1 leaf i (child m1 leaf (i - 1))) leaf (i - 1) n

-- `leaf_insert_at`, for the area `vma` that begins at `start`.
unfoldable pub leaf_insert_at : (ℕ → ℕ) → (leaf pos vma start : ℕ) → ℕ → ℕ
leaf_insert_at m leaf pos vma start =
    let m1 = shift_entries m leaf (nr_entries m leaf) (nr_entries m leaf - pos) in
    let m2 = set_child (set_pivot m1 leaf pos start) leaf pos vma in
    set_nr_entries m2 leaf (nr_entries m2 leaf + 1)

-- The loop of `leaf_remove_at` at `i`, `n` rounds at most. It reads the number of entries in every round.
unfoldable pub close_gap : (ℕ → ℕ) → (leaf i n : ℕ) → ℕ → ℕ
close_gap m leaf i zero = m
close_gap m leaf i (suc n) =
    let m1 = set_pivot m leaf i (pivot m leaf (i + 1)) in
    let rest = close_gap (set_child m1 leaf i (child m1 leaf (i + 1))) leaf (i + 1) n in
    if ltb i (sub32 (nr_entries m leaf) 1) then rest else m

-- `leaf_remove_at`
unfoldable pub leaf_remove_at : (ℕ → ℕ) → (leaf pos : ℕ) → ℕ → ℕ
leaf_remove_at m leaf pos =
    let m1 = close_gap m leaf pos 256 in
    let m2 = set_nr_entries m1 leaf (nr_entries m1 leaf + 255) in
    let m3 = set_pivot m2 leaf (nr_entries m2 leaf) 0 in set_child m3 leaf (nr_entries m3 leaf) 0

-- The loop of `internal_find_child`, with `n` pivots left.
unfoldable pub find_child : (ℕ → ℕ) → (node addr i n : ℕ) → ℕ
find_child m node addr i zero = i
find_child m node addr i (suc n) =
    let rest = find_child m node addr (i + 1) n in if ltb addr (pivot m node i) then i else rest

-- `internal_find_child`, and the loops of `maple_add` that look for the place of a key.
unfoldable pub internal_find_child : (ℕ → ℕ) → (node addr : ℕ) → ℕ
internal_find_child m node addr = find_child m node addr 0 (sub32 (nr_entries m node) 1)

-- The loops of `internal_insert_at` from `i` down, `n` rounds.
unfoldable pub shift_pivots : (ℕ → ℕ) → (node i n : ℕ) → ℕ → ℕ
shift_pivots m node i zero = m
shift_pivots m node i (suc n) =
    shift_pivots (set_pivot m node i (pivot m node (i - 1))) node (i - 1) n

unfoldable pub shift_children : (ℕ → ℕ) → (node i n : ℕ) → ℕ → ℕ
shift_children m node i zero = m
shift_children m node i (suc n) =
    shift_children (set_child m node i (child m node (i - 1))) node (i - 1) n

-- `internal_insert_at`
unfoldable pub internal_insert_at : (ℕ → ℕ) → (node pos key new_child : ℕ) → ℕ → ℕ
internal_insert_at m node pos key new_child =
    let last = sub32 (nr_entries m node) 1 in
    let m1 = set_pivot (shift_pivots m node last (last - pos)) node pos key in
    let nr = nr_entries m1 node in
    let m2 = set_child (shift_children m1 node nr (nr - (pos + 1))) node (pos + 1) new_child in
    let m3 = set_parent m2 new_child node in set_nr_entries m3 node (nr_entries m3 node + 1)
