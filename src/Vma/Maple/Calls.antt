-- ===== src/Vma/Maple/Calls.antt =====
-- The calls of the back end: `maple_init`, `maple_add`, `maple_remove`, `maple_find` and `maple_count`.
use my_microkernel.Prelude.{
  ℕ, zero, suc, ◌+◌, ◌==◌, if◌then◌else◌, ltb, leb, update, sub32, add32, Bool, false, not, ◌&&◌,
  ◌||◌, bit_and, Option, none, some, Status, ok, fail,
}
use my_microkernel.Vma.Area.{VmArea}
use my_microkernel.Vma.Maple.{
  Maple, node_slots, max_nodes, max_vmas, nr_entries, is_leaf, child, set_parent, set_is_leaf,
  node_pool_init, node_alloc, vma_pool_init, vma_alloc, vma_free_entry,
}
use my_microkernel.Vma.Maple.Entries.{
  leaf_find_slot, leaf_insert_at, leaf_remove_at, internal_find_child,
}
use my_microkernel.Vma.Maple.Tree.{split_leaf, climb}

-- `maple_init`
unfoldable pub init : Maple → Maple
init s =
    let (s1, r) = node_alloc (vma_pool_init (node_pool_init s)) in
    let s2 : Maple = record s1 { words = set_parent (set_is_leaf s1.words r 1) r 0 } in
    record (if r == 0 then s1 else s2) { root = r; count = 0 }

-- The loop down to a leaf, `n` rounds at most; 0 for a missing child, which `maple_add` does not look for.
unfoldable pub descend : (ℕ → ℕ) → (addr node n : ℕ) → ℕ
descend m addr node zero = node
descend m addr node (suc n) =
    let next = child m node (internal_find_child m node addr) in
    let rest = descend m addr next n in
    if node == 0 then 0 else if is_leaf m node == 0 then rest else node

-- The loop of `maple_add` over the entries of a leaf from `i` on, `n` of them.
unfoldable pub overlaps : Maple → (leaf start end i n : ℕ) → Bool
overlaps s leaf start end i zero = false
overlaps s leaf start end i (suc n) =
    let a = s.areas (child s.words leaf i) in
    (ltb start a.end && ltb a.start end) || overlaps s leaf start end (i + 1) n

-- The entry of the area `vma` into a leaf.
unfoldable pub insert_area : Maple → (leaf vma : ℕ) → Maple
insert_area s leaf vma =
    let start = (s.areas vma).start in
    record s { words = leaf_insert_at s.words leaf (leaf_find_slot s.words leaf start) vma start }

-- What `maple_add` does for a full leaf.
unfoldable pub split_and_insert : Maple → (leaf vma : ℕ) → Maple × Status
split_and_insert s leaf vma =
    let (s1, new_leaf) = node_alloc s in
    let (m, key) = split_leaf s1.words leaf new_leaf in
    let s2 : Maple = record s1 { words = m } in
    let start = (s.areas vma).start in
    let s3 = if ltb start key then insert_area s2 leaf vma else insert_area s2 new_leaf vma in
    let s4 = climb s3 leaf new_leaf key max_nodes in
    if new_leaf == 0
    then (vma_free_entry s vma, fail)
    else (record s4 { count = add32 s4.count 1 }, ok)

-- What `maple_add` does at the leaf, from the check for overlapping areas on.
unfoldable pub add_to_leaf : Maple → VmArea → (leaf : ℕ) → Maple × Status
add_to_leaf s a leaf =
    let (s1, vma) = vma_alloc s in
    let s2 : Maple = record s1 { areas = update s1.areas vma a } in
    let s3 = insert_area s2 leaf vma in
    if overlaps s leaf a.start a.end 0 (nr_entries s.words leaf)
    then (s, fail)
    else if vma == 0
    then (s, fail)
    else if ltb (nr_entries s2.words leaf) node_slots
    then (record s3 { count = add32 s3.count 1 }, ok)
    else split_and_insert s2 leaf vma

-- `maple_add`
unfoldable pub add : Maple → (start end flags name : ℕ) → Maple × Status
add s start end flags name =
    if leb max_vmas s.count
    then (s, fail)
    else if leb end start
    then (s, fail)
    else if not (bit_and start 0xFFF == 0) || not (bit_and end 0xFFF == 0)
    then (s, fail)
    else if s.root == 0
    then (s, fail)
    else add_to_leaf s (record { start = start; end = end; flags = flags; name = name })
        (descend s.words start s.root max_nodes)

-- The loop of `maple_remove` over the entries of a leaf from `i` on, `n` of them.
unfoldable pub remove_from : Maple → (leaf start i n : ℕ) → Maple × Status
remove_from s leaf start i zero = (s, fail)
remove_from s leaf start i (suc n) =
    let v = child s.words leaf i in
    let s1 = vma_free_entry s v in
    let rest = remove_from s leaf start (i + 1) n in
    if not (v == 0) && (s.areas v).start == start
    then (record s1 { words = leaf_remove_at s1.words leaf i; count = sub32 s1.count 1 }, ok)
    else rest

-- `maple_remove`
unfoldable pub remove : Maple → (start : ℕ) → Maple × Status
remove s start =
    let leaf = descend s.words start s.root max_nodes in
    if leaf == 0 then (s, fail) else remove_from s leaf start 0 (nr_entries s.words leaf)

-- The loop of `maple_find` over the entries of a leaf from `i` on, `n` of them.
unfoldable pub find_in : Maple → (leaf addr i n : ℕ) → Option VmArea
find_in s leaf addr i zero = none
find_in s leaf addr i (suc n) =
    let v = child s.words leaf i in
    let a = s.areas v in
    let rest = find_in s leaf addr (i + 1) n in
    if not (v == 0) && (leb a.start addr && ltb addr a.end) then some a else rest

-- `maple_find`
unfoldable pub find : Maple → (addr : ℕ) → Option VmArea
find s addr =
    let leaf = descend s.words addr s.root max_nodes in
    if leaf == 0 then none else find_in s leaf addr 0 (nr_entries s.words leaf)

-- `maple_count`
unfoldable pub count_areas : Maple → ℕ
count_areas s = s.count
