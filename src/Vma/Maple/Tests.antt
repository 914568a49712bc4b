-- ===== src/Vma/Maple/Tests.antt =====
-- Leaves of two and of nine entries, and calls of the whole back end.
use my_microkernel.Prelude.{
  ℕ, ◌+◌, ◌*◌, ◌%◌, ◌≡◌, refl, arith, ◌==◌, if◌then◌else◌, ltb, some, none,
}
use my_microkernel.Vma.Maple.{
  Maple, nr_entries, node_pool_init, link_nodes, node_alloc, clear_words, vma_pool_init, link_vmas,
  vma_alloc,
}
use my_microkernel.Vma.Maple.Entries.{
  find_slot, leaf_find_slot, shift_entries, leaf_insert_at, find_child, internal_find_child,
}
use my_microkernel.Vma.Maple.Calls.{
  init, descend, overlaps, insert_area, add_to_leaf, add, find_in, find, count_areas,
}
use my_microkernel.Vma.Maple.Full.{EntryAt, leaf_insert_at-EntryAt, leaf_insert_at-tenth}

-- A leaf at the address 100, with areas at 4096 and 12288.
abbrev two_entries : ℕ → ℕ
two_entries a =
    if a == 100
    then 4096
    else if a == 101
    then 12288
    else if a == 109
    then 258
    else if a == 111
    then 1
    else if a == 112
    then 2
    else 0

leaf_insert_at-EntryAt_example :
    EntryAt two_entries (leaf_insert_at two_entries 100 1 3 8192) 100 1 3 8192 2
    × (nr_entries (leaf_insert_at two_entries 100 1 3 8192) 100 ≡ nr_entries two_entries 100 + 1)
leaf_insert_at-EntryAt_example =
    leaf_insert_at-EntryAt two_entries 100 1 3 8192 2 (omega arith) (omega arith) (omega arith)

-- A leaf with nine areas of one page.
abbrev nine_entries : ℕ → ℕ
nine_entries a =
    if ltb a 100
    then 0
    else if ltb a 109
    then 4096 * (a % 100 + 1)
    else if a == 109
    then 265
    else if ltb a 120
    then a % 100
    else 0

leaf_insert_at-tenth_example : nr_entries (leaf_insert_at nine_entries 100 9 10 49152) 100 ≡ 1
leaf_insert_at-tenth_example =
    leaf_insert_at-tenth nine_entries 100 9 10 49152 refl (omega arith) refl refl

abbrev empty : Maple
empty = record {
  words = λ a. 0;
  node_free = 0;
  areas = λ v. record { start = 0; end = 0; flags = 0; name = 0 };
  vma_free = 0;
  root = 0;
  count = 0;
}

abbrev one_area : Maple
one_area = (add (init empty) 4096 8192 3 7).0

added :
    (find one_area 5000 ≡ some (record { start = 4096; end = 8192; flags = 3; name = 7 }))
    × (find one_area 8192 ≡ none)
    × (count_areas one_area ≡ 1)
unfolding init node_pool_init link_nodes node_alloc clear_words vma_pool_init link_vmas vma_alloc
    add add_to_leaf overlaps descend insert_area leaf_find_slot find_slot leaf_insert_at
    shift_entries find find_in find_child internal_find_child count_areas
added = (refl, refl, refl)
