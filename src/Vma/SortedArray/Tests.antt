-- ===== src/Vma/SortedArray/Tests.antt =====
-- The sorted array on small inputs.
use my_microkernel.Prelude.{
  ℕ, ◌≡◌, ◌↔◌, refl, arith, ok, fail, none, some, ◌<◌, ltb, leb, ◌&&◌, if◌then◌else◌,
}
use my_microkernel.Vma.Area.{Covers}
use my_microkernel.Vma.SortedArray.{
  State, init, clear_areas, add, remove, find, lower_bound, lower_loop, overlaps, unaligned,
  insert_at, shift_up, no_area,
}
use my_microkernel.Vma.SortedArray.Search.{IsValid, init-IsValid}
use my_microkernel.Vma.SortedArray.Lookup.{find_iff}
use my_microkernel.Vma.SortedArray.Insert.{Accepts, add-ok_iff, add-IsValid, find-add, add_failed}
use my_microkernel.Vma.SortedArray.Delete.{find-remove, remove_failed}

abbrev zeroed : State
zeroed = record { areas = λ i. no_area; count = 0 }

abbrev fresh : State
fresh = init zeroed

abbrev one_area : State
one_area = (add fresh 4096 8192 3 0).0

one_area-IsValid : IsValid one_area
one_area-IsValid = add-IsValid fresh 4096 8192 3 0 (init-IsValid zeroed)

abbrev two_areas : State
two_areas = (add one_area 0x10000 0x12000 1 0).0

two_areas-IsValid : IsValid two_areas
two_areas-IsValid = add-IsValid one_area 0x10000 0x12000 1 0 one_area-IsValid

two_areas-lower : lower_bound two_areas 8192 ≡ 1
unfolding init add insert_at lower_bound lower_loop overlaps unaligned shift_up clear_areas
two_areas-lower = refl

second_add : (add one_area 0x10000 0x12000 1 0).1 ≡ ok
unfolding init add insert_at lower_bound lower_loop overlaps unaligned shift_up clear_areas
second_add = refl

overlap_refused : (add two_areas 0x11000 0x14000 1 0).1 ≡ fail
unfolding init add insert_at lower_bound lower_loop overlaps unaligned shift_up clear_areas
overlap_refused = refl

unknown_refused : (remove two_areas 0x11000).1 ≡ fail
unfolding init add insert_at lower_bound lower_loop overlaps unaligned shift_up clear_areas remove
unknown_refused = refl

two_starts : (1 < two_areas.count) × ((two_areas.areas 1).start ≡ 0x10000)
unfolding init add insert_at lower_bound lower_loop overlaps unaligned shift_up clear_areas
two_starts = (omega arith, refl)

find_iff_example : (find two_areas 0x10800 ≡ some (two_areas.areas 1)) ↔ (
    (i : ℕ) × (i < two_areas.count)
    × (two_areas.areas i ≡ two_areas.areas 1)
    × Covers (two_areas.areas 1) 0x10800)
find_iff_example = find_iff two_areas 0x10800 (two_areas.areas 1) two_areas-IsValid

add-ok_iff_example :
    ((add one_area 0x10000 0x12000 1 0).1 ≡ ok) ↔ Accepts one_area 0x10000 0x12000 1 0
add-ok_iff_example = add-ok_iff one_area 0x10000 0x12000 1 0

add-IsValid_example : IsValid (add one_area 0x10000 0x12000 1 0).0
add-IsValid_example = add-IsValid one_area 0x10000 0x12000 1 0 one_area-IsValid

find-add_example : find two_areas 0x11FFF ≡ (
    if leb 0x10000 0x11FFF && ltb 0x11FFF 0x12000
    then some (record { start = 0x10000; end = 0x12000; flags = 1; name = 0 })
    else find one_area 0x11FFF)
find-add_example = find-add one_area 0x10000 0x12000 1 0 0x11FFF one_area-IsValid second_add

add_failed_example : (add two_areas 0x11000 0x14000 1 0).0 ≡ two_areas
add_failed_example = add_failed two_areas 0x11000 0x14000 1 0 overlap_refused

find-remove_example : find (remove two_areas 0x10000).0 0x10800 ≡ (
    if leb (two_areas.areas 1).start 0x10800 && ltb 0x10800 (two_areas.areas 1).end
    then none
    else find two_areas 0x10800)
find-remove_example =
    find-remove two_areas 0x10000 two_areas-IsValid 1 0x10800 two_starts.0 two_starts.1

remove_failed_example : (remove two_areas 0x11000).0 ≡ two_areas
remove_failed_example = remove_failed two_areas 0x11000 two_areas-IsValid unknown_refused
