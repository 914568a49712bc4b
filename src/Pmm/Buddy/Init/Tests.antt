-- ===== src/Pmm/Buddy/Init/Tests.antt =====
-- The buddy allocator on a zone of two pages at 1 MiB.
use my_microkernel.Prelude.{ℕ, ◌≡◌, ◌≢◌, ◌↔◌, refl, arith, true, false, none, some, ◌<◌}
use my_microkernel.Pmm.Links.{list_empty, list_init, list_add_tail, list_del, list_pop}
use my_microkernel.Pmm.Buddy.{
  Zone, buddy_alloc, buddy_free, free_page, index_to_phys, find_order, split, popped, take_block,
  set_order, carve, add_free, alloc_page, page_result,
}
use my_microkernel.Pmm.Buddy.Invariant.{IsValid, IsFreePage}
use my_microkernel.Pmm.Buddy.Alloc.{Allocated, buddy_alloc-Allocated}
use my_microkernel.Pmm.Buddy.Free.{Freed, buddy_free-Freed}
use my_microkernel.Pmm.Buddy.Pages.{IsPlaced, Accepts, free_page-alloc_page, free_page_twice}
use my_microkernel.Pmm.Buddy.Init.{Layout, filled_zone, cleared, init_lists, choose_order, fill}
use my_microkernel.Pmm.Buddy.Init.Fill.{filled_zone-IsFilled}

abbrev garbage : Zone
garbage = record {
  base_phys = 0;
  total_pages = 0;
  order = λ i. 7;
  is_free = λ i. true;
  links = record { prev = λ n. 0; next = λ n. 0 };
  free_count = λ i. 0;
  total_free = 0;
  ready = false;
}

abbrev two_pages : Layout
two_pages = record { region_start = 0x100000; managed_start = 0x100000; managed_pages = 2 }

pub zone : Zone
zone = filled_zone garbage two_pages

filled_zone-IsFilled_example :
    IsValid (filled_zone garbage two_pages)
    × ((p : ℕ) → IsFreePage (filled_zone garbage two_pages) p ↔ (p < two_pages.managed_pages))
    × ((filled_zone garbage two_pages).total_free ≡ two_pages.managed_pages)
    × ((filled_zone garbage two_pages).ready ≡ true)
filled_zone-IsFilled_example = filled_zone-IsFilled garbage two_pages (omega arith)

pub zone-IsValid : IsValid zone
unfolding zone
zone-IsValid = (filled_zone-IsFilled garbage two_pages (omega arith)).0

pub zone-IsPlaced : IsPlaced zone
unfolding zone filled_zone cleared init_lists fill choose_order add_free
zone-IsPlaced = record { base_aligned = omega arith; base_pos = omega arith; below = omega arith }

first_taken : (buddy_alloc zone 0).1 ≡ some 0
unfolding zone filled_zone cleared init_lists fill choose_order add_free buddy_alloc find_order
    split popped take_block set_order carve list_empty list_add_tail list_pop list_del list_init
first_taken = refl

abbrev one_taken : Zone
one_taken = (buddy_alloc zone 0).0

alloc_run : buddy_alloc zone 0 ≡ (one_taken, some 0)
alloc_run = λ i. ((buddy_alloc zone 0).0, first_taken i)

one_taken-Allocated : Allocated zone one_taken 0 0
one_taken-Allocated = buddy_alloc-Allocated zone one_taken 0 0 zone-IsValid alloc_run

none_left : (buddy_alloc zone 2).1 ≡ none
unfolding zone filled_zone cleared init_lists fill choose_order add_free buddy_alloc find_order
    split popped take_block set_order carve list_empty list_add_tail list_pop list_del list_init
none_left = refl

refused_run : buddy_alloc zone 2 ≡ ((buddy_alloc zone 2).0, none)
refused_run = λ i. ((buddy_alloc zone 2).0, none_left i)

-- Page 1 of the full zone lies in the free block that starts at page 0.
inner-Accepts : Accepts zone 1
unfolding zone filled_zone cleared init_lists fill choose_order add_free buddy_alloc find_order
    split popped take_block set_order carve list_empty list_add_tail list_pop list_del list_init
inner-Accepts = record { ready = refl; inside = omega arith; taken = refl }

inner-order : zone.order 1 ≡ 0
unfolding zone filled_zone cleared init_lists fill choose_order add_free buddy_alloc find_order
    split popped take_block set_order carve list_empty list_add_tail list_pop list_del list_init
inner-order = refl

inner-IsFreePage : IsFreePage zone 1
unfolding zone filled_zone cleared init_lists fill choose_order add_free buddy_alloc find_order
    split popped take_block set_order carve list_empty list_add_tail list_pop list_del list_init
inner-IsFreePage = record { first = 0; is_free = refl; from = omega arith; below = omega arith }

buddy_alloc-Allocated_example : Allocated zone one_taken 0 0
buddy_alloc-Allocated_example = buddy_alloc-Allocated zone one_taken 0 0 zone-IsValid alloc_run

buddy_free-Freed_example : Freed one_taken (buddy_free one_taken 0 0 10) 0 0
buddy_free-Freed_example =
    buddy_free-Freed one_taken 0 0 10 one_taken-Allocated.valid one_taken-Allocated.hole
      (omega arith)

-- The address of page 0.
first_address : (alloc_page zone).1 ≢ 0
unfolding zone filled_zone cleared init_lists fill choose_order add_free alloc_page page_result
    buddy_alloc find_order split popped take_block set_order carve list_empty list_add_tail list_pop
    list_del list_init index_to_phys
first_address = λ e. omega (arith, e)

free_page-alloc_page_example :
    let (z', phys) = alloc_page zone in
    let z'' = free_page z' phys in
    IsValid z''
    × ((p : ℕ) → IsFreePage z'' p ↔ IsFreePage zone p)
    × (z''.total_free ≡ zone.total_free)
free_page-alloc_page_example = free_page-alloc_page zone zone-IsValid zone-IsPlaced first_address

free_page_twice_example : ¬ (IsValid (free_page zone (index_to_phys zone 1)))
free_page_twice_example =
    free_page_twice zone 1 zone-IsValid zone-IsPlaced inner-Accepts inner-order inner-IsFreePage
