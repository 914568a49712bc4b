-- ===== src/Pmm/Buddy/Queries.antt =====
-- The queries of src/kernel/mm/pmm_buddy.c.
use my_microkernel.Prelude.{ℕ, Bool, true, false, not, ◌||◌, Option, none, some, leb, if◌then◌else◌}
use my_microkernel.Pmm.Buddy.{Zone, index_to_phys}

-- `pmm_buddy_total_pages`, `pmm_buddy_free_pages` and `pmm_buddy_managed_base`
pub total_pages : Zone → ℕ
total_pages z = if z.ready then z.total_pages else 0

pub free_pages : Zone → ℕ
free_pages z = if z.ready then z.total_free else 0

pub managed_base : Zone → ℕ
managed_base z = if z.ready then z.base_phys else 0

-- `pmm_buddy_page_addr`
pub page_addr : Zone → ℕ → ℕ
page_addr z i = if not z.ready || leb z.total_pages i then 0 else index_to_phys z i

-- `pmm_buddy_page_is_used`, none for -1.
pub page_is_used : Zone → ℕ → Option Bool
page_is_used z i =
    if not z.ready
    then none
    else if leb z.total_pages i
    then none
    else some (if z.is_free i then false else true)
