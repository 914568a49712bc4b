-- ===== src/Pmm/Dispatch/Calls.antt =====
-- The dispatch layer with the buddy allocator registered.
use my_microkernel.Prelude.{ℕ, ◌≡◌, ◌⊎◌, inl, inr, refl, ap, ◌∙◌, some}
use my_microkernel.Pmm.Dispatch.{Ops, Pmm, operation, alloc_page, free_page, free_pages}
use my_microkernel.Pmm.Buddy.{Zone, index_to_phys}
use my_microkernel.Pmm.Buddy
use my_microkernel.Pmm.Buddy.Queries
use my_microkernel.Pmm.Buddy.Invariant.{IsValid}
use my_microkernel.Pmm.Buddy.Alloc.{Allocated}
use my_microkernel.Pmm.Buddy.Pages.{IsPlaced, alloc_page-Allocated}

-- `g_buddy_ops`, for what `pmm_buddy_init` makes of the zone.
pub buddy_ops : (Zone → Zone) → Ops Zone
buddy_ops start = record {
  name = 1;
  init = start;
  alloc_page = some Buddy.alloc_page;
  free_page = some Buddy.free_page;
  total_pages = some Queries.total_pages;
  free_pages = some Queries.free_pages;
  managed_base = some Queries.managed_base;
  page_addr = some Queries.page_addr;
  page_is_used = some Queries.page_is_used;
}

-- The calls on an initialised buddy allocator are those of the allocator on its zone.
module _ (start : Zone → Zone) (z : Zone) where
  abbrev pub on_buddy : Pmm Zone
  on_buddy = record { ops = some (buddy_ops start); store = z }

  forwarded :
      (alloc_page on_buddy ≡ (
        record { ops = some (buddy_ops start); store = (Buddy.alloc_page z).0 },
        (Buddy.alloc_page z).1,
      ))
      × ((page : ℕ)
          → free_page on_buddy page
            ≡ record { ops = some (buddy_ops start); store = Buddy.free_page z page })
      × (free_pages on_buddy ≡ Queries.free_pages z)
  unfolding alloc_page free_page free_pages operation buddy_ops
  forwarded = (refl, λ page. refl, refl)

-- With the buddy allocator registered on a valid zone that lies page aligned below 4 GiB,
-- `pmm_alloc_page` returns 0, and changes nothing, or the address of a page that was free, and then
-- exactly this page has become allocated.
pub alloc_page-on_buddy :
    (start : Zone → Zone) (z : Zone)
    → IsValid z
    → IsPlaced z
    → (alloc_page (on_buddy start z) ≡ (on_buddy start z, 0))
      ⊎ ((idx : ℕ) × (z' : Zone) × (alloc_page (on_buddy start z)
            ≡ (on_buddy start z', index_to_phys z idx))
          × Allocated z z' idx 0)
alloc_page-on_buddy start z v pl =
    let f = (forwarded start z).0 in
    elim (alloc_page-Allocated z v pl) [
      | inl e ↦ inl (f ∙ ap (λ (r : Zone × ℕ). (on_buddy start r.0, r.1)) e)
      | inr (idx, z', e, a) ↦
          inr (idx, z', f ∙ ap (λ (r : Zone × ℕ). (on_buddy start r.0, r.1)) e, a)
    ]
