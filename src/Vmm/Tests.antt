-- ===== src/Vmm/Tests.antt =====
-- Page tables over an allocator that hands out ascending pages from 2 MiB on.
use my_microkernel.Prelude.{
  ℕ, ◌≡◌, ◌≢◌, ◌↔◌, ◌⊎◌, refl, arith, true, false, ◌==◌, if◌then◌else◌, none, some, ok, fail, [],
  ◌+◌,
}
use my_microkernel.Vmm.{
  Services, Vmm, has, present, low_bits, pd_index, map_page, unmap_page, get_physical,
  ensure_page_table, new_table, map_in,
}
use my_microkernel.Vmm.Tables.{IsValid, IsFresh}
use my_microkernel.Vmm.Map.{map_page-ok_iff, map_page-get_physical, unmap_page-get_physical}

-- The allocator's data is the address of its next page.
abbrev bump : Services ℕ
bump = record {
  pmm_alloc_page = λ p. (p + 4096, p);
  pmm_free_page = λ p addr. p;
  pmm_total_pages = λ p. 1024;
  pmm_managed_base = λ p. 0x200000;
  vma_is_ready = λ p. false;
  vma_add = λ p start end flags name. (p, fail);
  vma_remove = λ p start. (p, fail);
}

abbrev blank : Vmm ℕ
blank = record {
  pd = λ i. 0;
  frames = λ f i. 0;
  ready = true;
  next_vaddr = 0xD0000000;
  direct_map_end = 0xD0000000;
  cr3 = 0x106000;
  flushed = [];
  rest = 0x200000;
}

blank-IsValid : IsValid blank
blank-IsValid = record { words = λ i. omega arith; apart = λ i j p. absurd (ground arith) }

blank-IsFresh : IsFresh blank 0x200000
blank-IsFresh = record { aligned = refl; word = omega arith; unused = λ i p. absurd (ground arith) }

mapped : (map_page bump blank 0xD0000000 0x300000 3).1 ≡ ok
unfolding map_page ensure_page_table new_table map_in
mapped = refl

map_page-ok_iff_example : ((map_page bump blank 0xD0000000 0x300000 3).1 ≡ ok) ↔ (
    (low_bits 0xD0000000 ≡ 0)
    × (low_bits 0x300000 ≡ 0)
    × ((has (blank.pd (pd_index 0xD0000000)) present ≡ true)
        ⊎ ((bump.pmm_alloc_page blank.rest).1 ≢ 0)))
map_page-ok_iff_example = map_page-ok_iff bump blank 0xD0000000 0x300000 3

map_page-get_physical_example :
    get_physical bump (map_page bump blank 0xD0000000 0x300000 3).0 0xD0000000
    ≡ (if 0xD0000000 == 0xD0000000 then some 0x300000 else get_physical bump blank 0xD0000000)
map_page-get_physical_example =
    map_page-get_physical bump blank 0xD0000000 0x300000 3 blank-IsValid blank-IsFresh refl
      (omega arith) (omega arith) refl mapped 0xD0000000 (omega arith) refl

unmap_page-get_physical_example :
    get_physical bump (unmap_page bump blank 0xD0000000) 0xD0000000
    ≡ (if 0xD0000000 == 0xD0000000 then none else get_physical bump blank 0xD0000000)
unmap_page-get_physical_example =
    unmap_page-get_physical bump blank 0xD0000000 blank-IsValid refl (omega arith) refl 0xD0000000
      (omega arith) refl
