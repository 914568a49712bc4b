-- ===== src/Vmm/Runs.antt =====
-- `vmm_alloc_pages` and `vmm_free_pages` of src/kernel/mm/vmm.c: runs of pages above the direct mapping.
use my_microkernel.Prelude.{
  ℕ, zero, suc, ◌+◌, ◌-◌, not, ◌||◌, Option, none, some, ltb, ◌==◌, if◌then◌else◌, bit_or, word,
  add32, mul32, page_size, Status, ok, fail,
}
use my_microkernel.Vmm.{
  Services, Vmm, map_page, unmap_page, get_physical, present, writable, vma_rw,
}

module _ {S : Type 0} (k : Services S) where
  -- The failure of one round of `vmm_alloc_pages`: the page itself is given back.
  pub map_or_free : ℕ → (phys : ℕ) → Vmm S × Status → Vmm S × Status
  map_or_free virt phys (s, ok) = (s, ok)
  map_or_free virt phys (s, fail) = (record s { rest = k.pmm_free_page s.rest phys }, fail)

  pub alloc_round : Vmm S → (virt : ℕ) → S × ℕ → Vmm S × Status
  alloc_round s virt (rest, phys) =
      let s1 = record s { rest = rest } in
      if phys == 0
      then (s1, fail)
      else map_or_free virt phys (map_page k s1 virt phys (bit_or present writable))

  -- The loop of `vmm_alloc_pages` from page `i` on, `n` of them.
  pub alloc_loop : Vmm S → (start i n : ℕ) → Vmm S × Status
  alloc_loop s start i zero = (s, ok)
  alloc_loop s start i (suc n) =
      let (s1, r) = alloc_round s (add32 start (mul32 i page_size)) (k.pmm_alloc_page s.rest) in
      let rest = alloc_loop s1 start (i + 1) n in elim r [ fail ↦ (s1, fail) | ok ↦ rest ]

  -- `pmm_free_page` on the page of an address, if it has one, followed by the unmapping.
  pub release : Vmm S → ℕ → Option ℕ → Vmm S
  release s virt none = s
  release s virt (some phys) = record s { rest = k.pmm_free_page s.rest phys }

  -- The loop at `rollback`: only a page that is mapped is unmapped.
  pub rollback_step : Vmm S → ℕ → Option ℕ → Vmm S
  rollback_step s virt none = s
  rollback_step s virt (some phys) = unmap_page k (release s virt (some phys)) virt

  pub rollback : Vmm S → (start j n : ℕ) → Vmm S
  rollback s start j zero = s
  rollback s start j (suc n) =
      let virt = add32 start (mul32 j page_size) in
      rollback (rollback_step s virt (get_physical k s virt)) start (j + 1) n

  pub alloc_finish : (start count name : ℕ) → Vmm S × Status → Vmm S × ℕ
  alloc_finish start count name (s, fail) = (rollback s start 0 count, 0)
  alloc_finish start count name (s, ok) =
      let end = add32 start (mul32 count page_size) in
      if k.vma_is_ready s.rest
      then (record s { rest = (k.vma_add s.rest start end vma_rw name).0 }, start)
      else (s, start)

  -- `vmm_alloc_pages`, 0 for NULL; `name` is the address of its string.
  pub alloc_pages : (name : ℕ) → Vmm S → (count : ℕ) → Vmm S × ℕ
  alloc_pages name s count =
      let start = s.next_vaddr in
      let total_bytes = mul32 count page_size in
      let s1 = record s { next_vaddr = add32 start total_bytes } in
      if count == 0 || (not s.ready || s.next_vaddr == 0)
      then (s, 0)
      else if ltb (word - 1 - start) total_bytes
      then (s, 0)
      else alloc_finish start count name (alloc_loop s1 start 0 count)

  -- The loop of `vmm_free_pages`.
  pub free_loop : Vmm S → (base i n : ℕ) → Vmm S
  free_loop s base i zero = s
  free_loop s base i (suc n) =
      let virt = add32 base (mul32 i page_size) in
      free_loop (unmap_page k (release s virt (get_physical k s virt)) virt) base (i + 1) n

  -- `vmm_free_pages`
  pub free_pages : Vmm S → (vaddr count : ℕ) → Vmm S
  free_pages s vaddr count =
      let s1 =
        if k.vma_is_ready s.rest then record s { rest = (k.vma_remove s.rest vaddr).0 } else s in
      if vaddr == 0 || (count == 0 || not s.ready) then s else free_loop s1 vaddr 0 count
