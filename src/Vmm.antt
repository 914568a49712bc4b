-- ===== src/Vmm.antt =====
-- src/kernel/mm/vmm.c: two-level page tables. The words of physical memory are a function of a frame's
-- address and of an index into the frame, through which `PHYS_TO_VIRT` pointers read and write.
-- Messages are left out; `invlpg` and the loading of CR3 leave a trace in the state.
pub mod Entries
pub mod Tables
pub mod Write
pub mod Map
pub mod Runs
mod Tests
use my_microkernel.Prelude.{
  ℕ, zero, suc, ◌+◌, ◌-◌, ◌*◌, ◌/◌, ◌%◌, ◌^◌, Bool, true, false, not, ◌&&◌, ◌||◌, Option, none,
  some, ltb, leb, ◌==◌, if◌then◌else◌, update, bit_and, bit_or, word, add32, sub32, mul32,
  page_size, Status, ok, fail, List, [], ◌∷◌,
}

-- What the file calls: the page allocator (`pmm_alloc_page`, 0 for NULL, and `pmm_free_page`) and the
-- areas of virtual memory. `S` is their data.
pub record Services (S : Type 0) : Type 0 where
  pub pmm_alloc_page : S → S × ℕ
  pub pmm_free_page : S → ℕ → S
  pub pmm_total_pages : S → ℕ
  pub pmm_managed_base : S → ℕ
  pub vma_is_ready : S → Bool
  pub vma_add : S → (start end flags name : ℕ) → S × Status
  pub vma_remove : S → ℕ → S × Status

-- The static variables: the page directory's entries, the page tables in memory, `g_vmm_ready`,
-- `g_next_vaddr`, `g_direct_map_end`; then CR3, the addresses given to `invlpg`, latest first, and
-- the data of the services.
module _ (S : Type 0) where
  pub record Vmm : Type 0 where
    pub pd : ℕ → ℕ
    pub frames : ℕ → ℕ → ℕ
    pub ready : Bool
    pub next_vaddr : ℕ
    pub direct_map_end : ℕ
    pub cr3 : ℕ
    pub flushed : List ℕ
    pub rest : S

abbrev pub entries : ℕ
entries = 1024

abbrev pub kernel_virt_offset : ℕ
kernel_virt_offset = 0xC0000000

-- `PTE_PRESENT`, `PTE_WRITABLE` and `PTE_USER`, which are the flags of a directory entry too.
abbrev pub present : ℕ
present = 1

abbrev pub writable : ℕ
writable = 2

abbrev pub user : ℕ
user = 4

-- `VMA_READ` and `VMA_WRITE`
abbrev pub vma_rw : ℕ
vma_rw = bit_or 1 2

-- `pd_index` and `pt_index`
abbrev pub pd_index : ℕ → ℕ
pd_index virt = bit_and (virt / 2 ^ 22) 1023

abbrev pub pt_index : ℕ → ℕ
pt_index virt = bit_and (virt / 2 ^ 12) 1023

-- `v & 0xFFF`, `v & ~0xFFF` and the test of a flag
abbrev pub low_bits : ℕ → ℕ
low_bits v = bit_and v 0xFFF

abbrev pub frame_of : ℕ → ℕ
frame_of v = bit_and v 0xFFFFF000

abbrev pub has : ℕ → ℕ → Bool
has v flag = not (bit_and v flag == 0)

-- `memzero_page`, of a frame or of the directory
abbrev pub zero_page : ℕ → ℕ
zero_page i = 0

module _ {S : Type 0} (k : Services S) where
  -- What `vmm_ensure_page_table` does with a new page, when the directory entry is empty.
  pub new_table : Vmm S → ℕ → S × ℕ → Vmm S × Option ℕ
  new_table s i (rest, pt_phys) = if pt_phys == 0 then (record s { rest = rest }, none) else (
    record s {
      rest = rest;
      frames = update s.frames pt_phys zero_page;
      pd = update s.pd i (bit_or (bit_or pt_phys present) writable);
    },
    some pt_phys,
  )

  -- `vmm_ensure_page_table`: the frame of the page table, none for NULL.
  pub ensure_page_table : Vmm S → ℕ → Vmm S × Option ℕ
  ensure_page_table s i =
      if has (s.pd i) present
      then (s, some (frame_of (s.pd i)))
      else new_table s i (k.pmm_alloc_page s.rest)

  -- `if (g_vmm_ready) vmm_invlpg(virt)`
  pub flush : Vmm S → ℕ → Vmm S
  flush s virt = if s.ready then record s { flushed = virt ∷ s.flushed } else s

  -- The rest of `vmm_map_page`, once there is a page table.
  pub write_pte : Vmm S → (table virt phys flags : ℕ) → Vmm S
  write_pte s table virt phys flags =
      let pdi = pd_index virt in
      let pd = if has flags user then update s.pd pdi (bit_or (s.pd pdi) user) else s.pd in
      let pte = bit_or (frame_of phys) (low_bits flags) in
      flush
        (record s {
          pd = pd;
          frames = update s.frames table (update (s.frames table) (pt_index virt) pte);
        })
        virt

  pub map_in : (virt phys flags : ℕ) → Vmm S × Option ℕ → Vmm S × Status
  map_in virt phys flags (s, none) = (s, fail)
  map_in virt phys flags (s, some table) = (write_pte s table virt phys flags, ok)

  -- `vmm_map_page`
  pub map_page : Vmm S → (virt phys flags : ℕ) → Vmm S × Status
  map_page s virt phys flags =
      if not (low_bits virt == 0) || not (low_bits phys == 0)
      then (s, fail)
      else map_in virt phys flags (ensure_page_table s (pd_index virt))

  -- `vmm_unmap_page`
  pub unmap_page : Vmm S → ℕ → Vmm S
  unmap_page s virt =
      let pde = s.pd (pd_index virt) in
      let table = frame_of pde in
      if not (low_bits virt == 0)
      then s
      else if not (has pde present)
      then s
      else flush
          (record s { frames = update s.frames table (update (s.frames table) (pt_index virt) 0) })
          virt

  -- `vmm_get_pte`
  pub get_pte : Vmm S → ℕ → ℕ
  get_pte s virt =
      let pde = s.pd (pd_index virt) in
      if not s.ready
      then 0
      else if not (has pde present)
      then 0
      else s.frames (frame_of pde) (pt_index virt)

  -- `vmm_get_pde`
  pub get_pde : Vmm S → ℕ → ℕ
  get_pde s i = if not s.ready || leb entries i then 0 else s.pd i

  -- `vmm_get_physical`, for a pointer that is not NULL; none for -1.
  pub get_physical : Vmm S → ℕ → Option ℕ
  get_physical s virt =
      let pde = s.pd (pd_index virt) in
      let pte = s.frames (frame_of pde) (pt_index virt) in
      if not s.ready
      then none
      else if not (low_bits virt == 0)
      then none
      else if not (has pde present)
      then none
      else if not (has pte present)
      then none
      else some (frame_of pte)

  -- `vmm_is_mapped`, none for -1.
  pub is_mapped : Vmm S → ℕ → Option Bool
  is_mapped s virt =
      let pde = s.pd (pd_index virt) in
      let pte = s.frames (frame_of pde) (pt_index virt) in
      if not s.ready
      then none
      else if not (low_bits virt == 0)
      then none
      else if not (has pde present)
      then some false
      else some (has pte present)

  -- The loop of `vmm_init` from `addr` on, `n` pages.
  pub map_both : Vmm S → (addr n : ℕ) → Vmm S × Status
  map_both s addr zero = (s, ok)
  map_both s addr (suc n) =
      let (s1, r1) = map_page s addr addr (bit_or present writable) in
      let (s2, r2) = map_page s1 (add32 addr kernel_virt_offset) addr (bit_or present writable) in
      let rest = map_both s2 (add32 addr page_size) n in
      elim r1 [ fail ↦ (s1, fail) | ok ↦ elim r2 [ fail ↦ (s2, fail) | ok ↦ rest ] ]

  -- `map_end` in `vmm_init`, from the end of the kernel's image.
  pub map_limit : S → ℕ → ℕ
  map_limit rest kernel_end =
      let min_map = 16 * 1024 * 1024 in
      let a = if ltb kernel_end min_map then min_map else kernel_end in
      let pmm_end = add32 (k.pmm_managed_base rest) (mul32 (k.pmm_total_pages rest) page_size) in
      let b = if ltb a pmm_end then pmm_end else a in
      let c = if ltb 0x40000000 b then 0x40000000 else b in frame_of (add32 c (page_size - 1))

  -- What `vmm_init` does after its loop: nothing if the loop failed.
  pub activate : (pd_virt map_end : ℕ) → Vmm S × Status → Vmm S
  activate pd_virt map_end (s, fail) = s
  activate pd_virt map_end (s, ok) =
      let top = add32 kernel_virt_offset map_end in
      record s {
        cr3 = sub32 pd_virt kernel_virt_offset;
        ready = true;
        next_vaddr = bit_and (add32 top 0x3FFFFF) 0xFFC00000;
        direct_map_end = top;
      }

  -- `vmm_init`, for the linker's addresses of the page directory and of the end of the kernel.
  pub init : (pd_virt kernel_end : ℕ) → Vmm S → Vmm S
  init pd_virt kernel_end s =
      let map_end = map_limit s.rest kernel_end in
      activate pd_virt map_end (map_both (record s { pd = zero_page }) 0 (map_end / page_size))

  -- The loop of `vmm_unmap_identity`, from entry `i` on, `n` of them.
  pub clear_entries : Vmm S → (i n : ℕ) → Vmm S
  clear_entries s i zero = s
  clear_entries s i (suc n) =
      let s1 = if has (s.pd i) present then record s { pd = update s.pd i 0 } else s in
      clear_entries s1 (i + 1) n

  -- `vmm_unmap_identity`
  pub unmap_identity : (pd_virt : ℕ) → Vmm S → Vmm S
  unmap_identity pd_virt s =
      let s1 = clear_entries s 0 (pd_index kernel_virt_offset) in
      if not s.ready then s else record s1 { cr3 = sub32 pd_virt kernel_virt_offset }
