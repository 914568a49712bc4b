-- ===== src/Pmm/Dispatch.antt =====
-- src/kernel/mm/pmm.c: calls are forwarded through a table of operations to the registered back end,
-- the bitmap allocator if none is registered. `S` is all the static data of the back ends. An
-- operation that is missing from the table is `none`.
pub mod Calls
mod Tests
use my_microkernel.Prelude.{ℕ, Bool, Option, none, some}

-- `pmm_ops_t`. The name is a pointer.
pub record Ops (S : Type 0) : Type 0 where
  pub name : ℕ
  pub init : S → S
  pub alloc_page : Option (S → S × ℕ)
  pub free_page : Option (S → ℕ → S)
  pub total_pages : Option (S → ℕ)
  pub free_pages : Option (S → ℕ)
  pub managed_base : Option (S → ℕ)
  pub page_addr : Option (S → ℕ → ℕ)
  pub page_is_used : Option (S → ℕ → Option Bool)

module _ (S : Type 0) where
  -- `g_pmm_ops`, none for NULL, and the data of the back ends.
  pub record Pmm : Type 0 where
    pub ops : Option (Ops S)
    pub store : S

module _ {S : Type 0} where
  -- `pmm_register_backend`
  pub register_backend : Pmm S → Option (Ops S) → Pmm S
  register_backend v o = record v { ops = o }

  -- `pmm_backend_name`, 0 for NULL.
  pub backend_name : Pmm S → ℕ
  backend_name v = elim v.ops [ none ↦ 0 | some o ↦ o.name ]

  -- `pmm_init`; `bitmap` is what `pmm_bitmap_get_ops` returns.
  pub init : (bitmap : Ops S) → Pmm S → Pmm S
  init bitmap v = elim v.ops [
    | none ↦ record { ops = some bitmap; store = bitmap.init v.store }
    | some o ↦ record v { store = o.init v.store }
  ]

  -- `!g_pmm_ops || !g_pmm_ops->f`: the operation, if there is one.
  pub operation : {A : Type 0} → (Ops S → Option A) → Pmm S → Option A
  operation f v = elim v.ops [ none ↦ none | some o ↦ f o ]

  -- `pmm_alloc_page`, 0 for NULL.
  pub alloc_page : Pmm S → Pmm S × ℕ
  alloc_page v = elim (operation (λ o. o.alloc_page) v) [
    | none ↦ (v, 0)
    | some f ↦ let (s, p) = f v.store in (record v { store = s }, p)
  ]

  -- `pmm_free_page`
  pub free_page : Pmm S → ℕ → Pmm S
  free_page v page = elim (operation (λ o. o.free_page) v) [
    | none ↦ v
    | some f ↦ record v { store = f v.store page }
  ]

  -- `pmm_total_pages`, `pmm_free_pages` and `pmm_managed_base`
  pub total_pages : Pmm S → ℕ
  total_pages v = elim (operation (λ o. o.total_pages) v) [ none ↦ 0 | some f ↦ f v.store ]

  pub free_pages : Pmm S → ℕ
  free_pages v = elim (operation (λ o. o.free_pages) v) [ none ↦ 0 | some f ↦ f v.store ]

  pub managed_base : Pmm S → ℕ
  managed_base v = elim (operation (λ o. o.managed_base) v) [ none ↦ 0 | some f ↦ f v.store ]

  -- `pmm_page_addr`
  pub page_addr : Pmm S → ℕ → ℕ
  page_addr v i = elim (operation (λ o. o.page_addr) v) [ none ↦ 0 | some f ↦ f v.store i ]

  -- `pmm_page_is_used`, none for -1.
  pub page_is_used : Pmm S → ℕ → Option Bool
  page_is_used v i = elim (operation (λ o. o.page_is_used) v) [ none ↦ none | some f ↦ f v.store i ]
