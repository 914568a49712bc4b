-- ===== src/Vma/Dispatch.antt =====
-- src/kernel/mm/vma.c: calls are forwarded through a table of operations to the registered back
-- end. `S` is all the static data of the back ends, which only they look into.
pub mod Refine
mod Tests
use my_microkernel.Prelude.{
  ℕ, Bool, true, false, Option, none, some, Status, ok, fail, List, [], ◌∷◌,
}
use my_microkernel.Vma.Area.{VmArea}

-- `vma_ops_t`, without the printing of `dump`. The name is a pointer.
pub record Backend (S : Type 0) : Type 0 where
  pub name : ℕ
  pub init : S → S
  pub add : S → (start end flags name : ℕ) → S × Status
  pub remove : S → ℕ → S × Status
  pub find : S → ℕ → Option VmArea
  pub count : S → ℕ

module _ (S : Type 0) where
  -- `g_vma_ops` (none for NULL), `g_vma_ready`, and the data of the back ends.
  pub record Vma : Type 0 where
    pub ops : Option (Backend S)
    pub ready : Bool
    pub store : S

module _ {S : Type 0} where
  -- `vma_register_backend`
  pub register : Vma S → Option (Backend S) → Vma S
  register v b = record v { ops = b }

  -- `vma_backend_name`, 0 for NULL.
  pub backend_name : Vma S → ℕ
  backend_name v = elim v.ops [ none ↦ 0 | some b ↦ b.name ]

  -- `vma_init`
  pub init : Vma S → Vma S
  init v = elim v.ops [ none ↦ v | some b ↦ record v { ready = true; store = b.init v.store } ]

  -- The guard that the calls share: the back end, if there is one and it is initialised.
  pub active : Vma S → Option (Backend S)
  active v = elim v.ready [ true ↦ v.ops | false ↦ none ]

  -- `vma_add`
  pub add : Vma S → (start end flags name : ℕ) → Vma S × Status
  unfolding active
  add v start end flags name = elim (active v) [
    | none ↦ (v, fail)
    | some b ↦ let (s, r) = b.add v.store start end flags name in (record v { store = s }, r)
  ]

  -- `vma_remove`
  pub remove : Vma S → ℕ → Vma S × Status
  unfolding active
  remove v start = elim (active v) [
    | none ↦ (v, fail)
    | some b ↦ let (s, r) = b.remove v.store start in (record v { store = s }, r)
  ]

  -- `vma_find`
  pub find : Vma S → ℕ → Option VmArea
  unfolding active
  find v addr = elim (active v) [ none ↦ none | some b ↦ b.find v.store addr ]

  -- `vma_count`
  pub count : Vma S → ℕ
  unfolding active
  count v = elim (active v) [ none ↦ 0 | some b ↦ b.count v.store ]

  -- `vma_is_ready`
  pub is_ready : Vma S → Bool
  is_ready v = v.ready

-- The calls that change what is registered.
pub data Call : Type 0 where
  adds : (start end flags name : ℕ) → Call
  removes : ℕ → Call

module _ {S : Type 0} where
  pub call : Vma S → Call → Vma S × Status
  unfolding add remove
  call v (adds start end flags name) = add v start end flags name
  call v (removes start) = remove v start

  -- The state after a sequence of calls, and what each returned.
  pub run : Vma S → List Call → Vma S × List Status
  run v [] = (v, [])
  run v (c ∷ cs) = let (v', r) = call v c in let (v'', rs) = run v' cs in (v'', r ∷ rs)
