-- ===== src/Vma/Dispatch/Refine.antt =====
-- The contract of a back end of src/kernel/mm/vma.c, as a record of laws about an address map, with the
-- sorted array as an instance, and the dispatch layer over any such back end.
use mathlib.Core.Path.{fun_ext}
use my_microkernel.Prelude.{
  ◌⊎◌, ℕ, ◌≡◌, refl, arith, true, false, ◌&&◌, Option, none, some, List, [], ◌∷◌, ltb, leb,
  if◌then◌else◌, Status, ok, fail, inl, inr, status_cases,
}
use my_microkernel.Vma.Area.{VmArea}
use my_microkernel.Vma.Dispatch.{
  Backend, Vma, Call, adds, removes, active, register, init, find, add, remove, call, run,
}
use my_microkernel.Vma.SortedArray
use my_microkernel.Vma.SortedArray.Search.{IsValid, init-IsValid}
use my_microkernel.Vma.SortedArray.Lookup.{find-init, find_iff}
use my_microkernel.Vma.SortedArray.Insert.{add-IsValid, add_failed, find-add}
use my_microkernel.Vma.SortedArray.Delete.{
  remove-IsValid, remove-ok_iff, remove_failed, find-remove,
}

-- The abstract view: the area at each address.
abbrev pub AddressMap : Type 0
AddressMap = ℕ → Option VmArea

abbrev pub paint : AddressMap → VmArea → AddressMap
paint m a addr = if leb a.start addr && ltb addr a.end then some a else m addr

abbrev pub erase : AddressMap → Option VmArea → AddressMap
erase m none addr = m addr
erase m (some a) addr = if leb a.start addr && ltb addr a.end then none else m addr

-- What a call does to the view, given what it returned.
abbrev pub view_step : AddressMap → Call → Status → AddressMap
view_step m c fail = m
view_step m (adds start end flags name) ok =
    paint m (record { start = start; end = end; flags = flags; name = name })
view_step m (removes start) ok = erase m (m start)

-- The contract of a back end.
pub record Lawful {S : Type 0} (b : Backend S) : Type 1 where
  pub Valid : S → Type 0
  pub init_valid : (s : S) → Valid (b.init s)
  pub init_empty : (s : S) (addr : ℕ) → b.find (b.init s) addr ≡ none
  pub add_valid :
      (s : S) (start end flags name : ℕ) → Valid s → Valid (b.add s start end flags name).0
  pub add_view :
      (s : S) (start end flags name addr : ℕ)
      → Valid s
      → b.find (b.add s start end flags name).0 addr
        ≡ view_step (b.find s) (adds start end flags name) (b.add s start end flags name).1 addr
  pub remove_valid : (s : S) (start : ℕ) → Valid s → Valid (b.remove s start).0
  pub remove_view :
      (s : S) (start addr : ℕ)
      → Valid s
      → b.find (b.remove s start).0 addr
        ≡ view_step (b.find s) (removes start) (b.remove s start).1 addr

-- `sa_ops`; 1 stands for the pointer to its name.
unfoldable pub sa_ops : Backend SortedArray.State
sa_ops = record {
  name = 1;
  init = SortedArray.init;
  add = SortedArray.add;
  remove = SortedArray.remove;
  find = SortedArray.find;
  count = SortedArray.count;
}

sa_remove_view :
    (s : SortedArray.State) (start addr : ℕ)
    → IsValid s
    → SortedArray.find (SortedArray.remove s start).0 addr
      ≡ view_step (SortedArray.find s) (removes start) (SortedArray.remove s start).1 addr
sa_remove_view s start addr v = elim (status_cases (SortedArray.remove s start).1) [
  | inr e ↦ rw (e, remove_failed s start v e)
  | inl e ↦
      let (i, p, q) = (remove-ok_iff s start v).0 e in
      let w = v.areas_IsArea i p in
      let here : SortedArray.find s start ≡ some (s.areas i) =
        (find_iff s start (s.areas i) v).1
          (i, p, refl, record { from = omega arith; below = omega (arith, w.nonempty) }) in
      rw (e, find-remove s start v i addr p q, here)
]

sa_add_view :
    (s : SortedArray.State) (start end flags name addr : ℕ)
    → IsValid s
    → SortedArray.find (SortedArray.add s start end flags name).0 addr
      ≡ view_step
          (SortedArray.find s)
          (adds start end flags name)
          (SortedArray.add s start end flags name).1
          addr
sa_add_view s start end flags name addr v =
    elim (status_cases (SortedArray.add s start end flags name).1) [
      | inr e ↦ rw (e, add_failed s start end flags name e)
      | inl e ↦ rw (e, find-add s start end flags name addr v e)
    ]

-- The sorted array meets the contract of a back end.
pub sa_ops-Lawful : Lawful sa_ops
unfolding sa_ops
sa_ops-Lawful = record {
  Valid = IsValid;
  init_valid = init-IsValid;
  init_empty = find-init;
  add_valid = add-IsValid;
  add_view = sa_add_view;
  remove_valid = λ s start v. remove-IsValid s start v;
  remove_view = sa_remove_view;
}

-- The view after a sequence of calls that returned the statuses `rs`.
abbrev pub view_run : AddressMap → List Call → List Status → AddressMap
view_run m [] rs = m
view_run m (c ∷ cs) [] = m
view_run m (c ∷ cs) (r ∷ rs) = view_run (view_step m c r) cs rs

-- The dispatch layer with an initialised back end.
abbrev pub running : {S : Type 0} → Backend S → S → Vma S
running b s = record { ops = some b; ready = true; store = s }

module _ {S : Type 0} {b : Backend S} (l : Lawful b) where
  -- The back end's data after the calls.
  store_after : S → List Call → S
  store_after s [] = s
  store_after s (adds start end flags name ∷ cs) = store_after (b.add s start end flags name).0 cs
  store_after s (removes start ∷ cs) = store_after (b.remove s start).0 cs

  run-running : (s : S) (cs : List Call) → (run (running b s) cs).0 ≡ running b (store_after s cs)
  unfolding run call add remove active store_after
  run-running s [] = refl
  run-running s (adds start end flags name ∷ cs) = run-running (b.add s start end flags name).0 cs
  run-running s (removes start ∷ cs) = run-running (b.remove s start).0 cs

  run_view :
      (s : S) (cs : List Call)
      → l.Valid s
      → b.find (store_after s cs) ≡ view_run (b.find s) cs (run (running b s) cs).1
  unfolding run call add remove active store_after
  run_view s [] v = refl
  run_view s (adds start end flags name ∷ cs) v =
      rw (← fun_ext (λ addr. l.add_view s start end flags name addr v))
        (run_view (b.add s start end flags name).0 cs (l.add_valid s start end flags name v))
  run_view s (removes start ∷ cs) v =
      rw (← fun_ext (λ addr. l.remove_view s start addr v))
        (run_view (b.remove s start).0 cs (l.remove_valid s start v))

  -- Once a lawful back end is registered and initialised, `vma_find` answers after any sequence of
  -- `vma_add` and `vma_remove` by the address map that the successful calls draw: an addition maps
  -- its range to the new area, a removal clears the range of the area at its address, and a failed
  -- call changes nothing.
  pub run_refines :
      (v : Vma S) (cs : List Call) (addr : ℕ)
      → let started = init (register v (some b)) in
        find (run started cs).0 addr ≡ view_run (λ _. none) cs (run started cs).1 addr
  unfolding init register
  run_refines v cs addr =
      let s = b.init v.store in
      let e : b.find s ≡ (λ _. none) = fun_ext (l.init_empty v.store) in
      rw (← e, run-running s cs, ← run_view s cs (l.init_valid v.store))
        (find_running (store_after s cs) addr)
    where
      find_running : (s : S) (a : ℕ) → find (running b s) a ≡ b.find s a
      find_running s a = unfold find active in refl

module _ {S : Type 0} (v : Vma S) (off : (v.ready ≡ false) ⊎ (v.ops ≡ none)) where
  active-none : active v ≡ none
  unfolding active
  active-none = ground arith

  -- Before `vma_init`, or with no back end, the calls fail or return nothing, and change nothing.
  pub inactive_calls : (c : Call) (addr : ℕ) → (call v c ≡ (v, fail)) × (find v addr ≡ none)
  unfolding call add remove find
  inactive_calls (adds start end flags name) addr = (rw (active-none, add), rw (active-none, find))
  inactive_calls (removes start) addr = (rw (active-none, remove), rw (active-none, find))
