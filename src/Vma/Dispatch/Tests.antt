-- ===== src/Vma/Dispatch/Tests.antt =====
-- The dispatch layer with the sorted array behind it.
use my_microkernel.Prelude.{◌≡◌, false, none, some, List, [], ◌∷◌}
use my_microkernel.Vma.SortedArray.{State, no_area}
use my_microkernel.Vma.Dispatch.{Vma, register, init, find, Call, adds, removes, run}
use my_microkernel.Vma.Dispatch.Refine.{sa_ops, sa_ops-Lawful, view_run, run_refines}

abbrev booted : Vma State
booted = record { ops = none; ready = false; store = record { areas = λ i. no_area; count = 0 } }

abbrev calls : List Call
calls = adds 4096 8192 3 0 ∷ adds 0 4096 1 0 ∷ adds 4096 12288 1 0 ∷ removes 4096 ∷ []

run_refines_example :
    let started = init (register booted (some sa_ops)) in
    find (run started calls).0 4100 ≡ view_run (λ _. none) calls (run started calls).1 4100
run_refines_example = run_refines sa_ops-Lawful booted calls 4100
