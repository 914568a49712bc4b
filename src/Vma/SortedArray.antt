-- ===== src/Vma/SortedArray.antt =====
-- src/kernel/mm/vma_sorted_array.c: a static array of areas in ascending order of their starts,
-- and a count of those in use. The messages that the code prints are left out.
pub mod Search
pub mod Lookup
pub mod Insert
pub mod Delete
mod Tests
use my_microkernel.Prelude.{
  ℕ, zero, suc, ◌+◌, ◌-◌, ◌/◌, Bool, true, false, not, ◌&&◌, ◌||◌, Option, none, some, ltb, leb,
  ◌==◌, if◌then◌else◌, Status, ok, fail, update, bit_and,
}
use my_microkernel.Vma.Area.{VmArea}

-- `VMA_MAX_AREAS`
abbrev pub max_areas : ℕ
max_areas = 256

-- `g_areas` and `g_count`.
pub record State : Type 0 where
  pub areas : ℕ → VmArea
  pub count : ℕ

-- The loop of `sa_lower_bound`. Each round shrinks `right - left`, so as many rounds are enough.
pub lower_loop : (ℕ → VmArea) → ℕ → ℕ → ℕ → ℕ → ℕ
lower_loop areas target zero left right = left
lower_loop areas target (suc fuel) left right =
    let mid = left + (right - left) / 2 in
    let upper = lower_loop areas target fuel (mid + 1) right in
    let lower = lower_loop areas target fuel left mid in
    if ltb left right then (if ltb (areas mid).start target then upper else lower) else left

-- The first index whose start is not below `target`.
pub lower_bound : State → ℕ → ℕ
lower_bound s target = lower_loop s.areas target s.count 0 s.count

pub upper_loop : (ℕ → VmArea) → ℕ → ℕ → ℕ → ℕ → ℕ
upper_loop areas target zero left right = left
upper_loop areas target (suc fuel) left right =
    let mid = left + (right - left) / 2 in
    let upper = upper_loop areas target fuel (mid + 1) right in
    let lower = upper_loop areas target fuel left mid in
    if ltb left right then (if leb (areas mid).start target then upper else lower) else left

-- The first index whose start is above `target`.
pub upper_bound : State → ℕ → ℕ
upper_bound s target = upper_loop s.areas target s.count 0 s.count

abbrev pub no_area : VmArea
no_area = record { start = 0; end = 0; flags = 0; name = 0 }

clear_areas : ℕ → ℕ → (ℕ → VmArea) → ℕ → VmArea
clear_areas zero i areas = areas
clear_areas (suc left) i areas = clear_areas left (i + 1) (update areas i no_area)

-- `sa_init`
pub init : State → State
unfolding clear_areas
init s = record { areas = clear_areas max_areas 0 s.areas; count = 0 }

-- The loop over the registered areas: does [start, end) meet one of the `n` from index `i` on?
pub overlaps : (ℕ → VmArea) → ℕ → ℕ → ℕ → ℕ → Bool
overlaps areas start end zero i = false
overlaps areas start end (suc n) i =
    ltb start (areas i).end && ltb (areas i).start end || overlaps areas start end n (i + 1)

-- `for (i = g_count; i > pos; i--) g_areas[i] = g_areas[i - 1]`, with `n` rounds left.
pub shift_up : (ℕ → VmArea) → ℕ → ℕ → ℕ → VmArea
shift_up areas i zero = areas
shift_up areas i (suc n) = shift_up (update areas i (areas (i - 1))) (i - 1) n

-- `for (i = pos; i < g_count - 1; i++) g_areas[i] = g_areas[i + 1]`, with `n` rounds left.
pub shift_down : (ℕ → VmArea) → ℕ → ℕ → ℕ → VmArea
shift_down areas i zero = areas
shift_down areas i (suc n) = shift_down (update areas i (areas (i + 1))) (i + 1) n

-- `addr & 0xFFF` is not zero.
pub unaligned : ℕ → Bool
unaligned addr = not (bit_and addr 0xfff == 0)

-- The four stores and the count at the end of `sa_add`.
pub insert_at : State → ℕ → VmArea → State
insert_at s pos a = record {
  areas = update (shift_up s.areas s.count (s.count - pos)) pos a;
  count = s.count + 1;
}

-- `sa_add`
pub add : State → (start end flags name : ℕ) → State × Status
add s start end flags name =
    if leb max_areas s.count
    then (s, fail)
    else if leb end start
    then (s, fail)
    else if unaligned start || unaligned end
    then (s, fail)
    else if overlaps s.areas start end s.count 0
    then (s, fail)
    else (
      insert_at s (lower_bound s start)
          (record { start = start; end = end; flags = flags; name = name }),
      ok,
    )

pub delete_at : State → ℕ → State
delete_at s pos = record { areas = shift_down s.areas pos (s.count - 1 - pos); count = s.count - 1 }

-- `sa_remove`
pub remove : State → ℕ → State × Status
remove s start =
    let pos = lower_bound s start in
    if pos == s.count || not ((s.areas pos).start == start)
    then (s, fail)
    else (delete_at s pos, ok)

-- `sa_find`
pub find : State → ℕ → Option VmArea
find s addr =
    let idx = upper_bound s addr in
    if s.count == 0
    then none
    else if idx == 0
    then none
    else let candidate = s.areas (idx - 1) in
      if ltb addr candidate.end then some candidate else none

-- `sa_count`
pub count : State → ℕ
count s = s.count
