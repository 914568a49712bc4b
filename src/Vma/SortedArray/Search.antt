-- ===== src/Vma/SortedArray/Search.antt =====
-- The two binary searches of vma_sorted_array.c, and the invariant of the array.
use my_microkernel.Prelude.{
  ℕ, zero, suc, ◌+◌, ◌-◌, ◌≤◌, ◌<◌, ◌≡◌, refl, arith, lt→ltb, ge→ltb, dec_lt, ℕ_discrete, ◌/◌,
}
use my_microkernel.Vma.Area.{VmArea, IsArea}
use my_microkernel.Vma.SortedArray.{
  State, max_areas, init, lower_loop, lower_bound, upper_loop, upper_bound,
}

-- The areas in use are well formed, ascending and disjoint, and fit the array.
pub record IsValid (s : State) : Type 0 where
  pub fits : s.count ≤ max_areas
  pub ordered : (i j : ℕ) → i < j → j < s.count → (s.areas i).end ≤ (s.areas j).start
  pub areas_IsArea : (i : ℕ) → i < s.count → IsArea (s.areas i)

-- `sa_init` leaves no area in use.
pub init-IsValid : (s : State) → IsValid (init s)
unfolding init
init-IsValid s = record {
  fits = omega arith;
  ordered = λ i j p q. absurd (omega arith);
  areas_IsArea = λ i p. absurd (omega arith);
}

-- `r` splits the indices below `n`: those below `r` start before `target`, the others do not.
pub record Splits (areas : ℕ → VmArea) (n target r : ℕ) : Type 0 where
  pub within : r ≤ n
  pub before : (i : ℕ) → i < r → (areas i).start < target
  pub after : (i : ℕ) → r ≤ i → i < n → target ≤ (areas i).start

module _ {s : State} (v : IsValid s) where
  pub starts_le : (i j : ℕ) → i ≤ j → j < s.count → (s.areas i).start ≤ (s.areas j).start
  starts_le i j p q = elim (ℕ_discrete i j) [
    | yes e ↦ rw e (omega arith)
    | no ne ↦
        omega (arith, v.ordered i j (omega arith) q, (v.areas_IsArea i (omega arith)).nonempty)
  ]

-- The loop returns the split point whenever the fuel is at least the length of the range.
lower_loop-Splits :
    (s : State) (target fuel left right : ℕ)
    → IsValid s
    → right - left ≤ fuel
    → left ≤ right
    → right ≤ s.count
    → ((i : ℕ) → i < left → (s.areas i).start < target)
    → ((i : ℕ) → right ≤ i → i < s.count → target ≤ (s.areas i).start)
    → Splits s.areas s.count target (lower_loop s.areas target fuel left right)
unfolding lower_loop
lower_loop-Splits s target zero left right v f p q before after = record {
  within = omega arith;
  before = before;
  after = λ i h. after i (omega arith);
}
lower_loop-Splits s target (suc fuel) left right v f p q before after = elim (dec_lt left right) [
  | no done ↦
      rw (ge→ltb left right (omega arith))
        (record { within = omega arith; before = before; after = λ i h. after i (omega arith) })
  | yes more ↦ rw (lt→ltb left right more) (elim (dec_lt (s.areas mid).start target) [
    | yes below ↦ rw (lt→ltb (s.areas mid).start target below) (
        lower_loop-Splits s target fuel (mid + 1) right v (omega arith) (omega arith) q
          (λ i h. omega (arith, starts_le v i mid (omega arith) (omega arith))) after)
    | no above ↦ rw (ge→ltb (s.areas mid).start target (omega arith)) (
        lower_loop-Splits s target fuel left mid v (omega arith) (omega arith) (omega arith) before
          (λ i h k. omega (arith, starts_le v mid i h k)))
  ])
]
  where
    mid : ℕ
    mid = left + (right - left) / 2

-- On a valid array, `sa_lower_bound` returns the index that splits the areas in use at `target`:
-- those below the index start before it, the others do not.
pub lower_bound-Splits :
    (s : State) (target : ℕ) → IsValid s → Splits s.areas s.count target (lower_bound s target)
unfolding lower_bound
lower_bound-Splits s target v =
    lower_loop-Splits s target s.count 0 s.count v (omega arith) (omega arith) (omega arith)
      (λ i h. absurd (omega arith)) (λ i h k. absurd (omega arith))

-- The other search differs only by `<=` in place of `<`.
upper_loop-lower_loop :
    (areas : ℕ → VmArea) (target fuel left right : ℕ)
    → upper_loop areas target fuel left right ≡ lower_loop areas (target + 1) fuel left right
unfolding upper_loop lower_loop
upper_loop-lower_loop areas target zero left right = refl
upper_loop-lower_loop areas target (suc fuel) left right =
    let mid = left + (right - left) / 2 in
    ground (
      arith,
      upper_loop-lower_loop areas target fuel (mid + 1) right,
      upper_loop-lower_loop areas target fuel left mid,
    )

-- On a valid array, `sa_upper_bound` returns the index that splits the areas in use just above
-- `target`: those below the index start at or before it, the others after it.
pub upper_bound-Splits :
    (s : State) (target : ℕ)
    → IsValid s
    → Splits s.areas s.count (target + 1) (upper_bound s target)
unfolding upper_bound
upper_bound-Splits s target v =
    rw (upper_loop-lower_loop s.areas target s.count 0 s.count)
      (unfold lower_bound in lower_bound-Splits s (target + 1) v)

-- There is only one split point.
pub Splits-unique :
    {areas : ℕ → VmArea} {n target q r : ℕ}
    → Splits areas n target q
    → Splits areas n target r
    → q ≡ r
Splits-unique a b = grind arith
