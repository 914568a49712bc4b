-- ===== src/Vma/SortedArray/Lookup.antt =====
-- `sa_find` against the areas in use.
use my_microkernel.Prelude.{
  ℕ, suc, ◌+◌, ◌-◌, ◌≤◌, ◌<◌, ◌≡◌, refl, ◌∙◌, arith, none, some, inl, inr, ◌⊎◌, dec_lt, ℕ_discrete,
  zero, ◌↔◌, dec_le,
}
use my_microkernel.Vma.Area.{VmArea, Covers}
use my_microkernel.Vma.SortedArray.{State, init, upper_bound, find}
use my_microkernel.Vma.SortedArray.Search.{IsValid, Splits, upper_bound-Splits}

pub find-init : (s : State) (addr : ℕ) → find (init s) addr ≡ none
unfolding find init
find-init s addr = refl

-- No area in use covers the address.
abbrev pub Uncovered : State → ℕ → Type 0
Uncovered s addr = (i : ℕ) → i < s.count → ¬ (Covers (s.areas i) addr)

-- An address lies in at most one area.
pub Covers-unique :
    {s : State}
    → IsValid s
    → (i j addr : ℕ) → i < s.count
    → j < s.count
    → Covers (s.areas i) addr
    → Covers (s.areas j) addr
    → i ≡ j
Covers-unique {s} v i j addr p q c d = elim (dec_lt i j) [
  | yes h ↦ absurd (omega (arith, v.ordered i j h q))
  | no h ↦ elim (dec_lt j i) [
    | yes k ↦ absurd (omega (arith, v.ordered j i k p))
    | no k ↦ omega arith
  ]
]

module _ {s : State} (v : IsValid s) (addr : ℕ) where
  -- The area below the upper bound is the only one that can cover the address.
  candidate : (i : ℕ) → i < s.count → Covers (s.areas i) addr → suc i ≡ upper_bound s addr
  candidate i p c = elim (dec_lt i r) [
    | no h ↦ absurd (omega (arith, sp.after i (omega arith) p))
    | yes h ↦ elim (ℕ_discrete (suc i) r) [
      | yes e ↦ e
      | no ne ↦ absurd (
          omega (
            arith,
            sp.within,
            sp.before (r - 1) (omega arith),
            v.ordered i (r - 1) (omega arith) (omega (arith, sp.within)),
          ))
    ]
  ]
    where
      r : ℕ
      r = upper_bound s addr

      sp : Splits s.areas s.count (addr + 1) r
      sp = upper_bound-Splits s addr v

  -- `sa_find` returns the area that covers the address.
  pub find_covered :
      (i : ℕ) → i < s.count → Covers (s.areas i) addr → find s addr ≡ some (s.areas i)
  unfolding find
  find_covered i p c = rw (← candidate i p c) (ground (arith, c.below))

  -- It returns NULL if there is none.
  pub find-Uncovered : Uncovered s addr → find s addr ≡ none
  unfolding find
  find-Uncovered u =
      let sp = upper_bound-Splits s addr v in
      let r = upper_bound s addr in
      ground (arith, sp.within, sp.before (r - 1), u (r - 1), outside (r - 1))
    where
      outside : (i : ℕ) → i < s.count → (s.areas i).start ≤ addr → (s.areas i).end ≤ addr
      outside i p q = elim (dec_lt addr (s.areas i).end) [
        | yes h ↦ absurd (u i p (record { from = q; below = h }))
        | no h ↦ omega arith
      ]

-- Whether some area in use covers the address.
pub covered? :
    (s : State) (addr n : ℕ)
    → ((i : ℕ) × (i < n) × Covers (s.areas i) addr)
      ⊎ ((i : ℕ) → i < n → ¬ (Covers (s.areas i) addr))
covered? s addr zero = inr (λ i p. absurd (omega arith))
covered? s addr (suc n) = elim (covered? s addr n) [
  | inl (i, p, c) ↦ inl (i, omega arith, c)
  | inr out ↦ elim (dec_lt addr (s.areas n).end) [
    | no h ↦ inr (λ i p c. elim (ℕ_discrete i n) [
      | yes e ↦ absurd (omega (arith, rw e at c))
      | no ne ↦ out i (omega arith) c
    ])
    | yes h ↦ elim (dec_le (s.areas n).start addr) [
      | yes k ↦ inl (n, omega arith, record { from = k; below = h })
      | no k ↦ inr (λ i p c. elim (ℕ_discrete i n) [
        | yes e ↦ absurd (omega (arith, rw e at c))
        | no ne ↦ out i (omega arith) c
      ])
    ]
  ]
]

-- On a valid array `sa_find` is exactly the search for the area that covers the address: what it
-- returns is one in use that covers it, and it returns NULL only if none does.
pub find_iff :
    (s : State) (addr : ℕ) (a : VmArea)
    → IsValid s
    → (find s addr ≡ some a) ↔ ((i : ℕ) × (i < s.count) × (s.areas i ≡ a) × Covers a addr)
find_iff s addr a v = (found, λ (i, p, e, c). find_covered v addr i p (rw e c) ∙ rw e)
  where
    found : find s addr ≡ some a → (i : ℕ) × (i < s.count) × (s.areas i ≡ a) × Covers a addr
    found h = elim (covered? s addr s.count) [
      | inl (i, p, c) ↦
          let e : s.areas i ≡ a = cc (find_covered v addr i p c) in (i, p, e, rw (← e) c)
      | inr out ↦ absurd (cc (find-Uncovered v addr out))
    ]
