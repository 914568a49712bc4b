-- ===== src/Vma/SortedArray/Delete.antt =====
-- `sa_remove`: when it succeeds, what it keeps, and what `sa_find` returns afterwards.
use my_microkernel.Prelude.{
  ℕ, zero, suc, ◌+◌, ◌-◌, ◌≤◌, ◌<◌, ◌≡◌, refl, arith, ◌&&◌, none, inl, inr, ◌↔◌, dec_lt, ℕ_discrete,
  ltb, leb, if◌then◌else◌, ok, fail, update, status_cases,
}
use my_microkernel.Vma.Area.{VmArea, Covers}
use my_microkernel.Vma.SortedArray.{State, lower_bound, find, shift_down, delete_at, remove}
use my_microkernel.Vma.SortedArray.Search.{IsValid, Splits, lower_bound-Splits}
use my_microkernel.Vma.SortedArray.Lookup.{find_covered, find-Uncovered, covered?, Covers-unique}

shift_down_lem :
    (areas : ℕ → VmArea) (i n j : ℕ)
    → shift_down areas i n j ≡ (if leb i j && ltb j (i + n) then areas (j + 1) else areas j)
unfolding shift_down
shift_down_lem areas i zero j = ground arith
shift_down_lem areas i (suc n) j =
    ground (arith, shift_down_lem (update areas i (areas (i + 1))) (i + 1) n j)

module _ {s : State} {pos : ℕ} (v : IsValid s) (inside : pos < s.count) where
  size : (delete_at s pos).count ≡ s.count - 1
  unfolding delete_at
  size = refl

  kept_below : (i : ℕ) → i < pos → (delete_at s pos).areas i ≡ s.areas i
  unfolding delete_at
  kept_below i h = ground (arith, shift_down_lem s.areas pos (s.count - 1 - pos) i)

  kept_above : (i : ℕ) → pos ≤ i → i < s.count - 1 → (delete_at s pos).areas i ≡ s.areas (i + 1)
  unfolding delete_at
  kept_above i h k = ground (arith, shift_down_lem s.areas pos (s.count - 1 - pos) i)

  -- The old index of what stands at `i` now.
  origin : ℕ → ℕ
  origin i = if ltb i pos then i else i + 1

  kept : (i : ℕ) → i < s.count - 1 → (delete_at s pos).areas i ≡ s.areas (origin i)
  unfolding origin
  kept i h = ground (arith, kept_below i, kept_above i)

  delete_at-IsValid : IsValid (delete_at s pos)
  unfolding origin
  delete_at-IsValid = record {
    fits = omega (arith, size, v.fits);
    ordered = λ i j p q.
        rw (kept i (omega (arith, size)), kept j (omega (arith, size)))
          (v.ordered (origin i) (origin j) (ground arith) (ground (arith, size)));
    areas_IsArea =
        λ i p. rw (kept i (omega (arith, size))) (v.areas_IsArea (origin i) (ground (arith, size)));
  }

  find-delete_at_gone : (addr : ℕ) → Covers (s.areas pos) addr → find (delete_at s pos) addr ≡ none
  unfolding origin
  find-delete_at_gone addr c = find-Uncovered delete_at-IsValid addr (λ i p d.
      let q : i < s.count - 1 = omega (arith, size) in
      let e = Covers-unique v (origin i) pos addr (ground arith) inside (rw (kept i q) at d) c in
      ground (arith, e))

  find-delete_at_kept :
      (addr : ℕ) → ¬ (Covers (s.areas pos) addr) → find (delete_at s pos) addr ≡ find s addr
  unfolding origin
  find-delete_at_kept addr out = elim (covered? s addr s.count) [
    | inl (i, p, c) ↦ elim (dec_lt i pos) [
      | yes h ↦ cc (
        find_covered delete_at-IsValid addr i (omega (arith, size)) (rw (kept_below i h) c),
        kept_below i h,
        find_covered v addr i p c,
      )
      | no h ↦ elim (ℕ_discrete i pos) [
        | yes e ↦ absurd (out (rw e at c))
        | no ne ↦
            let k : i - 1 + 1 ≡ i = omega arith in
            let m = kept_above (i - 1) (omega arith) (omega arith) in
            let m' : (delete_at s pos).areas (i - 1) ≡ s.areas i = rw k at m in
            cc (
              find_covered delete_at-IsValid addr (i - 1) (omega (arith, size)) (rw m' c),
              m',
              find_covered v addr i p c,
            )
      ]
    ]
    | inr clear ↦ cc (
      find-Uncovered delete_at-IsValid addr (λ i p d.
          let q : i < s.count - 1 = omega (arith, size) in
          clear (origin i) (ground arith) (rw (kept i q) at d)),
      find-Uncovered v addr clear,
    )
  ]

module _ (s : State) (start : ℕ) (v : IsValid s) where
  -- The index of the area that starts at `start`.
  lower_bound-found : (i : ℕ) → i < s.count → (s.areas i).start ≡ start → lower_bound s start ≡ i
  lower_bound-found i p e = ground (
    arith,
    sp.before i,
    sp.within,
    sp.after (lower_bound s start),
    v.ordered (lower_bound s start) i,
    v.areas_IsArea (lower_bound s start),
  )
    where
      sp : Splits s.areas s.count start (lower_bound s start)
      sp = lower_bound-Splits s start v

  remove_found :
      (i : ℕ) → i < s.count → (s.areas i).start ≡ start → remove s start ≡ (delete_at s i, ok)
  unfolding remove
  remove_found i p e = rw (lower_bound-found i p e) (ground arith)

  -- On a valid array, `sa_remove` succeeds exactly if an area in use starts at the address.
  pub remove-ok_iff :
      ((remove s start).1 ≡ ok) ↔ ((i : ℕ) × (i < s.count) × ((s.areas i).start ≡ start))
  remove-ok_iff = (
    unfold remove in
        λ h. (
          lower_bound s start,
          ground (arith, (lower_bound-Splits s start v).within),
          ground arith,
        ),
    λ (i, p, e). rw (remove_found i p e),
  )

  -- When it fails it changes nothing.
  pub remove_failed : (remove s start).1 ≡ fail → (remove s start).0 ≡ s
  unfolding remove
  remove_failed h = ground arith

  -- `sa_remove` keeps a valid array sorted, disjoint and within its bounds.
  pub remove-IsValid : IsValid (remove s start).0
  remove-IsValid = elim (status_cases (remove s start).1) [
    | inl e ↦ let (i, p, q) = remove-ok_iff.0 e in rw (remove_found i p q) (delete_at-IsValid v p)
    | inr e ↦ rw (remove_failed e) v
  ]

  -- On a valid array, removing the area in use that starts at `start` makes `sa_find` return NULL at the addresses that it
  -- covered and changes no other answer.
  pub find-remove :
      (i addr : ℕ)
      → i < s.count
      → (s.areas i).start ≡ start
      → find (remove s start).0 addr
        ≡ (if leb (s.areas i).start addr && ltb addr (s.areas i).end then none else find s addr)
  find-remove i addr p e = rw (remove_found i p e) (
      ground (
        arith,
        λ (c : Covers (s.areas i) addr). find-delete_at_gone v p addr c,
        λ (c : ¬ (Covers (s.areas i) addr)). find-delete_at_kept v p addr c,
      ))
