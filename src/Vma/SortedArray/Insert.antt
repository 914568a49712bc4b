-- ===== src/Vma/SortedArray/Insert.antt =====
-- `sa_add`: when it succeeds, what it keeps, and what `sa_find` returns afterwards.
use my_microkernel.Prelude.{
  ℕ, zero, suc, ◌+◌, ◌-◌, ◌%◌, ◌≤◌, ◌<◌, ◌≡◌, refl, ◌∙◌, arith, false, ◌&&◌, some, inl, inr, ◌⊎◌,
  ◌↔◌, dec_lt, ℕ_discrete, ltb, leb, ◌==◌, if◌then◌else◌, ok, fail, update, status_cases,
  and-low_mask, page_size,
}
use my_microkernel.Vma.Area.{VmArea, Covers, IsArea}
use my_microkernel.Vma.SortedArray.{
  State, max_areas, lower_bound, find, shift_up, insert_at, overlaps, unaligned, add,
}
use my_microkernel.Vma.SortedArray.Search.{IsValid, Splits, lower_bound-Splits}
use my_microkernel.Vma.SortedArray.Lookup.{find_covered, find-Uncovered, covered?}

shift_up_lem :
    (areas : ℕ → VmArea) (i n j : ℕ)
    → n ≤ i
    → shift_up areas i n j ≡ (if ltb (i - n) j && leb j i then areas (j - 1) else areas j)
unfolding shift_up
shift_up_lem areas i zero j h = ground arith
shift_up_lem areas i (suc n) j h =
    ground (arith, shift_up_lem (update areas i (areas (i - 1))) (i - 1) n j)

-- The array after an insertion, index by index.
insert_at-areas :
    (s : State) (pos : ℕ) (a : VmArea) (j : ℕ)
    → pos ≤ s.count
    → (insert_at s pos a).areas j
      ≡ (if pos == j then a else if ltb pos j && leb j s.count then s.areas (j - 1) else s.areas j)
unfolding insert_at
insert_at-areas s pos a j h = ground (arith, shift_up_lem s.areas s.count (s.count - pos) j)

-- The range [start, end) meets no area in use.
abbrev pub Disjoint : State → ℕ → ℕ → Type 0
Disjoint s start end = (i : ℕ) → i < s.count → (end ≤ (s.areas i).start) ⊎ ((s.areas i).end ≤ start)

module _ {s : State} {a : VmArea} {pos : ℕ} (v : IsValid s) (wf : IsArea a)
    (room : s.count < max_areas) (sp : Splits s.areas s.count a.start pos)
    (apart : Disjoint s a.start a.end) where
  before : (i : ℕ) → i < pos → (s.areas i).end ≤ a.start
  before i h = ground (
    arith,
    sp.before i,
    sp.within,
    apart i,
    wf.nonempty,
    v.areas_IsArea i (omega (arith, sp.within)),
  )

  after : (i : ℕ) → pos ≤ i → i < s.count → a.end ≤ (s.areas i).start
  after i h p = ground (arith, sp.after i, apart i, v.areas_IsArea i p)

  moved :
      (j : ℕ)
      → (insert_at s pos a).areas j ≡ (
          if pos == j then a else if ltb pos j && leb j s.count then s.areas (j - 1) else s.areas j)
  moved j = insert_at-areas s pos a j sp.within

  size : (insert_at s pos a).count ≡ s.count + 1
  unfolding insert_at
  size = refl

  moved-ordered :
      (i j : ℕ)
      → i < j
      → j < s.count + 1
      → ((insert_at s pos a).areas i).end ≤ ((insert_at s pos a).areas j).start
  moved-ordered i j p q =
      rw (moved i, moved j)
        (ground (
          arith,
          sp.within,
          before i,
          after (j - 1),
          v.ordered i j,
          v.ordered (i - 1) (j - 1),
          v.ordered i (j - 1),
        ))

  moved-IsArea : (i : ℕ) → i < s.count + 1 → IsArea ((insert_at s pos a).areas i)
  moved-IsArea i p = rw (moved i) (elim (ℕ_discrete pos i) [
    | yes e ↦ rw e (ground (arith, wf))
    | no ne ↦ elim (dec_lt pos i) [
      | yes h ↦ ground (arith, v.areas_IsArea (i - 1))
      | no h ↦ ground (arith, sp.within, v.areas_IsArea i)
    ]
  ])

  pub insert_at-IsValid : IsValid (insert_at s pos a)
  insert_at-IsValid = record {
    fits = omega (arith, size);
    ordered = λ i j p q. moved-ordered i j p (omega (arith, size));
    areas_IsArea = λ i p. moved-IsArea i (omega (arith, size));
  }

  -- Where the areas in use have gone.
  moved_below : (i : ℕ) → i < pos → (insert_at s pos a).areas i ≡ s.areas i
  moved_below i h = rw (moved i) (ground arith)

  moved_self : (insert_at s pos a).areas pos ≡ a
  moved_self = rw (moved pos) (ground arith)

  moved_above : (i : ℕ) → pos ≤ i → i < s.count → (insert_at s pos a).areas (i + 1) ≡ s.areas i
  moved_above i h k = rw (moved (i + 1)) (ground arith)

  pub find-insert_at_new : (addr : ℕ) → Covers a addr → find (insert_at s pos a) addr ≡ some a
  find-insert_at_new addr c =
      find_covered insert_at-IsValid addr pos (omega (arith, size, sp.within)) (rw moved_self c)
      ∙ rw moved_self

  pub find-insert_at_old :
      (addr : ℕ) → ¬ (Covers a addr) → find (insert_at s pos a) addr ≡ find s addr
  find-insert_at_old addr out = elim (covered? s addr s.count) [
    | inl (i, p, c) ↦ elim (dec_lt i pos) [
      | yes h ↦ cc (
        find_covered insert_at-IsValid addr i (omega (arith, size)) (rw (moved_below i h) c),
        moved_below i h,
        find_covered v addr i p c,
      )
      | no h ↦
          let k : pos ≤ i = omega arith in
          cc (
            find_covered insert_at-IsValid addr (i + 1) (omega (arith, size))
                (rw (moved_above i k p) c),
            moved_above i k p,
            find_covered v addr i p c,
          )
    ]
    | inr clear ↦ cc (
      find-Uncovered insert_at-IsValid addr (λ i p c. elim (dec_lt i pos) [
        | yes h ↦ clear i (omega (arith, sp.within)) (rw (moved_below i h) at c)
        | no h ↦ elim (ℕ_discrete i pos) [
          | yes e ↦ out (rw (e, moved_self) at c)
          | no ne ↦
              let e : i - 1 + 1 ≡ i = omega arith in
              clear (i - 1) (omega (arith, size))
                (rw (moved_above (i - 1) (omega arith) (omega (arith, size))) at (rw (← e) at c))
        ]
      ]),
      find-Uncovered v addr clear,
    )
  ]

overlaps-false :
    (areas : ℕ → VmArea) (start end n i k : ℕ)
    → overlaps areas start end n i ≡ false
    → i ≤ k
    → k < i + n
    → (end ≤ (areas k).start) ⊎ ((areas k).end ≤ start)
unfolding overlaps
overlaps-false areas start end zero i k h p q = absurd (omega arith)
overlaps-false areas start end (suc n) i k h p q = elim (ℕ_discrete i k) [
  | yes e ↦ rw (← e) (ground arith)
  | no ne ↦ ground (arith, overlaps-false areas start end n (i + 1) k)
]

overlaps-true :
    (areas : ℕ → VmArea) (start end n i : ℕ)
    → ((k : ℕ) → i ≤ k → k < i + n → (end ≤ (areas k).start) ⊎ ((areas k).end ≤ start))
    → overlaps areas start end n i ≡ false
unfolding overlaps
overlaps-true areas start end zero i h = refl
overlaps-true areas start end (suc n) i h =
    let rest = overlaps-true areas start end n (i + 1) (λ k p q. h k (omega arith) (omega arith)) in
    ground (arith, h i, rest)

unaligned_iff : (a : ℕ) → (unaligned a ≡ false) ↔ (a % page_size ≡ 0)
unfolding unaligned
unaligned_iff a = ground (arith, and-low_mask 12 a)

module _ (s : State) (start end flags name : ℕ) where
  abbrev pub new_area : VmArea
  new_area = record { start = start; end = end; flags = flags; name = name }

  -- What `sa_add` asks of its arguments.
  pub record Accepts : Type 0 where
    pub room : s.count < max_areas
    pub wf : IsArea new_area
    pub apart : Disjoint s start end

  -- `sa_add` fails and leaves the array alone unless its arguments are acceptable; then it inserts
  -- the new area at the lower bound of its start.
  add_accepted :
      Accepts → add s start end flags name ≡ (insert_at s (lower_bound s start) new_area, ok)
  unfolding add
  add_accepted r = ground (
    arith,
    r.room,
    r.wf,
    unaligned_iff start,
    unaligned_iff end,
    overlaps-true s.areas start end s.count 0 (λ k p q. r.apart k (omega arith)),
  )

  add_ok : (add s start end flags name).1 ≡ ok → Accepts
  unfolding add
  add_ok h = record {
    room = ground arith;
    wf = record {
      nonempty = ground arith;
      start_aligned = ground (arith, unaligned_iff start);
      end_aligned = ground (arith, unaligned_iff end);
    };
    apart = λ i p. ground (arith, overlaps-false s.areas start end s.count 0 i);
  }

  -- `sa_add` succeeds exactly if the array has room, the range is not empty, both ends are page
  -- aligned, and the range meets no area in use.
  pub add-ok_iff : ((add s start end flags name).1 ≡ ok) ↔ Accepts
  add-ok_iff = (add_ok, λ r. rw (add_accepted r))

  -- When it fails it changes nothing.
  pub add_failed : (add s start end flags name).1 ≡ fail → (add s start end flags name).0 ≡ s
  unfolding add
  add_failed h = ground arith

  -- Whatever it is asked, `sa_add` keeps a valid array sorted, disjoint and within its bounds.
  pub add-IsValid : IsValid s → IsValid (add s start end flags name).0
  add-IsValid v = elim (status_cases (add s start end flags name).1) [
    | inl e ↦
        let r = add_ok e in
        rw (add_accepted r) (insert_at-IsValid v r.wf r.room (lower_bound-Splits s start v) r.apart)
    | inr e ↦ rw (add_failed e) v
  ]

  -- On a valid array, after a successful `sa_add`, `sa_find` returns the new area at the addresses that it covers,
  -- and what it returned before at all others.
  pub find-add :
      (addr : ℕ)
      → IsValid s
      → (add s start end flags name).1 ≡ ok
      → find (add s start end flags name).0 addr
        ≡ (if leb start addr && ltb addr end then some new_area else find s addr)
  find-add addr v e =
      let r = add_ok e in
      let sp = lower_bound-Splits s start v in
      rw (add_accepted r) (
        ground (
          arith,
          λ (c : Covers new_area addr). find-insert_at_new v r.wf r.room sp r.apart addr c,
          λ (c : ¬ (Covers new_area addr)). find-insert_at_old v r.wf r.room sp r.apart addr c,
        ))
