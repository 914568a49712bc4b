-- ===== src/Vma/RedBlack/Descent.antt =====
-- The descent of an addition, against the list of all areas, and which additions are accepted.
use my_microkernel.Prelude.{
  ℕ, zero, suc, ◌+◌, ◌≤◌, ◌<◌, ◌≡◌, ◌≢◌, refl, ◌∙◌, arith, ◌==◌, ltb, leb, Bool, true, false, not,
  ◌&&◌, ◌||◌, List, [], ◌∷◌, ◌++◌, bit_and, Bool-cases, inl, inr, ◌⊎◌, Option, none, some, ok, fail,
}
use my_microkernel.Vma.Area.{VmArea}
use my_microkernel.Vma.RedBlack.{Tree, max_nodes, nil, null, pool_alloc}
use my_microkernel.Vma.RedBlack.Insert.{descend, add, add_below, attach}
use my_microkernel.Vma.RedBlack.Shape.{Shape, leaf, branch, size, areas, Forms, Ordered}
use my_microkernel.Vma.RedBlack.Lookup.{Ordered-le}

-- Whether an area of a list overlaps [start, end).
unfoldable pub overlapping : (start end : ℕ) → List VmArea → Bool
overlapping start end [] = false
overlapping start end (a ∷ rest) =
    (ltb start a.end && ltb a.start end) || overlapping start end rest

pub overlapping-append :
    (start end : ℕ) (xs ys : List VmArea)
    → overlapping start end (xs ++ ys) ≡ (overlapping start end xs || overlapping start end ys)
unfolding overlapping
overlapping-append start end [] ys = refl
overlapping-append start end (x ∷ xs) ys = ground (arith, overlapping-append start end xs ys)

-- A tree that lies at one side of the range does not overlap it.
beside :
    (start end lo hi : ℕ) (s : Shape)
    → Ordered lo hi s
    → (hi ≤ start) ⊎ (end ≤ lo)
    → overlapping start end (areas s) ≡ false
unfolding Ordered areas overlapping
beside start end lo hi leaf o h = refl
beside start end lo hi (branch n a l r) o (inl h) =
    let le = Ordered-le a.end hi r o.2 in
    rw
      (
        overlapping-append start end (areas l) (a ∷ areas r),
        beside start end lo a.start l o.1 (inl (omega (arith, o.0, le))),
        beside start end a.end hi r o.2 (inl h),
      )
      (ground (arith, le))
beside start end lo hi (branch n a l r) o (inr h) =
    let le = Ordered-le lo a.start l o.1 in
    rw
      (
        overlapping-append start end (areas l) (a ∷ areas r),
        beside start end lo a.start l o.1 (inr h),
        beside start end a.end hi r o.2 (inr (omega (arith, o.0, le))),
      )
      (ground (arith, le))

-- Whether the descent has met an overlapping area.
unfoldable pub refused : Option ℕ → Bool
refused none = true
refused (some parent) = false

pub descend-refused :
    (t : Tree) (start end lo hi parent p n : ℕ) (s : Shape)
    → start < end
    → Forms t.nodes p s
    → Ordered lo hi s
    → size s < n
    → refused (descend t start end parent p n) ≡ overlapping start end (areas s)
unfolding descend Forms Ordered size areas overlapping refused
descend-refused t start end lo hi parent p zero s q f o h = absurd (omega arith)
descend-refused t start end lo hi parent p (suc n) leaf q f o h = rw f refl
descend-refused t start end lo hi parent p (suc n) (branch m a l r) q f o h =
    let set : m == 0 ≡ false = ground (arith, f.1) in
    let left =
      descend-refused t start end lo a.start m (t.nodes m).left n l q f.3 o.1 (omega arith) in
    let right =
      descend-refused t start end a.end hi m (t.nodes m).right n r q f.4 o.2 (omega arith) in
    let list = overlapping-append start end (areas l) (a ∷ areas r) in
    elim (Bool-cases (ltb start a.end && ltb a.start end)) [
      | inl y ↦ rw (f.0, set, f.2, y, list) (ground (arith, y))
      | inr n1 ↦ elim (Bool-cases (ltb start a.start)) [
        | inl y ↦
            let right_of = beside start end a.end hi r o.2 (inr (ground (arith, n1, y, o.0))) in
            rw (f.0, set, f.2, n1, y, list, right_of, left) (ground arith)
        | inr z ↦
            let left_of = beside start end lo a.start l o.1 (inl (ground (arith, n1, z, q))) in
            rw (f.0, set, f.2, n1, z, list, left_of, right) (ground arith)
      ]
    ]

-- The conditions under which an area is accepted, with all areas of the tree looked at.
unfoldable pub accepts : Tree → (start end : ℕ) → List VmArea → Bool
accepts t start end list =
    ltb t.count max_nodes
    && (ltb start end
        && ((bit_and start 0xFFF == 0 && bit_and end 0xFFF == 0)
            && not (overlapping start end list)))

refused-none : (o : Option ℕ) → refused o ≡ true → o ≡ none
unfolding refused
refused-none none e = refl
refused-none (some x) e = absurd (ground arith)

accepted-ok :
    (t : Tree) (a : VmArea) (o : Option ℕ)
    → t.free_head ≢ null
    → refused o ≡ false
    → (add_below t a o).1 ≡ ok
unfolding refused add_below attach pool_alloc
accepted-ok t a none h e = absurd (ground arith)
accepted-ok t a (some parent) h e =
    let f : t.free_head == 257 ≡ false = ground (arith, h) in rw (f, f) refl

pub unfit-add :
    (t : Tree) (start end flags name : ℕ)
    → (ltb t.count max_nodes
        && (ltb start end && (bit_and start 0xFFF == 0 && bit_and end 0xFFF == 0)))
      ≡ false
    → add t start end flags name ≡ (t, fail)
unfolding add
unfit-add t start end flags name z = elim (Bool-cases (leb max_nodes t.count)) [
  | inl y ↦ rw y refl
  | inr n ↦ elim (Bool-cases (leb end start)) [
    | inl y ↦ rw (n, y) refl
    | inr k ↦
        let pages : not (bit_and start 0xFFF == 0) || not (bit_and end 0xFFF == 0) ≡ true =
          ground (arith, z, n, k) in
        rw (n, k, pages) refl
  ]
]

-- `add` to an ordered tree of at most 256 nodes: when the tree is full, the range is empty or not aligned to
-- pages, or any area of the tree overlaps it, the result is -1 and nothing changes. In every other
-- case the area is added, if the pool has a free node.
pub add-accepts :
    (t : Tree) (start end flags name lo hi : ℕ) (s : Shape)
    → Forms t.nodes t.root s
    → Ordered lo hi s
    → size s ≤ max_nodes
    → t.free_head ≢ null
    → ((accepts t start end (areas s) ≡ false) × (add t start end flags name ≡ (t, fail)))
      ⊎ ((accepts t start end (areas s) ≡ true) × ((add t start end flags name).1 ≡ ok))
unfolding add accepts
add-accepts t start end flags name lo hi s f o h p =
    let a : VmArea = record { start = start; end = end; flags = flags; name = name } in
    let d = descend t start end nil t.root (max_nodes + 1) in
    let aligned = bit_and start 0xFFF == 0 && bit_and end 0xFFF == 0 in
    elim (Bool-cases (ltb t.count max_nodes && (ltb start end && aligned))) [
      | inl y ↦
          let room : leb max_nodes t.count ≡ false = ground (arith, y) in
          let range : leb end start ≡ false = ground (arith, y) in
          let pages : not (bit_and start 0xFFF == 0) || not (bit_and end 0xFFF == 0) ≡ false =
            ground (arith, y) in
          let met : refused d ≡ overlapping start end (areas s) =
            descend-refused t start end lo hi nil t.root (max_nodes + 1) s (ground (arith, y)) f o
              (omega (arith, h)) in
          elim (Bool-cases (overlapping start end (areas s))) [
            | inl v ↦ inl (
              ground (arith, v),
              rw (room, range, pages, refused-none d (met ∙ v)) (unfold add_below in refl),
            )
            | inr w ↦
                inr (ground (arith, y, w), rw (room, range, pages) (accepted-ok t a d p (met ∙ w)))
          ]
      | inr z ↦ inl (ground (arith, z), unfit-add t start end flags name z)
    ]
