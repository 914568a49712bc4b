-- ===== src/Vma/RedBlack/Spot.antt =====
-- The place of a new area in the tree, and in the list of the areas.
use my_microkernel.Prelude.{
  ℕ, ◌≤◌, ◌<◌, ◌≡◌, refl, sym, ap, arith, if◌then◌else◌, ltb, true, false, ◌++◌, ◌∷◌, [], List, inl,
  inr, Bool-cases,
}
use my_microkernel.Vma.Area.{VmArea}
use my_microkernel.Vma.RedBlack.Shape.{Shape, leaf, branch, areas, Ordered}
use my_microkernel.Vma.RedBlack.Descent.{overlapping}
use my_microkernel.Vma.RedBlack.Painted.{Painted, tip, fork, shape}

-- A new red node at its place.
unfoldable pub graft : (z : ℕ) → VmArea → Painted → Painted
graft z a tip = fork z true a tip tip
graft z a (fork n c b l r) =
    if ltb a.start b.start then fork n c b (graft z a l) r else fork n c b l (graft z a r)

-- A new area before the first one that begins behind it.
unfoldable pub placed : VmArea → List VmArea → List VmArea
placed a [] = a ∷ []
placed a (b ∷ bs) = let rest = placed a bs in if ltb a.start b.start then a ∷ (b ∷ bs) else b ∷ rest

-- The areas of a list are not empty, and lie one behind the other between `lo` and `hi`.
unfoldable pub InOrder : (lo hi : ℕ) → List VmArea → Type 0
InOrder lo hi [] = lo ≤ hi
InOrder lo hi (a ∷ rest) = (lo ≤ a.start) × (a.start < a.end) × InOrder a.end hi rest

InOrder-le : (lo hi : ℕ) (xs : List VmArea) → InOrder lo hi xs → lo ≤ hi
unfolding InOrder
InOrder-le lo hi [] o = o
InOrder-le lo hi (x ∷ xs) o = omega (arith, o.0, o.1, InOrder-le x.end hi xs o.2)

pub InOrder-raise :
    (lo hi hi1 : ℕ) (xs : List VmArea) → hi ≤ hi1 → InOrder lo hi xs → InOrder lo hi1 xs
unfolding InOrder
InOrder-raise lo hi hi1 [] h o = omega (arith, h, o)
InOrder-raise lo hi hi1 (x ∷ xs) h o = (o.0, o.1, InOrder-raise x.end hi hi1 xs h o.2)

InOrder-append :
    (lo hi : ℕ) (xs ys : List VmArea) (a : VmArea)
    → InOrder lo a.start xs
    → a.start < a.end
    → InOrder a.end hi ys
    → InOrder lo hi (xs ++ (a ∷ ys))
unfolding InOrder
InOrder-append lo hi [] ys a o h p = (o, h, p)
InOrder-append lo hi (x ∷ xs) ys a o h p = (o.0, o.1, InOrder-append x.end hi xs ys a o.2 h p)

InOrder-split :
    (lo hi : ℕ) (xs ys : List VmArea) (a : VmArea)
    → InOrder lo hi (xs ++ (a ∷ ys))
    → InOrder lo a.start xs × (a.start < a.end) × InOrder a.end hi ys
unfolding InOrder
InOrder-split lo hi [] ys a o = o
InOrder-split lo hi (x ∷ xs) ys a o =
    let s = InOrder-split x.end hi xs ys a o.2 in ((o.0, o.1, s.0), s.1, s.2)

pub Ordered-InOrder : (lo hi : ℕ) (s : Shape) → Ordered lo hi s → InOrder lo hi (areas s)
unfolding Ordered InOrder areas
Ordered-InOrder lo hi leaf o = o
Ordered-InOrder lo hi (branch n a l r) o =
    InOrder-append lo hi (areas l) (areas r) a (Ordered-InOrder lo a.start l o.1) o.0
      (Ordered-InOrder a.end hi r o.2)

pub InOrder-Ordered : (lo hi : ℕ) (s : Shape) → InOrder lo hi (areas s) → Ordered lo hi s
unfolding Ordered InOrder areas
InOrder-Ordered lo hi leaf o = o
InOrder-Ordered lo hi (branch n a l r) o =
    let s = InOrder-split lo hi (areas l) (areas r) a o in
    (s.1, InOrder-Ordered lo a.start l s.0, InOrder-Ordered a.end hi r s.2)

-- A new area that overlaps no other keeps the order.
pub placed-InOrder :
    (lo hi : ℕ) (a : VmArea) (xs : List VmArea)
    → InOrder lo hi xs
    → lo ≤ a.start
    → a.start < a.end
    → a.end ≤ hi
    → overlapping a.start a.end xs ≡ false
    → InOrder lo hi (placed a xs)
unfolding InOrder placed overlapping
placed-InOrder lo hi a [] o l h u e = (l, h, u)
placed-InOrder lo hi a (x ∷ xs) o l h u e = elim (Bool-cases (ltb a.start x.start)) [
  | inl y ↦
      let apart : a.end ≤ x.start = ground (arith, y, e, o.1) in rw y (l, h, (apart, o.1, o.2))
  | inr n ↦
      let apart : x.end ≤ a.start = ground (arith, n, e, h) in
      rw n (o.0, o.1, placed-InOrder x.end hi a xs o.2 apart h u (ground (arith, e)))
]

-- The place in the part before an area, and in the part behind it.
placed-before :
    (lo : ℕ) (a b : VmArea) (xs ys : List VmArea)
    → InOrder lo b.start xs
    → a.start < b.start
    → placed a (xs ++ (b ∷ ys)) ≡ placed a xs ++ (b ∷ ys)
unfolding InOrder placed
placed-before lo a b [] ys o h = let t : ltb a.start b.start ≡ true = ground (arith, h) in rw t refl
placed-before lo a b (x ∷ xs) ys o h = elim (Bool-cases (ltb a.start x.start)) [
  | inl y ↦ rw y refl
  | inr n ↦ rw n (ap (λ (k : List VmArea). x ∷ k) (placed-before x.end a b xs ys o.2 h))
]

placed-behind :
    (lo : ℕ) (a b : VmArea) (xs ys : List VmArea)
    → InOrder lo b.start xs
    → b.start ≤ a.start
    → placed a (xs ++ (b ∷ ys)) ≡ xs ++ (b ∷ placed a ys)
unfolding InOrder placed
placed-behind lo a b [] ys o h =
    let t : ltb a.start b.start ≡ false = ground (arith, h) in rw t refl
placed-behind lo a b (x ∷ xs) ys o h =
    let le = InOrder-le x.end b.start xs o.2 in
    let t : ltb a.start x.start ≡ false = ground (arith, h, le, o.1) in
    rw t (ap (λ (k : List VmArea). x ∷ k) (placed-behind x.end a b xs ys o.2 h))

-- The new node's area takes its place in the list.
pub areas-graft :
    (z lo hi : ℕ) (a : VmArea) (s : Painted)
    → Ordered lo hi (shape s)
    → areas (shape (graft z a s)) ≡ placed a (areas (shape s))
unfolding graft areas shape Ordered
areas-graft z lo hi a tip o = unfold placed in refl
areas-graft z lo hi a (fork n c b l r) o =
    let w = Ordered-InOrder lo b.start (shape l) o.1 in
    elim (Bool-cases (ltb a.start b.start)) [
      | inl y ↦
          rw (y, areas-graft z lo b.start a l o.1)
            (sym (placed-before lo a b (areas (shape l)) (areas (shape r)) w (ground (arith, y))))
      | inr k ↦
          rw (k, areas-graft z b.end hi a r o.2)
            (sym (placed-behind lo a b (areas (shape l)) (areas (shape r)) w (ground (arith, k))))
    ]
