-- ===== src/Vma/RedBlack/Sound.antt =====
-- The invariant of the back end: a red-black tree of the areas, and the list of the free nodes.
use mathlib.Core.Path.{subst}
use my_microkernel.Prelude.{
  ℕ, zero, suc, ◌+◌, ◌≤◌, ◌<◌, ◌≡◌, ◌≢◌, refl, sym, arith, List, [], ◌∷◌, ℕ_discrete,
}
use my_microkernel.Vma.Area.{VmArea}
use my_microkernel.Vma.RedBlack.{Node, Tree, null, max_nodes}
use my_microkernel.Vma.RedBlack.Shape.{size, Forms, Ordered}
use my_microkernel.Vma.RedBlack.Painted.{shape, hit, hits, hit_self, holder, summit}
use my_microkernel.Vma.RedBlack.Fixup.{IsTree}
use my_microkernel.Vma.RedBlack.Spot.{InOrder, InOrder-Ordered}
use my_microkernel.Vma.RedBlack.Walk.{Stored-Forms}

-- The list of the free nodes from `p` on, linked through `right` up to NULL.
unfoldable pub Chain : (ℕ → Node) → (p : ℕ) → List ℕ → Type 0
Chain m p [] = p ≡ null
Chain m p (n ∷ rest) = (p ≡ n) × (n ≢ 0) × (n ≢ null) × Chain m (m n).right rest

unfoldable pub times : ℕ → List ℕ → ℕ
times n [] = 0
times n (k ∷ rest) = hit n k + times n rest

unfoldable pub length : List ℕ → ℕ
length [] = 0
length (n ∷ rest) = suc (length rest)

-- Every node of the pool is either in the tree or free, and the count is that of the areas.
pub record IsSound (t : Tree) (list : List VmArea) : Type 0 where
  pub tree : IsTree t t list
  pub bound : ℕ
  pub ordered : InOrder 0 bound list
  pub counted : t.count ≡ size (shape tree.painted)
  pub free : List ℕ
  pub chain : Chain t.nodes t.free_head free
  pub apart : (n : ℕ) → times n free + hits n tree.painted ≤ 1
  pub room : length free + size (shape tree.painted) ≡ max_nodes

pub Chain-agree :
    (m m1 : ℕ → Node) (p : ℕ) (list : List ℕ)
    → ((n : ℕ) → 1 ≤ times n list → m1 n ≡ m n)
    → Chain m p list
    → Chain m1 p list
unfolding Chain times
Chain-agree m m1 p [] h c = c
Chain-agree m m1 p (n ∷ rest) h c =
    let here : m1 n ≡ m n = h n (omega (arith, hit_self n)) in
    (
      c.0,
      c.1,
      c.2,
      subst (λ (k : Node). Chain m1 k.right rest) (sym here)
          (Chain-agree m m1 (m n).right rest (λ k p. h k (omega (arith, p))) c.3),
    )

-- The nodes from `i` on.
unfoldable pub count_up : (i n : ℕ) → List ℕ
count_up i zero = []
count_up i (suc n) = i ∷ count_up (i + 1) n

pub times-count_up : (k i n : ℕ) → times k (count_up i n) ≤ 1
unfolding times count_up
times-count_up k i zero = omega arith
times-count_up k i (suc n) = elim (ℕ_discrete k i) [
  | yes e ↦ omega (arith, below k (i + 1) n (omega (arith, e)), one k i)
  | no e ↦ omega (arith, times-count_up k (i + 1) n, none_here k i e)
]
  where
    one : (k i : ℕ) → hit k i ≤ 1
    one k i = ground arith

    none_here : (k i : ℕ) → k ≢ i → hit k i ≡ 0
    none_here k i e = ground (arith, e)

    below : (k i n : ℕ) → k < i → times k (count_up i n) ≡ 0
    below k i zero h = refl
    below k i (suc n) h =
        omega (arith, none_here k i (omega (arith, h)), below k (i + 1) n (omega (arith, h)))

pub length-count_up : (i n : ℕ) → length (count_up i n) ≡ n
unfolding length count_up
length-count_up i zero = refl
length-count_up i (suc n) = omega (arith, length-count_up (i + 1) n)

-- The pointers lead to the tree, whose areas are in order.
pub IsSound-Forms :
    (t : Tree) (list : List VmArea) (v : IsSound t list)
    → Forms t.nodes t.root (shape v.tree.painted)
unfolding holder summit
IsSound-Forms t list v =
    subst (λ (x : ℕ). Forms t.nodes x (shape v.tree.painted)) (sym v.tree.located.root)
      (Stored-Forms t.nodes 0 v.tree.painted v.tree.located.inner)

pub IsSound-Ordered :
    (t : Tree) (list : List VmArea) (v : IsSound t list) → Ordered 0 v.bound (shape v.tree.painted)
IsSound-Ordered t list v =
    InOrder-Ordered 0 v.bound (shape v.tree.painted)
      (subst (InOrder 0 v.bound) (sym v.tree.order) v.ordered)
