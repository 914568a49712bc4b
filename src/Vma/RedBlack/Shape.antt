-- ===== src/Vma/RedBlack/Shape.antt =====
-- The tree that nodes in the store form.
use my_microkernel.Prelude.{ℕ, suc, ◌+◌, ◌≤◌, ◌<◌, ◌≡◌, ◌≢◌, List, [], ◌∷◌, ◌++◌}
use my_microkernel.Vma.Area.{VmArea}
use my_microkernel.Vma.RedBlack.{Node}

-- A binary tree of nodes with their areas.
pub data Shape : Type 0 where
  leaf : Shape
  branch : (n : ℕ) → (a : VmArea) → (l r : Shape) → Shape

unfoldable pub size : Shape → ℕ
size leaf = 0
size (branch n a l r) = suc (size l + size r)

-- The areas from left to right.
unfoldable pub areas : Shape → List VmArea
areas leaf = []
areas (branch n a l r) = areas l ++ (a ∷ areas r)

-- The pointer `p` leads to the tree, through the pointers left and right.
unfoldable pub Forms : (ℕ → Node) → (p : ℕ) → Shape → Type 0
Forms m p leaf = p ≡ 0
Forms m p (branch n a l r) =
    (p ≡ n) × (n ≢ 0) × ((m n).area ≡ a) × Forms m (m n).left l × Forms m (m n).right r

-- The areas are not empty, and lie one behind the other between `lo` and `hi`.
unfoldable pub Ordered : (lo hi : ℕ) → Shape → Type 0
Ordered lo hi leaf = lo ≤ hi
Ordered lo hi (branch n a l r) = (a.start < a.end) × Ordered lo a.start l × Ordered a.end hi r
