-- ===== src/Vma/RedBlack/Painted.antt =====
-- The tree in the store with its colours and parent pointers, seen from one of its nodes.
use my_microkernel.Prelude.{
  ℕ, ◌+◌, ◌≤◌, ◌≡◌, ◌≢◌, refl, sym, ap, ◌∙◌, arith, ◌==◌, if◌then◌else◌, Bool, true, false, update,
  update_ne,
}
use my_microkernel.Vma.Area.{VmArea}
use my_microkernel.Vma.RedBlack.{Node, Tree}
use my_microkernel.Vma.RedBlack.Shape.{Shape, leaf, branch}

-- A tree of nodes with their areas: `fork n c a l r` is the node `n`, red when `c` is true.
pub data Painted : Type 0 where
  tip : Painted
  fork : (n : ℕ) → (c : Bool) → (a : VmArea) → (l r : Painted) → Painted

-- What lies above a tree, which is the left or the right child of a node with another tree; at the end, what
-- the whole tree leaves as it is.
pub data Above : Type 0 where
  top : Tree → Above
  left_of : (n : ℕ) → (c : Bool) → (a : VmArea) → (r : Painted) → Above → Above
  right_of : (n : ℕ) → (c : Bool) → (a : VmArea) → (l : Painted) → Above → Above

unfoldable pub paint : Bool → ℕ
paint true = 1
paint false = 0

unfoldable pub shape : Painted → Shape
shape tip = leaf
shape (fork n c a l r) = branch n a (shape l) (shape r)

-- The whole tree.
unfoldable pub plug : Above → Painted → Painted
plug (top base) s = s
plug (left_of n c a r up) s = plug up (fork n c a s r)
plug (right_of n c a l up) s = plug up (fork n c a l s)

-- The node at the top of a tree, and the node above it; 0 is NIL.
unfoldable pub top_of : Painted → ℕ
top_of tip = 0
top_of (fork n c a l r) = n

unfoldable pub holder : Above → ℕ
holder (top base) = 0
holder (left_of n c a r up) = n
holder (right_of n c a l up) = n

-- The root of the whole tree, when the inner tree has its top at `p`.
unfoldable pub summit : Above → ℕ → ℕ
summit (top base) p = p
summit (left_of n c a r up) p = summit up n
summit (right_of n c a l up) p = summit up n

unfoldable pub outside : Above → Tree
outside (top base) = base
outside (left_of n c a r up) = outside up
outside (right_of n c a l up) = outside up

-- The store holds the tree below the node `q`.
unfoldable pub Stored : (ℕ → Node) → (q : ℕ) → Painted → Type 0
Stored m q tip = Unit
Stored m q (fork n c a l r) =
    (n ≢ 0)
    × (m n ≡ (record { area = a; color = paint c; parent = q; left = top_of l; right = top_of r }))
    × Stored m n l
    × Stored m n r

-- The store holds what lies above the tree with its top at `p`.
unfoldable pub Around : (ℕ → Node) → (p : ℕ) → Above → Type 0
Around m p (top base) = Unit
Around m p (left_of n c a r up) =
    (n ≢ 0)
    × (m n ≡ (record { area = a; color = paint c; parent = holder up; left = p; right = top_of r }))
    × Stored m n r
    × Around m n up
Around m p (right_of n c a l up) =
    (n ≢ 0)
    × (m n ≡ (record { area = a; color = paint c; parent = holder up; left = top_of l; right = p }))
    × Stored m n l
    × Around m n up

-- How often the node `n` stands in a tree, and above one.
abbrev pub hit : (n k : ℕ) → ℕ
hit n k = if n == k then 1 else 0

unfoldable pub hits : ℕ → Painted → ℕ
hits n tip = 0
hits n (fork k c a l r) = hit n k + hits n l + hits n r

unfoldable pub hits_above : ℕ → Above → ℕ
hits_above n (top base) = 0
hits_above n (left_of k c a r up) = hit n k + hits n r + hits_above n up
hits_above n (right_of k c a l up) = hit n k + hits n l + hits_above n up

-- The tree of the store from the root on, seen from an inner tree: each node stands in it once.
pub record Located (t : Tree) (up : Above) (s : Painted) : Type 0 where
  pub inner : Stored t.nodes (holder up) s
  pub outer : Around t.nodes (top_of s) up
  pub root : t.root ≡ summit up (top_of s)
  pub once : (n : ℕ) → hits n s + hits_above n up ≤ 1
  pub sentinel : (t.nodes 0).color ≡ 0
  pub others : (n : ℕ) → hits n s ≡ 0 → hits_above n up ≡ 0 → t.nodes n ≡ (outside up).nodes n
  pub free : t.free_head ≡ (outside up).free_head
  pub counted : t.count ≡ (outside up).count

pub hit_self : (n : ℕ) → hit n n ≡ 1
hit_self n = ground arith

pub hit_zero : (n k : ℕ) → hit n k ≡ 0 → n ≢ k
hit_zero n k e = ground (arith, e)

-- A store that agrees with another one on a tree.
pub Stored-agree :
    (m m1 : ℕ → Node) (q : ℕ) (s : Painted)
    → ((n : ℕ) → 1 ≤ hits n s → m1 n ≡ m n)
    → Stored m q s
    → Stored m1 q s
unfolding Stored hits
Stored-agree m m1 q tip h f = tt
Stored-agree m m1 q (fork n c a l r) h f = (
  f.0,
  h n (omega (arith, hit_self n)) ∙ f.1,
  Stored-agree m m1 n l (λ k p. h k (omega (arith, p))) f.2,
  Stored-agree m m1 n r (λ k p. h k (omega (arith, p))) f.3,
)

pub Around-agree :
    (m m1 : ℕ → Node) (p : ℕ) (up : Above)
    → ((n : ℕ) → 1 ≤ hits_above n up → m1 n ≡ m n)
    → Around m p up
    → Around m1 p up
unfolding Around hits_above
Around-agree m m1 p (top base) h f = tt
Around-agree m m1 p (left_of n c a r up) h f = (
  f.0,
  h n (omega (arith, hit_self n)) ∙ f.1,
  Stored-agree m m1 n r (λ k p. h k (omega (arith, p))) f.2,
  Around-agree m m1 n up (λ k p. h k (omega (arith, p))) f.3,
)
Around-agree m m1 p (right_of n c a l up) h f = (
  f.0,
  h n (omega (arith, hit_self n)) ∙ f.1,
  Stored-agree m m1 n l (λ k p. h k (omega (arith, p))) f.2,
  Around-agree m m1 n up (λ k p. h k (omega (arith, p))) f.3,
)

-- A store to a node outside a tree.
pub Stored-update :
    (m : ℕ → Node) (n q : ℕ) (v : Node) (s : Painted)
    → hits n s ≡ 0
    → Stored m q s
    → Stored (update m n v) q s
Stored-update m n q v s h f =
    Stored-agree m (update m n v) q s
      (λ k p. update_ne m n k v (λ e. absurd (omega (arith, p, h, ap (λ (x : ℕ). hits x s) e)))) f

pub Around-update :
    (m : ℕ → Node) (n p : ℕ) (v : Node) (up : Above)
    → hits_above n up ≡ 0
    → Around m p up
    → Around (update m n v) p up
Around-update m n p v up h f =
    Around-agree m (update m n v) p up
      (λ k q.
        update_ne m n k v (λ e. absurd (omega (arith, q, h, ap (λ (x : ℕ). hits_above x up) e))))
      f

pub top_of-ne : (n : ℕ) (s : Painted) → n ≢ 0 → hits n s ≡ 0 → top_of s ≢ n
unfolding hits top_of
top_of-ne n tip p h = λ e. p (sym e)
top_of-ne n (fork k c a l r) p h = λ e. hit_zero n k (omega (arith, h)) (sym e)

-- NIL stands in no tree.
pub hits-nil : (m : ℕ → Node) (q : ℕ) (s : Painted) → Stored m q s → hits 0 s ≡ 0
unfolding hits Stored
hits-nil m q tip f = refl
hits-nil m q (fork n c a l r) f =
    let z : hit 0 n ≡ 0 = ground (arith, f.0) in
    omega (arith, z, hits-nil m n l f.2, hits-nil m n r f.3)

pub hits_above-nil : (m : ℕ → Node) (p : ℕ) (up : Above) → Around m p up → hits_above 0 up ≡ 0
unfolding hits_above Around
hits_above-nil m p (top base) f = refl
hits_above-nil m p (left_of n c a r up) f =
    let z : hit 0 n ≡ 0 = ground (arith, f.0) in
    omega (arith, z, hits-nil m n r f.2, hits_above-nil m n up f.3)
hits_above-nil m p (right_of n c a l up) f =
    let z : hit 0 n ≡ 0 = ground (arith, f.0) in
    omega (arith, z, hits-nil m n l f.2, hits_above-nil m n up f.3)
