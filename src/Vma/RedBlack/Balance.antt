-- ===== src/Vma/RedBlack/Balance.antt =====
-- The red-black conditions, on a tree and on what lies above one.
use my_microkernel.Prelude.{ℕ, zero, suc, ◌≡◌, true, false, ◌⊎◌, inl, inr}
use my_microkernel.Vma.RedBlack.Painted.{Painted, tip, fork, Above, top, left_of, right_of, plug}
use my_microkernel.Vma.RedBlack.Reflect.{mirrored}

-- The node at the top is red, or it is not.
unfoldable pub Red : Painted → Type 0
Red tip = ⊥
Red (fork n true a l r) = Unit
Red (fork n false a l r) = ⊥

unfoldable pub Dark : Painted → Type 0
Dark tip = Unit
Dark (fork n true a l r) = ⊥
Dark (fork n false a l r) = Unit

-- A red node has no red child, and there are `h` black nodes on every path down.
unfoldable pub Balanced : Painted → ℕ → Type 0
Balanced tip h = h ≡ 0
Balanced (fork n true a l r) h = Dark l × Dark r × Balanced l h × Balanced r h
Balanced (fork n false a l r) zero = ⊥
Balanced (fork n false a l r) (suc h) = Balanced l h × Balanced r h

unfoldable pub DarkAbove : Above → Type 0
DarkAbove (top base) = ⊥
DarkAbove (left_of n true a r up) = ⊥
DarkAbove (left_of n false a r up) = Unit
DarkAbove (right_of n true a l up) = ⊥
DarkAbove (right_of n false a l up) = Unit

-- With a dark tree of the black height `h` in its place, the whole tree is balanced, and its root is not
-- red.
unfoldable pub Fits : Above → ℕ → Type 0
Fits (top base) h = Unit
Fits (left_of n true a r up) h = Dark r × Balanced r h × DarkAbove up × Fits up h
Fits (left_of n false a r up) h = Balanced r h × Fits up (suc h)
Fits (right_of n true a l up) h = Dark l × Balanced l h × DarkAbove up × Fits up h
Fits (right_of n false a l up) h = Balanced l h × Fits up (suc h)

pub Dark-mirrored : (s : Painted) → Dark s → Dark (mirrored s)
unfolding Dark mirrored
Dark-mirrored tip d = tt
Dark-mirrored (fork n true a l r) d = d
Dark-mirrored (fork n false a l r) d = tt

pub Red-mirrored : (s : Painted) → Red s → Red (mirrored s)
unfolding Red mirrored
Red-mirrored tip d = d
Red-mirrored (fork n true a l r) d = tt
Red-mirrored (fork n false a l r) d = d

pub Balanced-mirrored : (s : Painted) (h : ℕ) → Balanced s h → Balanced (mirrored s) h
unfolding Balanced mirrored
Balanced-mirrored tip h b = b
Balanced-mirrored (fork n true a l r) h b =
    (Dark-mirrored r b.1, Dark-mirrored l b.0, Balanced-mirrored r h b.3, Balanced-mirrored l h b.2)
Balanced-mirrored (fork n false a l r) zero b = b
Balanced-mirrored (fork n false a l r) (suc h) b =
    (Balanced-mirrored r h b.1, Balanced-mirrored l h b.0)

-- The root black.
unfoldable pub blackened : Painted → Painted
blackened tip = tip
blackened (fork n c a l r) = fork n false a l r

-- Some black height for the tree whose root has been painted black.
unfoldable pub IsRedBlack : Painted → Type 0
IsRedBlack s = (h : ℕ) × Balanced (blackened s) h

pub Balanced-IsRedBlack : (s : Painted) (h : ℕ) → Balanced s h → IsRedBlack s
unfolding Balanced IsRedBlack blackened
Balanced-IsRedBlack tip h b = (h, b)
Balanced-IsRedBlack (fork n true a l r) h b = (suc h, (b.2, b.3))
Balanced-IsRedBlack (fork n false a l r) h b = (h, b)

-- The whole tree, when not both the tree and the node above it are red.
pub plug-IsRedBlack :
    (up : Above) (s : Painted) (h : ℕ)
    → Fits up h
    → Dark s ⊎ DarkAbove up
    → Balanced s h
    → IsRedBlack (plug up s)
unfolding Fits plug Balanced Dark DarkAbove
plug-IsRedBlack (top base) s h f d b = Balanced-IsRedBlack s h b
plug-IsRedBlack (left_of n false a r up) s h f d b =
    plug-IsRedBlack up (fork n false a s r) (suc h) f.1 (inl tt) (b, f.0)
plug-IsRedBlack (right_of n false a l up) s h f d b =
    plug-IsRedBlack up (fork n false a l s) (suc h) f.1 (inl tt) (f.0, b)
plug-IsRedBlack (left_of n true a r up) s h f (inl d) b =
    plug-IsRedBlack up (fork n true a s r) h f.3 (inr f.2) (d, f.0, b, f.1)
plug-IsRedBlack (left_of n true a r up) s h f (inr e) b = absurd e
plug-IsRedBlack (right_of n true a l up) s h f (inl d) b =
    plug-IsRedBlack up (fork n true a l s) h f.3 (inr f.2) (f.0, d, f.1, b)
plug-IsRedBlack (right_of n true a l up) s h f (inr e) b = absurd e
