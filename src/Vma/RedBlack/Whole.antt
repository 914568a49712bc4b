-- ===== src/Vma/RedBlack/Whole.antt =====
-- The whole tree around an inner one.
use my_microkernel.Prelude.{ℕ, suc, ◌+◌, ◌≡◌, ap, arith, ◌++◌, ◌∷◌, List}
use my_microkernel.Vma.Area.{VmArea}
use my_microkernel.Vma.RedBlack.{Tree}
use my_microkernel.Vma.RedBlack.Shape.{areas}
use my_microkernel.Vma.RedBlack.Painted.{
  Painted, fork, Above, top, left_of, right_of, plug, shape, outside, Located, hits, hits_above,
}
use my_microkernel.Vma.RedBlack.Colour.{from_left, from_right}

-- How many nodes lie above.
unfoldable pub depth : Above → ℕ
depth (top base) = 0
depth (left_of n c a r up) = suc (depth up)
depth (right_of n c a l up) = suc (depth up)

pub plug-Located :
    (t : Tree) (up : Above) (s : Painted)
    → Located t up s
    → Located t (top (outside up)) (plug up s)
unfolding plug outside
plug-Located t (top base) s v = v
plug-Located t (left_of n c a r up) s v =
    plug-Located t up (fork n c a s r) (from_left t up n c a s r v)
plug-Located t (right_of n c a l up) s v =
    plug-Located t up (fork n c a l s) (from_right t up n c a l s v)

pub plug-areas :
    (up : Above) (s u : Painted)
    → areas (shape s) ≡ areas (shape u)
    → areas (shape (plug up s)) ≡ areas (shape (plug up u))
unfolding plug shape areas
plug-areas (top base) s u e = e
plug-areas (left_of n c a r up) s u e =
    plug-areas up (fork n c a s r) (fork n c a u r)
      (ap (λ (k : List VmArea). k ++ (a ∷ areas (shape r))) e)
plug-areas (right_of n c a l up) s u e =
    plug-areas up (fork n c a l s) (fork n c a l u)
      (ap (λ (k : List VmArea). areas (shape l) ++ (a ∷ k)) e)

pub hits-plug : (n : ℕ) (up : Above) (s : Painted) → hits n (plug up s) ≡ hits n s + hits_above n up
unfolding hits plug hits_above
hits-plug n (top base) s = omega arith
hits-plug n (left_of k c a r up) s = omega (arith, hits-plug n up (fork k c a s r))
hits-plug n (right_of k c a l up) s = omega (arith, hits-plug n up (fork k c a l s))
