-- ===== src/Vma/RedBlack/Reflect.antt =====
-- The tree of a mirrored store.
use mathlib.Core.List.{reverse, reverse-append, reverse-cons, append_assoc}
use my_microkernel.Prelude.{ℕ, ◌≡◌, refl, sym, ap, ◌∙◌, arith, ◌∷◌, []}
use my_microkernel.Vma.RedBlack.{Node, Tree}
use my_microkernel.Vma.RedBlack.Shape.{areas}
use my_microkernel.Vma.RedBlack.Mirror.{flip, mirror}
use my_microkernel.Vma.RedBlack.Painted.{
  Painted, tip, fork, Above, top, left_of, right_of, shape, top_of, holder, summit, outside, Stored,
  Around, hits, hits_above, Located,
}

unfoldable pub mirrored : Painted → Painted
mirrored tip = tip
mirrored (fork n c a l r) = fork n c a (mirrored r) (mirrored l)

unfoldable pub mirrored_above : Above → Above
mirrored_above (top base) = top (mirror base)
mirrored_above (left_of n c a r up) = right_of n c a (mirrored r) (mirrored_above up)
mirrored_above (right_of n c a l up) = left_of n c a (mirrored l) (mirrored_above up)

pub mirrored_twice : (s : Painted) → mirrored (mirrored s) ≡ s
unfolding mirrored
mirrored_twice tip = refl
mirrored_twice (fork n c a l r) = rw (mirrored_twice l, mirrored_twice r) refl

pub mirrored_above_twice : (up : Above) → mirrored_above (mirrored_above up) ≡ up
unfolding mirrored_above
mirrored_above_twice (top base) = refl
mirrored_above_twice (left_of n c a r up) = rw (mirrored_twice r, mirrored_above_twice up) refl
mirrored_above_twice (right_of n c a l up) = rw (mirrored_twice l, mirrored_above_twice up) refl

pub top_of-mirrored : (s : Painted) → top_of (mirrored s) ≡ top_of s
unfolding top_of mirrored
top_of-mirrored tip = refl
top_of-mirrored (fork n c a l r) = refl

holder-mirrored : (up : Above) → holder (mirrored_above up) ≡ holder up
unfolding holder mirrored_above
holder-mirrored (top base) = refl
holder-mirrored (left_of n c a r up) = refl
holder-mirrored (right_of n c a l up) = refl

summit-mirrored : (up : Above) (p : ℕ) → summit (mirrored_above up) p ≡ summit up p
unfolding summit mirrored_above
summit-mirrored (top base) p = refl
summit-mirrored (left_of n c a r up) p = summit-mirrored up n
summit-mirrored (right_of n c a l up) p = summit-mirrored up n

outside-mirrored : (up : Above) → outside (mirrored_above up) ≡ mirror (outside up)
unfolding outside mirrored_above
outside-mirrored (top base) = refl
outside-mirrored (left_of n c a r up) = outside-mirrored up
outside-mirrored (right_of n c a l up) = outside-mirrored up

pub hits-mirrored : (n : ℕ) (s : Painted) → hits n (mirrored s) ≡ hits n s
unfolding hits mirrored
hits-mirrored n tip = refl
hits-mirrored n (fork k c a l r) = omega (arith, hits-mirrored n l, hits-mirrored n r)

hits_above-mirrored : (n : ℕ) (up : Above) → hits_above n (mirrored_above up) ≡ hits_above n up
unfolding hits_above mirrored_above
hits_above-mirrored n (top base) = refl
hits_above-mirrored n (left_of k c a r up) =
    omega (arith, hits-mirrored n r, hits_above-mirrored n up)
hits_above-mirrored n (right_of k c a l up) =
    omega (arith, hits-mirrored n l, hits_above-mirrored n up)

Stored-mirrored :
    (m : ℕ → Node) (q : ℕ) (s : Painted) → Stored m q s → Stored (λ k. flip (m k)) q (mirrored s)
unfolding Stored mirrored
Stored-mirrored m q tip f = tt
Stored-mirrored m q (fork n c a l r) f = (
  f.0,
  ap flip f.1 ∙ rw (top_of-mirrored l, top_of-mirrored r) refl,
  Stored-mirrored m n r f.3,
  Stored-mirrored m n l f.2,
)

Around-mirrored :
    (m : ℕ → Node) (p : ℕ) (up : Above)
    → Around m p up
    → Around (λ k. flip (m k)) p (mirrored_above up)
unfolding Around mirrored_above
Around-mirrored m p (top base) f = tt
Around-mirrored m p (left_of n c a r up) f = (
  f.0,
  ap flip f.1 ∙ rw (top_of-mirrored r, holder-mirrored up) refl,
  Stored-mirrored m n r f.2,
  Around-mirrored m n up f.3,
)
Around-mirrored m p (right_of n c a l up) f = (
  f.0,
  ap flip f.1 ∙ rw (top_of-mirrored l, holder-mirrored up) refl,
  Stored-mirrored m n l f.2,
  Around-mirrored m n up f.3,
)

pub Located-mirrored :
    (t : Tree) (up : Above) (s : Painted)
    → Located t up s
    → Located (mirror t) (mirrored_above up) (mirrored s)
Located-mirrored t up s l = record {
  inner = rw (holder-mirrored up) (Stored-mirrored t.nodes (holder up) s l.inner);
  outer = rw (top_of-mirrored s) (Around-mirrored t.nodes (top_of s) up l.outer);
  root = l.root ∙ rw (top_of-mirrored s, summit-mirrored up (top_of s)) refl;
  once = λ n. omega (arith, l.once n, hits-mirrored n s, hits_above-mirrored n up);
  sentinel = l.sentinel;
  others = λ n p q.
      ap flip (l.others n (sym (hits-mirrored n s) ∙ p) (sym (hits_above-mirrored n up) ∙ q))
      ∙ ap (λ (b : Tree). b.nodes n) (sym (outside-mirrored up));
  free = l.free ∙ ap (λ (b : Tree). b.free_head) (sym (outside-mirrored up));
  counted = l.counted ∙ ap (λ (b : Tree). b.count) (sym (outside-mirrored up));
}

-- The areas of the mirrored tree, from left to right.
pub areas-mirrored : (s : Painted) → areas (shape (mirrored s)) ≡ reverse (areas (shape s))
unfolding areas shape mirrored
areas-mirrored tip = refl
areas-mirrored (fork n c a l r) =
    let xs = areas (shape l) in
    let ys = areas (shape r) in
    rw (areas-mirrored l, areas-mirrored r, reverse-append xs (a ∷ ys), reverse-cons a ys)
      (sym (append_assoc (reverse ys) (a ∷ []) (reverse xs)))
