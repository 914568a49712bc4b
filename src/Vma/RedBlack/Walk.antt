-- ===== src/Vma/RedBlack/Walk.antt =====
-- The way down of an addition, as the place in the tree that it ends at.
use mathlib.Core.Path.{subst}
use my_microkernel.Prelude.{
  ℕ, zero, suc, ◌+◌, ◌≤◌, ◌<◌, ◌≡◌, ◌≢◌, refl, sym, ap, ◌∙◌, arith, ◌==◌, if◌then◌else◌, ltb, Bool,
  true, false, ◌&&◌, inl, inr, ◌⊎◌, Bool-cases, Option, none, some,
}
use my_microkernel.Vma.Area.{VmArea}
use my_microkernel.Vma.RedBlack.{Node, Tree}
use my_microkernel.Vma.RedBlack.Insert.{descend}
use my_microkernel.Vma.RedBlack.Shape.{Forms, size}
use my_microkernel.Vma.RedBlack.Descent.{refused}
use my_microkernel.Vma.RedBlack.Painted.{
  Painted, tip, fork, Above, top, left_of, right_of, plug, shape, top_of, holder, outside, Stored,
  Located,
}
use my_microkernel.Vma.RedBlack.Colour.{to_left, to_right}
use my_microkernel.Vma.RedBlack.Balance.{Dark, DarkAbove, Balanced, Fits}
use my_microkernel.Vma.RedBlack.Whole.{depth}
use my_microkernel.Vma.RedBlack.Spot.{graft}

-- What lies above the place for an area that begins at `start`.
unfoldable pub spot : (start : ℕ) → Above → Painted → Above
spot start up tip = up
spot start up (fork n c b l r) =
    if ltb start b.start
    then spot start (left_of n c b r up) l
    else spot start (right_of n c b l up) r

pub spot-plug : (start : ℕ) (up : Above) (s : Painted) → plug (spot start up s) tip ≡ plug up s
unfolding spot plug
spot-plug start up tip = refl
spot-plug start up (fork n c b l r) = elim (Bool-cases (ltb start b.start)) [
  | inl y ↦ rw y (spot-plug start (left_of n c b r up) l)
  | inr k ↦ rw k (spot-plug start (right_of n c b l up) r)
]

pub spot-graft :
    (z : ℕ) (a : VmArea) (up : Above) (s : Painted)
    → plug (spot a.start up s) (fork z true a tip tip) ≡ plug up (graft z a s)
unfolding spot plug graft
spot-graft z a up tip = refl
spot-graft z a up (fork n c b l r) = elim (Bool-cases (ltb a.start b.start)) [
  | inl y ↦ rw y (spot-graft z a (left_of n c b r up) l)
  | inr k ↦ rw k (spot-graft z a (right_of n c b l up) r)
]

pub spot-outside : (start : ℕ) (up : Above) (s : Painted) → outside (spot start up s) ≡ outside up
unfolding spot outside
spot-outside start up tip = refl
spot-outside start up (fork n c b l r) = elim (Bool-cases (ltb start b.start)) [
  | inl y ↦ rw y (spot-outside start (left_of n c b r up) l)
  | inr k ↦ rw k (spot-outside start (right_of n c b l up) r)
]

pub depth-spot :
    (start : ℕ) (up : Above) (s : Painted) → depth (spot start up s) ≤ depth up + size (shape s)
unfolding spot depth size shape
depth-spot start up tip = omega arith
depth-spot start up (fork n c b l r) = elim (Bool-cases (ltb start b.start)) [
  | inl y ↦ rw y (omega (arith, depth-spot start (left_of n c b r up) l))
  | inr k ↦ rw k (omega (arith, depth-spot start (right_of n c b l up) r))
]

-- The place is on the side of its parent that a comparison with the parent gives.
unfoldable pub Aligned : (start : ℕ) → Above → Type 0
Aligned start (top base) = Unit
Aligned start (left_of n c b r up) = ltb start b.start ≡ true
Aligned start (right_of n c b l up) = ltb start b.start ≡ false

pub spot-Aligned :
    (start : ℕ) (up : Above) (s : Painted) → Aligned start up → Aligned start (spot start up s)
unfolding spot Aligned
spot-Aligned start up tip h = h
spot-Aligned start up (fork n c b l r) h = elim (Bool-cases (ltb start b.start)) [
  | inl y ↦ rw y (spot-Aligned start (left_of n c b r up) l y)
  | inr k ↦ rw k (spot-Aligned start (right_of n c b l up) r k)
]

descend-step :
    (t : Tree) (start end q k l r n : ℕ) (a : VmArea)
    → k ≢ 0
    → (t.nodes k).area ≡ a
    → (t.nodes k).left ≡ l
    → (t.nodes k).right ≡ r
    → descend t start end q k (suc n) ≡ (
        if ltb start a.end && ltb a.start end
        then none
        else descend t start end k (if ltb start a.start then l else r) n)
unfolding descend
descend-step t start end q k l r n a z e f g =
    let set : k == 0 ≡ false = ground (arith, z) in rw (set, e, f, g) refl

accepted_branch :
    (b : Bool) (o : Option ℕ)
    → refused (if b then none else o) ≡ false
    → ((if b then none else o) ≡ o) × (refused o ≡ false)
unfolding refused
accepted_branch true o e = absurd (ground (arith, e))
accepted_branch false o e = (refl, e)

-- An accepted way down ends at the parent of the place.
pub descend-spot :
    (t : Tree) (start end n : ℕ) (up : Above) (s : Painted)
    → Stored t.nodes (holder up) s
    → size (shape s) < n
    → refused (descend t start end (holder up) (top_of s) n) ≡ false
    → descend t start end (holder up) (top_of s) n ≡ some (holder (spot start up s))
unfolding descend spot Stored size shape top_of holder refused
descend-spot t start end zero up s f h e = absurd (omega (arith, h))
descend-spot t start end (suc n) up tip f h e = refl
descend-spot t start end (suc n) up (fork k c a l r) f h e =
    let step =
      descend-step t start end (holder up) k (top_of l) (top_of r) n a f.0
        (ap (λ (m : Node). m.area) f.1) (ap (λ (m : Node). m.left) f.1)
        (ap (λ (m : Node). m.right) f.1) in
    let went = ap (λ (o : Option ℕ). refused o) (sym step) ∙ e in
    let next : Bool → ℕ = λ b. if b then top_of l else top_of r in
    let rest = descend t start end k (next (ltb start a.start)) n in
    let b = accepted_branch (ltb start a.end && ltb a.start end) rest went in
    step ∙ b.0 ∙ elim (Bool-cases (ltb start a.start)) [
      | inl y ↦ rw y (
          descend-spot t start end n (left_of k c a r up) l f.2 (omega (arith, h))
            (subst (λ (x : Bool). refused (descend t start end k (next x) n) ≡ false) y b.1))
      | inr z ↦ rw z (
          descend-spot t start end n (right_of k c a l up) r f.3 (omega (arith, h))
            (subst (λ (x : Bool). refused (descend t start end k (next x) n) ≡ false) z b.1))
    ]

pub Stored-Forms :
    (m : ℕ → Node) (q : ℕ) (s : Painted) → Stored m q s → Forms m (top_of s) (shape s)
unfolding Stored Forms top_of shape
Stored-Forms m q tip f = refl
Stored-Forms m q (fork n c a l r) f = (
  refl,
  f.0,
  ap (λ (k : Node). k.area) f.1,
  subst (λ (p : ℕ). Forms m p (shape l)) (sym (ap (λ (k : Node). k.left) f.1))
      (Stored-Forms m n l f.2),
  subst (λ (p : ℕ). Forms m p (shape r)) (sym (ap (λ (k : Node). k.right) f.1))
      (Stored-Forms m n r f.3),
)

-- From the whole tree to an inner one.
pub unplug-Located :
    (t : Tree) (up : Above) (s : Painted)
    → Located t (top (outside up)) (plug up s)
    → Located t up s
unfolding plug outside
unplug-Located t (top base) s v = v
unplug-Located t (left_of n c a r up) s v =
    to_left t up n c a s r (unplug-Located t up (fork n c a s r) v)
unplug-Located t (right_of n c a l up) s v =
    to_right t up n c a l s (unplug-Located t up (fork n c a l s) v)

pub unplug-Fits :
    (up : Above) (s : Painted) (h : ℕ)
    → Dark (plug up s)
    → Balanced (plug up s) h
    → (k : ℕ) × Balanced s k × Fits up k × (Dark s ⊎ DarkAbove up)
unfolding plug Balanced Fits Dark DarkAbove
unplug-Fits (top base) s h d b = (h, b, tt, inl d)
unplug-Fits (left_of n c a r up) s h d b = left n c a r up s (unplug-Fits up (fork n c a s r) h d b)
  where
    left :
        (n : ℕ) (c : Bool) (a : VmArea) (r : Painted) (up : Above) (s : Painted)
        → ((k : ℕ) × Balanced (fork n c a s r) k
            × Fits up k
            × (Dark (fork n c a s r) ⊎ DarkAbove up))
        → (k : ℕ) × Balanced s k
          × Fits (left_of n c a r up) k
          × (Dark s ⊎ DarkAbove (left_of n c a r up))
    left n true a r up s (k, b, f, inl e) = absurd e
    left n true a r up s (k, b, f, inr e) = (k, b.2, (b.1, b.3, e, f), inl b.0)
    left n false a r up s (zero, b, f, e) = absurd b
    left n false a r up s (suc k, b, f, e) = (k, b.0, (b.1, f), inr tt)
unplug-Fits (right_of n c a l up) s h d b =
    right n c a l up s (unplug-Fits up (fork n c a l s) h d b)
  where
    right :
        (n : ℕ) (c : Bool) (a : VmArea) (l : Painted) (up : Above) (s : Painted)
        → ((k : ℕ) × Balanced (fork n c a l s) k
            × Fits up k
            × (Dark (fork n c a l s) ⊎ DarkAbove up))
        → (k : ℕ) × Balanced s k
          × Fits (right_of n c a l up) k
          × (Dark s ⊎ DarkAbove (right_of n c a l up))
    right n true a l up s (k, b, f, inl e) = absurd e
    right n true a l up s (k, b, f, inr e) = (k, b.3, (b.0, b.2, e, f), inl b.1)
    right n false a l up s (zero, b, f, e) = absurd b
    right n false a l up s (suc k, b, f, e) = (k, b.1, (b.0, f), inr tt)

-- The place is below the same node, whatever the tree leaves as it is.
pub spot-holder :
    (start : ℕ) (up up1 : Above) (s : Painted)
    → holder up ≡ holder up1
    → holder (spot start up s) ≡ holder (spot start up1 s)
unfolding spot holder
spot-holder start up up1 tip e = e
spot-holder start up up1 (fork n c b l r) e = elim (Bool-cases (ltb start b.start)) [
  | inl y ↦ rw y (spot-holder start (left_of n c b r up) (left_of n c b r up1) l refl)
  | inr k ↦ rw k (spot-holder start (right_of n c b l up) (right_of n c b l up1) r refl)
]
