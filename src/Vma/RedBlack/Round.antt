-- ===== src/Vma/RedBlack/Round.antt =====
-- A round of `insert_fixup`, its reads of the store one by one.
use my_microkernel.Prelude.{ℕ, ◌≡◌, ◌≢◌, refl, ap, ◌∙◌, arith, ◌==◌, true, false}
use my_microkernel.Vma.RedBlack.{
  Tree, black, red, set_color, rotate_left, rotate_right, parent_of, color_of,
}
use my_microkernel.Vma.RedBlack.Insert.{recolor, insert_left}
use my_microkernel.Vma.RedBlack.Colour.{parent_of-set_color}

-- `recolor` after its first two stores, and after the third.
unfoldable pub report : (z : ℕ) → Tree → Tree × ℕ
report z t = (t, parent_of t (parent_of t z))

unfoldable pub redden : (z : ℕ) → Tree → Tree × ℕ
redden z t = report z (set_color t (parent_of t (parent_of t z)) red)

grandparent-set_color :
    (t : Tree) (n c z p g : ℕ)
    → parent_of t z ≡ p
    → parent_of t p ≡ g
    → parent_of (set_color t n c) (parent_of (set_color t n c) z) ≡ g
grandparent-set_color t n c z p g e f =
    ap (λ (k : ℕ). parent_of (set_color t n c) k) (parent_of-set_color t n c z ∙ e)
    ∙ parent_of-set_color t n c p
    ∙ f

pub recolor-stores :
    (t : Tree) (z u p g : ℕ)
    → parent_of t z ≡ p
    → parent_of t p ≡ g
    → recolor t z u ≡ (set_color (set_color (set_color t p black) u black) g red, g)
unfolding recolor redden report
recolor-stores t z u p g e f =
    let t1 = set_color t p black in
    let t2 = set_color t1 u black in
    let e2 : parent_of t2 z ≡ p =
      parent_of-set_color t1 u black z ∙ parent_of-set_color t p black z ∙ e in
    let f2 : parent_of t2 p ≡ g =
      parent_of-set_color t1 u black p ∙ parent_of-set_color t p black p ∙ f in
    ap (λ (k : ℕ). redden z (set_color (set_color t k black) u black)) e
    ∙ ap (λ (k : ℕ). report z (set_color t2 k red)) (ap (λ (k : ℕ). parent_of t2 k) e2 ∙ f2)
    ∙ ap (λ (k : ℕ). (set_color t2 g red, k)) (grandparent-set_color t2 g red z p g e2 f2)

-- The end of `insert_left` for a black uncle: from the colours on.
unfoldable pub turn_grandparent : (z : ℕ) → Tree → Tree × ℕ
turn_grandparent z t = (rotate_right t (parent_of t (parent_of t z)), z)

unfoldable pub redden_grandparent : (z : ℕ) → Tree → Tree × ℕ
redden_grandparent z t = turn_grandparent z (set_color t (parent_of t (parent_of t z)) red)

unfoldable pub straighten : Tree → ℕ → Tree × ℕ
straighten t z = redden_grandparent z (set_color t (parent_of t z) black)

pub straighten-stores :
    (t : Tree) (z p g : ℕ)
    → parent_of t z ≡ p
    → parent_of t p ≡ g
    → straighten t z ≡ (rotate_right (set_color (set_color t p black) g red) g, z)
unfolding straighten redden_grandparent turn_grandparent
straighten-stores t z p g e f =
    let t1 = set_color t p black in
    let e1 : parent_of t1 z ≡ p = parent_of-set_color t p black z ∙ e in
    let f1 : parent_of t1 p ≡ g = parent_of-set_color t p black p ∙ f in
    ap (λ (k : ℕ). redden_grandparent z (set_color t k black)) e
    ∙ ap (λ (k : ℕ). turn_grandparent z (set_color t1 k red))
        (grandparent-set_color t p black z p g e f)
    ∙ ap (λ (k : ℕ). (rotate_right (set_color t1 g red) k, z))
        (grandparent-set_color t1 g red z p g e1 f1)

-- The three cases of `insert_left`.
pub insert_left-recolor :
    (t : Tree) (z : ℕ)
    → color_of t (t.nodes (parent_of t (parent_of t z))).right ≡ red
    → insert_left t z ≡ recolor t z (t.nodes (parent_of t (parent_of t z))).right
unfolding insert_left
insert_left-recolor t z e =
    let c : color_of t (t.nodes (parent_of t (parent_of t z))).right == red ≡ true =
      ground (arith, e) in
    rw c refl

pub insert_left-outer :
    (t : Tree) (z : ℕ)
    → color_of t (t.nodes (parent_of t (parent_of t z))).right ≢ red
    → z ≢ (t.nodes (parent_of t z)).right
    → insert_left t z ≡ straighten t z
unfolding insert_left straighten redden_grandparent turn_grandparent
insert_left-outer t z e f =
    let c : color_of t (t.nodes (parent_of t (parent_of t z))).right == red ≡ false =
      ground (arith, e) in
    let d : z == (t.nodes (parent_of t z)).right ≡ false = ground (arith, f) in rw (c, d) refl

pub insert_left-inner :
    (t : Tree) (z : ℕ)
    → color_of t (t.nodes (parent_of t (parent_of t z))).right ≢ red
    → z ≡ (t.nodes (parent_of t z)).right
    → insert_left t z ≡ straighten (rotate_left t (parent_of t z)) (parent_of t z)
unfolding insert_left straighten redden_grandparent turn_grandparent
insert_left-inner t z e f =
    let c : color_of t (t.nodes (parent_of t (parent_of t z))).right == red ≡ false =
      ground (arith, e) in
    let d : z == (t.nodes (parent_of t z)).right ≡ true = ground (arith, f) in rw (c, d) refl
