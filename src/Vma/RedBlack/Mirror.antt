-- ===== src/Vma/RedBlack/Mirror.antt =====
-- The mirrored store: left and right change places, and the routines for the two sides with them.
use mathlib.Core.Path.{fun_ext}
use my_microkernel.Prelude.{
  ℕ, ◌≡◌, refl, sym, ap, ◌∙◌, ◌==◌, if◌then◌else◌, update, Bool-cases, inl, inr,
}
use my_microkernel.Vma.RedBlack.{
  Node, Tree, nil, set_color, set_parent, set_left, set_right, rotate_left, rotate_right,
}

abbrev pub flip : Node → Node
flip n = record n { left = n.right; right = n.left }

abbrev pub mirror : Tree → Tree
mirror t = record t { nodes = λ n. flip (t.nodes n) }

-- A store in the mirror.
flip-update :
    (m : ℕ → Node) (n : ℕ) (v w : Node)
    → flip v ≡ w
    → update (λ (k : ℕ). flip (m k)) n w ≡ (λ (k : ℕ). flip (update m n v k))
flip-update m n v w e =
    fun_ext λ k. elim (Bool-cases (n == k)) [ inl y ↦ rw y (sym e) | inr z ↦ rw z refl ]

pub mirror-set_left : (t : Tree) (n l : ℕ) → set_left (mirror t) n l ≡ mirror (set_right t n l)
mirror-set_left t n l =
    ap (λ (m : ℕ → Node). record t { nodes = m })
      (flip-update t.nodes n (record (t.nodes n) { right = l })
        (record (flip (t.nodes n)) { left = l }) refl)

pub mirror-set_right : (t : Tree) (n r : ℕ) → set_right (mirror t) n r ≡ mirror (set_left t n r)
mirror-set_right t n r =
    ap (λ (m : ℕ → Node). record t { nodes = m })
      (flip-update t.nodes n (record (t.nodes n) { left = r })
        (record (flip (t.nodes n)) { right = r }) refl)

pub mirror-set_parent : (t : Tree) (n p : ℕ) → set_parent (mirror t) n p ≡ mirror (set_parent t n p)
mirror-set_parent t n p =
    ap (λ (m : ℕ → Node). record t { nodes = m })
      (flip-update t.nodes n (record (t.nodes n) { parent = p })
        (record (flip (t.nodes n)) { parent = p }) refl)

pub mirror-set_color : (t : Tree) (n c : ℕ) → set_color (mirror t) n c ≡ mirror (set_color t n c)
mirror-set_color t n c =
    ap (λ (m : ℕ → Node). record t { nodes = m })
      (flip-update t.nodes n (record (t.nodes n) { color = c })
        (record (flip (t.nodes n)) { color = c }) refl)

-- `rotate_right` from its later steps on.
unfoldable hang_right : Tree → (x y : ℕ) → Tree
hang_right t x y =
    let q = (t.nodes x).parent in
    if q == nil
    then record t { root = y }
    else if x == (t.nodes q).right
    then set_right t q y
    else set_left t q y

unfoldable hang_left : Tree → (x y : ℕ) → Tree
hang_left t x y =
    let q = (t.nodes x).parent in
    if q == nil
    then record t { root = y }
    else if x == (t.nodes q).left
    then set_left t q y
    else set_right t q y

hang-mirror : (t : Tree) (x y : ℕ) → hang_right (mirror t) x y ≡ mirror (hang_left t x y)
unfolding hang_right hang_left
hang-mirror t x y =
    let q = (t.nodes x).parent in
    elim (Bool-cases (q == nil)) [
      | inl e ↦ rw e refl
      | inr e ↦ elim (Bool-cases (x == (t.nodes q).left)) [
        | inl f ↦ rw (e, f) (mirror-set_right t q y)
        | inr f ↦ rw (e, f) (mirror-set_left t q y)
      ]
    ]

unfoldable adopt : Tree → (l x : ℕ) → Tree
adopt t l x = if l == nil then t else set_parent t l x

adopt-mirror : (t : Tree) (l x : ℕ) → adopt (mirror t) l x ≡ mirror (adopt t l x)
unfolding adopt
adopt-mirror t l x = elim (Bool-cases (l == nil)) [
  | inl e ↦ rw e refl
  | inr e ↦ rw e (mirror-set_parent t l x)
]

unfoldable lower_right : (x y : ℕ) → Tree → Tree
lower_right x y t = set_parent (set_right t y x) x y

lower-mirror :
    (x y : ℕ) (t : Tree) → lower_right x y (mirror t) ≡ mirror (set_parent (set_left t y x) x y)
unfolding lower_right
lower-mirror x y t =
    ap (λ (u : Tree). set_parent u x y) (mirror-set_right t y x)
    ∙ mirror-set_parent (set_left t y x) x y

unfoldable hang : (x y : ℕ) → Tree → Tree
hang x y t = lower_right x y (hang_right t x y)

unfoldable lift : (x y : ℕ) → Tree → Tree
lift x y t = hang x y (set_parent t y (t.nodes x).parent)

unfoldable link : (x y : ℕ) → Tree → Tree
link x y t = lift x y (adopt t (t.nodes y).right x)

-- `rotate_right` is `rotate_left` in the mirror.
pub rotate_right-mirror : (t : Tree) (x : ℕ) → rotate_right (mirror t) x ≡ mirror (rotate_left t x)
unfolding rotate_right rotate_left hang lift link adopt hang_left hang_right lower_right
rotate_right-mirror t x =
    let y = (t.nodes x).right in
    let t1 = set_right t x (t.nodes y).left in
    let t2 = adopt t1 (t1.nodes y).left x in
    let t3 = set_parent t2 y (t2.nodes x).parent in
    let t4 = hang_left t3 x y in
    ap (link x y) (mirror-set_left t x (t.nodes y).left)
    ∙ ap (lift x y) (adopt-mirror t1 (t1.nodes y).left x)
    ∙ ap (hang x y) (mirror-set_parent t2 y (t2.nodes x).parent)
    ∙ ap (lower_right x y) (hang-mirror t3 x y)
    ∙ lower-mirror x y t4
