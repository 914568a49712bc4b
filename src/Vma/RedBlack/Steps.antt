-- ===== src/Vma/RedBlack/Steps.antt =====
-- The steps of the rotations, one by one, on the tree in the store.
use mathlib.Core.Path.{subst}
use my_microkernel.Prelude.{
  ℕ, ◌≤◌, ◌≡◌, ◌≢◌, refl, sym, ap, ◌∙◌, arith, ◌==◌, if◌then◌else◌, true, false, update_self,
  update_ne, ℕ_discrete, Bool-cases, inl, inr,
}
use my_microkernel.Vma.RedBlack.{Node, Tree, nil, set_parent, set_left, set_right, rotate_left}
use my_microkernel.Vma.RedBlack.Painted.{
  Painted, tip, fork, Above, top, left_of, right_of, top_of, holder, summit, Stored, Around, hit,
  hits, hits_above, hit_self, hit_zero, Stored-update, Around-update, top_of-ne,
}

-- The steps of a rotation: a tree gets another parent, and a node another child.
unfoldable pub adopted : Tree → (l x : ℕ) → Tree
adopted t l x = if l == nil then t else set_parent t l x

unfoldable pub hung : Tree → (q x y : ℕ) → Tree
hung t q x y =
    if q == nil
    then record t { root = y }
    else if x == (t.nodes q).left
    then set_left t q y
    else set_right t q y

-- `rotate_left` from its later steps on, with the pointer that each one reads as an argument.
unfoldable pub lower : Tree → (x y p : ℕ) → Tree
lower t x y p = set_parent (set_left (hung t p x y) y x) x y

unfoldable give_parent : Tree → (x y p : ℕ) → Tree
give_parent t x y p = let t1 = set_parent t y p in lower t1 x y (t1.nodes x).parent

unfoldable give_child : Tree → (x y l : ℕ) → Tree
give_child t x y l = let t1 = adopted t l x in give_parent t1 x y (t1.nodes x).parent

unfoldable give_right : Tree → (x y b : ℕ) → Tree
give_right t x y b = let t1 = set_right t x b in give_child t1 x y (t1.nodes y).left

adopted-parent :
    (t : Tree) (l x : ℕ) → l ≢ x → ((adopted t l x).nodes x).parent ≡ (t.nodes x).parent
unfolding adopted
adopted-parent t l x d = elim (ℕ_discrete l 0) [
  | yes z ↦ let e : l == 0 ≡ true = ground (arith, z) in rw e refl
  | no z ↦
      let e : l == 0 ≡ false = ground (arith, z) in
      let f : l == x ≡ false = ground (arith, d) in rw (e, f) refl
]

-- The store after a rotation of `x` with the child `y`.
unfoldable pub turned : Tree → (x y b p : ℕ) → Tree
turned t x y b p = lower (set_parent (adopted (set_right t x b) b x) y p) x y p

pub rotate_left-turned :
    (t : Tree) (x y b p : ℕ)
    → x ≢ y
    → b ≢ x
    → (t.nodes x).right ≡ y
    → (t.nodes y).left ≡ b
    → (t.nodes x).parent ≡ p
    → rotate_left t x ≡ turned t x y b p
unfolding rotate_left turned adopted hung lower give_parent give_child give_right
rotate_left-turned t x y b p d e r l q =
    let t1 = set_right t x b in
    let t2 = adopted t1 b x in
    let up : (t2.nodes x).parent ≡ p =
      adopted-parent t1 b x e
      ∙ ap (λ (n : Node). n.parent) (update_self t.nodes x (record (t.nodes x) { right = b }))
      ∙ q in
    ap (λ (k : ℕ). give_right t x k (t.nodes k).left) r
    ∙ ap (λ (k : ℕ). give_right t x y k) l
    ∙ ap (λ (k : ℕ). give_child t1 x y k)
        (ap (λ (n : Node). n.left) (update_ne t.nodes x y (record (t.nodes x) { right = b }) d) ∙ l)
    ∙ ap (λ (k : ℕ). give_parent t2 x y k) up
    ∙ ap (λ (k : ℕ). lower (set_parent t2 y p) x y k)
        (ap (λ (n : Node). n.parent)
            (update_ne t2.nodes y x (record (t2.nodes y) { parent = p }) (λ c. d (sym c)))
          ∙ up)

pub adopted-other :
    (t : Tree) (s : Painted) (x n : ℕ) → hits n s ≡ 0 → (adopted t (top_of s) x).nodes n ≡ t.nodes n
unfolding adopted hits top_of
adopted-other t tip x n h = refl
adopted-other t (fork k c a l r) x n h =
    let d : k ≢ n = λ e. hit_zero n k (omega (arith, h)) (sym e) in
    elim (ℕ_discrete k 0) [
      | yes z ↦ let e : k == 0 ≡ true = ground (arith, z) in rw e refl
      | no z ↦
          let e : k == 0 ≡ false = ground (arith, z) in
          rw e (update_ne t.nodes k n (record (t.nodes k) { parent = x }) d)
    ]

pub adopted-root : (t : Tree) (l x : ℕ) → (adopted t l x).root ≡ t.root
unfolding adopted
adopted-root t l x = elim (Bool-cases (l == 0)) [ inl e ↦ rw e refl | inr e ↦ rw e refl ]

adopted-set : (t : Tree) (n x : ℕ) → n ≢ 0 → adopted t n x ≡ set_parent t n x
unfolding adopted
adopted-set t n x z = let e : n == 0 ≡ false = ground (arith, z) in rw e refl

pub adopted-Stored :
    (t : Tree) (q x : ℕ) (s : Painted)
    → ((n : ℕ) → hits n s ≤ 1)
    → Stored t.nodes q s
    → Stored (adopted t (top_of s) x).nodes x s
unfolding hits top_of Stored
adopted-Stored t q x tip o f = tt
adopted-Stored t q x (fork n c a l r) o f =
    let v : Node = record (t.nodes n) { parent = x } in
    let own : hit n n ≡ 1 = hit_self n in
    subst (λ (u : Tree). Stored u.nodes x (fork n c a l r)) (sym (adopted-set t n x f.0))
      (
        f.0,
        update_self t.nodes n v ∙ ap (λ (k : Node). record k { parent = x }) f.1,
        Stored-update t.nodes n n v l (omega (arith, o n, own)) f.2,
        Stored-update t.nodes n n v r (omega (arith, o n, own)) f.3,
      )

pub hung-other :
    (t : Tree) (up : Above) (x y n : ℕ)
    → hits_above n up ≡ 0
    → (hung t (holder up) x y).nodes n ≡ t.nodes n
unfolding hung hits_above holder
hung-other t (top base) x y n h = refl
hung-other t (left_of k c a r up) x y n h =
    let d : k ≢ n = λ e. hit_zero n k (omega (arith, h)) (sym e) in ground (arith, d)
hung-other t (right_of k c a l up) x y n h =
    let d : k ≢ n = λ e. hit_zero n k (omega (arith, h)) (sym e) in ground (arith, d)

hung-left : (t : Tree) (n x y : ℕ) → n ≢ 0 → x ≡ (t.nodes n).left → hung t n x y ≡ set_left t n y
unfolding hung
hung-left t n x y z s =
    let e : n == 0 ≡ false = ground (arith, z) in
    let f : x == (t.nodes n).left ≡ true = ground (arith, s) in rw (e, f) refl

hung-right : (t : Tree) (n x y : ℕ) → n ≢ 0 → x ≢ (t.nodes n).left → hung t n x y ≡ set_right t n y
unfolding hung
hung-right t n x y z s =
    let e : n == 0 ≡ false = ground (arith, z) in
    let f : x == (t.nodes n).left ≡ false = ground (arith, s) in rw (e, f) refl

pub hung-Around :
    (t : Tree) (up : Above) (x y : ℕ)
    → x ≢ 0
    → hits_above x up ≡ 0
    → ((n : ℕ) → hits_above n up ≤ 1)
    → Around t.nodes x up
    → Around (hung t (holder up) x y).nodes y up
unfolding hits_above holder Around
hung-Around t (top base) x y z h o f = tt
hung-Around t (left_of n c a r up) x y z h o f =
    let v : Node = record (t.nodes n) { left = y } in
    let own : hit n n ≡ 1 = hit_self n in
    let side : x ≡ (t.nodes n).left = sym (ap (λ (k : Node). k.left) f.1) in
    subst (λ (u : Tree). Around u.nodes y (left_of n c a r up)) (sym (hung-left t n x y f.0 side))
      (
        f.0,
        update_self t.nodes n v ∙ ap (λ (k : Node). record k { left = y }) f.1,
        Stored-update t.nodes n n v r (omega (arith, o n, own)) f.2,
        Around-update t.nodes n n v up (omega (arith, o n, own)) f.3,
      )
hung-Around t (right_of n c a l up) x y z h o f =
    let v : Node = record (t.nodes n) { right = y } in
    let own : hit n n ≡ 1 = hit_self n in
    let d : top_of l ≢ x = top_of-ne x l z (omega (arith, h)) in
    let side : x ≢ (t.nodes n).left = λ e. d (sym (e ∙ ap (λ (k : Node). k.left) f.1)) in
    subst (λ (u : Tree). Around u.nodes y (right_of n c a l up)) (sym (hung-right t n x y f.0 side))
      (
        f.0,
        update_self t.nodes n v ∙ ap (λ (k : Node). record k { right = y }) f.1,
        Stored-update t.nodes n n v l (omega (arith, o n, own)) f.2,
        Around-update t.nodes n n v up (omega (arith, o n, own)) f.3,
      )

pub hung-root :
    (t : Tree) (up : Above) (x y p : ℕ)
    → Around t.nodes p up
    → t.root ≡ summit up x
    → (hung t (holder up) x y).root ≡ summit up y
unfolding hung holder summit Around
hung-root t (top base) x y p f e = refl
hung-root t (left_of n c a r up) x y p f e =
    let z : n == 0 ≡ false = ground (arith, f.0) in
    elim (Bool-cases (x == (t.nodes n).left)) [ inl s ↦ rw (z, s) e | inr s ↦ rw (z, s) e ]
hung-root t (right_of n c a l up) x y p f e =
    let z : n == 0 ≡ false = ground (arith, f.0) in
    elim (Bool-cases (x == (t.nodes n).left)) [ inl s ↦ rw (z, s) e | inr s ↦ rw (z, s) e ]

hung-kept :
    (t : Tree) (q x y : ℕ)
    → ((hung t q x y).free_head ≡ t.free_head) × ((hung t q x y).count ≡ t.count)
unfolding hung
hung-kept t q x y = elim (Bool-cases (q == nil)) [
  | inl e ↦ rw e (refl, refl)
  | inr e ↦ elim (Bool-cases (x == (t.nodes q).left)) [
    | inl f ↦ rw (e, f) (refl, refl)
    | inr f ↦ rw (e, f) (refl, refl)
  ]
]

-- What a rotation leaves as it is.
pub turned-kept :
    (t : Tree) (x y b p : ℕ)
    → ((turned t x y b p).free_head ≡ t.free_head) × ((turned t x y b p).count ≡ t.count)
unfolding turned lower adopted
turned-kept t x y b p =
    let t3 = set_parent (adopted (set_right t x b) b x) y p in
    let k = hung-kept t3 p x y in
    elim (Bool-cases (b == 0)) [
      | inl e ↦ (k.0 ∙ rw e refl, k.1 ∙ rw e refl)
      | inr e ↦ (k.0 ∙ rw e refl, k.1 ∙ rw e refl)
    ]
