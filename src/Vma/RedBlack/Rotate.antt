-- ===== src/Vma/RedBlack/Rotate.antt =====
-- What the rotations do to the tree in the store.
use mathlib.Core.Path.{subst}
use my_microkernel.Prelude.{
  ℕ, ◌+◌, ◌≤◌, ◌≡◌, ◌≢◌, sym, ap, ◌∙◌, arith, Bool, update_self, update_ne,
}
use my_microkernel.Vma.Area.{VmArea}
use my_microkernel.Vma.RedBlack.{Node, Tree, set_parent, set_left, set_right, rotate_left}
use my_microkernel.Vma.RedBlack.Painted.{
  Painted, fork, Above, top_of, holder, summit, Stored, Around, hit, hits, hits_above, Located,
  hit_self, hit_zero, Stored-agree, Around-agree, Stored-update, Around-update, top_of-ne, hits-nil,
  hits_above-nil,
}
use my_microkernel.Vma.RedBlack.Steps.{
  adopted, hung, lower, turned, rotate_left-turned, adopted-other, adopted-root, adopted-Stored,
  hung-other, hung-Around, hung-root, turned-kept,
}

-- The nodes away from the rotation.
turned-other :
    (t : Tree) (x y n : ℕ) (s : Painted) (up : Above)
    → x ≢ n
    → y ≢ n
    → hits n s ≡ 0
    → hits_above n up ≡ 0
    → (turned t x y (top_of s) (holder up)).nodes n ≡ t.nodes n
unfolding turned lower
turned-other t x y n s up dx dy hs hu =
    let b = top_of s in
    let p = holder up in
    let t1 = set_right t x b in
    let t2 = adopted t1 b x in
    let t3 = set_parent t2 y p in
    let t4 = hung t3 p x y in
    let t5 = set_left t4 y x in
    update_ne t5.nodes x n (record (t5.nodes x) { parent = y }) dx
    ∙ update_ne t4.nodes y n (record (t4.nodes y) { left = x }) dy
    ∙ hung-other t3 up x y n hu
    ∙ update_ne t2.nodes y n (record (t2.nodes y) { parent = p }) dy
    ∙ adopted-other t1 s x n hs
    ∙ update_ne t.nodes x n (record (t.nodes x) { right = b }) dx

-- The node that goes down, and the one that comes up.
turned-x :
    (t : Tree) (x y : ℕ) (s : Painted) (up : Above)
    → y ≢ x
    → hits x s ≡ 0
    → hits_above x up ≡ 0
    → (turned t x y (top_of s) (holder up)).nodes x
      ≡ (record (t.nodes x) { right = top_of s; parent = y })
unfolding turned lower
turned-x t x y s up d hs hu =
    let b = top_of s in
    let p = holder up in
    let t1 = set_right t x b in
    let t2 = adopted t1 b x in
    let t3 = set_parent t2 y p in
    let t4 = hung t3 p x y in
    let t5 = set_left t4 y x in
    update_self t5.nodes x (record (t5.nodes x) { parent = y })
    ∙ ap (λ (n : Node). record n { parent = y })
        (update_ne t4.nodes y x (record (t4.nodes y) { left = x }) d
          ∙ hung-other t3 up x y x hu
          ∙ update_ne t2.nodes y x (record (t2.nodes y) { parent = p }) d
          ∙ adopted-other t1 s x x hs
          ∙ update_self t.nodes x (record (t.nodes x) { right = b }))

turned-y :
    (t : Tree) (x y : ℕ) (s : Painted) (up : Above)
    → x ≢ y
    → hits y s ≡ 0
    → hits_above y up ≡ 0
    → (turned t x y (top_of s) (holder up)).nodes y
      ≡ (record (t.nodes y) { parent = holder up; left = x })
unfolding turned lower
turned-y t x y s up d hs hu =
    let b = top_of s in
    let p = holder up in
    let t1 = set_right t x b in
    let t2 = adopted t1 b x in
    let t3 = set_parent t2 y p in
    let t4 = hung t3 p x y in
    let t5 = set_left t4 y x in
    update_ne t5.nodes x y (record (t5.nodes x) { parent = y }) d
    ∙ update_self t4.nodes y (record (t4.nodes y) { left = x })
    ∙ ap (λ (n : Node). record n { left = x })
        (hung-other t3 up x y y hu
          ∙ update_self t2.nodes y (record (t2.nodes y) { parent = p })
          ∙ ap (λ (n : Node). record n { parent = p })
              (adopted-other t1 s x y hs
                ∙ update_ne t.nodes x y (record (t.nodes x) { right = b }) d))

-- The tree between the two nodes, and what lies above.
turned-Stored :
    (t : Tree) (x y : ℕ) (s : Painted) (up : Above)
    → hits x s ≡ 0
    → hits y s ≡ 0
    → ((n : ℕ) → hits n s + hits_above n up ≤ 1)
    → Stored t.nodes y s
    → Stored (turned t x y (top_of s) (holder up)).nodes x s
unfolding turned lower
turned-Stored t x y s up hx hy o f =
    let b = top_of s in
    let p = holder up in
    let t1 = set_right t x b in
    let t2 = adopted t1 b x in
    let t3 = set_parent t2 y p in
    let t4 = hung t3 p x y in
    let t5 = set_left t4 y x in
    Stored-update t5.nodes x x (record (t5.nodes x) { parent = y }) s hx
      (Stored-update t4.nodes y x (record (t4.nodes y) { left = x }) s hy
        (Stored-agree t3.nodes t4.nodes x s (λ n q. hung-other t3 up x y n (omega (arith, o n, q)))
          (Stored-update t2.nodes y x (record (t2.nodes y) { parent = p }) s hy
            (adopted-Stored t1 y x s (λ n. omega (arith, o n))
              (Stored-update t.nodes x y (record (t.nodes x) { right = b }) s hx f)))))

turned-Around :
    (t : Tree) (x y : ℕ) (s : Painted) (up : Above)
    → x ≢ 0
    → hits_above x up ≡ 0
    → hits_above y up ≡ 0
    → ((n : ℕ) → hits n s + hits_above n up ≤ 1)
    → Around t.nodes x up
    → t.root ≡ summit up x
    → Around (turned t x y (top_of s) (holder up)).nodes y up
      × ((turned t x y (top_of s) (holder up)).root ≡ summit up y)
unfolding turned lower
turned-Around t x y s up z hx hy o f e =
    let b = top_of s in
    let p = holder up in
    let t1 = set_right t x b in
    let t2 = adopted t1 b x in
    let t3 = set_parent t2 y p in
    let t4 = hung t3 p x y in
    let t5 = set_left t4 y x in
    let before : Around t3.nodes x up =
      Around-update t2.nodes y x (record (t2.nodes y) { parent = p }) up hy
        (Around-agree t1.nodes t2.nodes x up (λ n q. adopted-other t1 s x n (omega (arith, o n, q)))
          (Around-update t.nodes x x (record (t.nodes x) { right = b }) up hx f)) in
    (
      Around-update t5.nodes x y (record (t5.nodes x) { parent = y }) up hx
          (Around-update t4.nodes y y (record (t4.nodes y) { left = x }) up hy
            (hung-Around t3 up x y z hx (λ n. omega (arith, o n)) before)),
      hung-root t3 up x y x before (adopted-root t1 b x ∙ e),
    )

-- The node `x` with the right child `y`, and what a left rotation makes of them.
abbrev pub leaning :
    (x : ℕ) (c : Bool) (ax : VmArea) (y : ℕ) (d : Bool) (ay : VmArea) (a b r : Painted) → Painted
leaning x c ax y d ay a b r = fork x c ax a (fork y d ay b r)

pub rotate_left-Located :
    (t : Tree) (up : Above) (x : ℕ) (c : Bool) (ax : VmArea) (y : ℕ) (d : Bool) (ay : VmArea)
    (a b r : Painted)
    → Located t up (fork x c ax a (fork y d ay b r))
    → Located (rotate_left t x) up (fork y d ay (fork x c ax a b) r)
unfolding Stored hits top_of
rotate_left-Located t up x c ax y d ay a b r l =
    let f = l.inner in
    let o = l.once in
    let ox = hit_self x in
    let oy = hit_self y in
    let hxb : hits x b ≡ 0 = omega (arith, o x, ox) in
    let hyb : hits y b ≡ 0 = omega (arith, o y, oy) in
    let hxu : hits_above x up ≡ 0 = omega (arith, o x, ox) in
    let hyu : hits_above y up ≡ 0 = omega (arith, o y, oy) in
    let xy : x ≢ y = hit_zero x y (omega (arith, o x, ox)) in
    let yx : y ≢ x = λ e. xy (sym e) in
    let nx = f.1 in
    let ny = f.3.1 in
    let u = turned t x y (top_of b) (holder up) in
    let above = turned-Around t x y b up f.0 hxu hyu (λ n. omega (arith, o n)) l.outer l.root in
    let kept = turned-kept t x y (top_of b) (holder up) in
    let same : rotate_left t x ≡ u =
      rotate_left-turned t x y (top_of b) (holder up) xy (top_of-ne x b f.0 hxb)
        (ap (λ (n : Node). n.right) nx) (ap (λ (n : Node). n.left) ny)
        (ap (λ (n : Node). n.parent) nx) in
    let away : (n : ℕ)
        → hit n x ≡ 0
        → hit n y ≡ 0
        → hits n b ≡ 0
        → hits_above n up ≡ 0
        → u.nodes n ≡ t.nodes n =
      λ n p q.
        turned-other t x y n b up (λ e. hit_zero n x p (sym e)) (λ e. hit_zero n y q (sym e)) in
    let part : (k : ℕ) (s : Painted)
        → ((n : ℕ) → hit n x + hit n y + hits n b + hits n s + hits_above n up ≤ 1)
        → Stored t.nodes k s
        → Stored u.nodes k s =
      λ k s h. Stored-agree t.nodes u.nodes k s (λ n p.
        away n (omega (arith, p, h n)) (omega (arith, p, h n)) (omega (arith, p, h n))
          (omega (arith, p, h n))) in
    subst (λ (v : Tree). Located v up (fork y d ay (fork x c ax a b) r)) (sym same)
      (record {
        inner = (
          f.3.0,
          turned-y t x y b up xy hyb hyu
              ∙ ap (λ (n : Node). record n { parent = holder up; left = x }) ny,
          (
            f.0,
            turned-x t x y b up yx hxb hxu
                ∙ ap (λ (n : Node). record n { right = top_of b; parent = y }) nx,
            part x a (λ n. omega (arith, o n)) f.2,
            turned-Stored t x y b up hxb hyb (λ n. omega (arith, o n)) f.3.2,
          ),
          part y r (λ n. omega (arith, o n)) f.3.3,
        );
        outer = above.0;
        root = above.1;
        once = λ n. omega (arith, o n);
        sentinel =
            ap (λ (n : Node). n.color)
              (turned-other t x y 0 b up f.0 f.3.0 (hits-nil t.nodes y b f.3.2)
                (hits_above-nil t.nodes x up l.outer))
            ∙ l.sentinel;
        others = λ n p q.
            away n (omega (arith, p)) (omega (arith, p)) (omega (arith, p)) q
            ∙ l.others n (omega (arith, p)) q;
        free = kept.0 ∙ l.free;
        counted = kept.1 ∙ l.counted;
      })
