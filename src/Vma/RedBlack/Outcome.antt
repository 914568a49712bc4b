-- ===== src/Vma/RedBlack/Outcome.antt =====
-- What a round of `insert_fixup` leaves in the store.
use mathlib.Core.Path.{subst}
use mathlib.Core.List.{reverse, append_assoc}
use my_microkernel.Prelude.{
  ℕ, suc, ◌≡◌, refl, sym, ap, ◌∙◌, arith, Bool, true, false, ◌∷◌, ◌⊎◌, inl, inr,
}
use my_microkernel.Vma.Area.{VmArea}
use my_microkernel.Vma.RedBlack.{
  Tree, black, red, set_color, rotate_left, rotate_right, parent_of, color_of,
}
use my_microkernel.Vma.RedBlack.Insert.{recolor}
use my_microkernel.Vma.RedBlack.Shape.{areas}
use my_microkernel.Vma.RedBlack.Painted.{
  Painted, fork, Above, left_of, right_of, paint, shape, top_of, holder, hits, Located,
}
use my_microkernel.Vma.RedBlack.Colour.{
  to_left, from_left, to_right, from_right, set_color-Located, Located-parent, Located-color,
}
use my_microkernel.Vma.RedBlack.Reflect.{
  mirrored, mirrored_above, mirrored_twice, mirrored_above_twice, top_of-mirrored, Located-mirrored,
  areas-mirrored, hits-mirrored,
}
use my_microkernel.Vma.RedBlack.Balance.{
  Red, Dark, Balanced, Dark-mirrored, Red-mirrored, Balanced-mirrored,
}
use my_microkernel.Vma.RedBlack.Mirror.{mirror}
use my_microkernel.Vma.RedBlack.Rotate.{rotate_left-Located}
use my_microkernel.Vma.RedBlack.Round.{recolor-stores, straighten, straighten-stores}
use my_microkernel.Vma.RedBlack.Sides.{mirror_round, rotate_left-mirror}

-- Back from the mirror.
Located-mirror_back :
    (t : Tree) (up : Above) (s : Painted)
    → Located (mirror t) (mirrored_above up) s
    → Located t up (mirrored s)
Located-mirror_back t up s l =
    subst (λ (a : Above). Located t a (mirrored s)) (mirrored_above_twice up)
      (Located-mirrored (mirror t) (mirrored_above up) s l)

pub rotate_right-Located :
    (t : Tree) (up : Above) (x : ℕ) (c : Bool) (ax : VmArea) (y : ℕ) (d : Bool) (ay : VmArea)
    (a b r : Painted)
    → Located t up (fork x c ax (fork y d ay a b) r)
    → Located (rotate_right t x) up (fork y d ay a (fork x c ax b r))
unfolding mirrored
rotate_right-Located t up x c ax y d ay a b r l =
    let turned : Located (mirror (rotate_right t x)) (mirrored_above up)
        (mirrored (fork y d ay a (fork x c ax b r))) =
      subst
        (λ (u : Tree). Located u (mirrored_above up) (mirrored (fork y d ay a (fork x c ax b r))))
        (rotate_left-mirror t x)
        (rotate_left-Located (mirror t) (mirrored_above up) x c ax y d ay (mirrored r) (mirrored b)
          (mirrored a) (Located-mirrored t up (fork x c ax (fork y d ay a b) r) l)) in
    subst (Located (rotate_right t x) up) (mirrored_twice (fork y d ay a (fork x c ax b r))) (
      Located-mirror_back (rotate_right t x) up (mirrored (fork y d ay a (fork x c ax b r))) turned)

-- The round has put a tree with the same areas in the place of `s`: a red one whose top is the next node of the
-- loop, or a dark one, and then the loop ends.
pub record Outcome (r : Tree × ℕ) (up : Above) (s : Painted) (h : ℕ) : Type 0 where
  pub result : Painted
  pub located : Located r.0 up result
  pub order : areas (shape result) ≡ areas (shape s)
  pub same : (n : ℕ) → hits n result ≡ hits n s
  pub balanced : Balanced result (suc h)
  pub next :
      (Red result × (top_of result ≡ r.1))
      ⊎ (Dark result × (color_of r.0 (parent_of r.0 r.1) ≡ black))

pub Outcome-mirrored :
    (r : Tree × ℕ) (up : Above) (s : Painted) (h : ℕ)
    → Outcome r (mirrored_above up) (mirrored s) h
    → Outcome (mirror_round r) up s h
Outcome-mirrored r up s h o = record {
  result = mirrored o.result;
  located = Located-mirror_back (mirror r.0) up o.result o.located;
  order =
      areas-mirrored o.result
      ∙ ap reverse o.order
      ∙ sym (areas-mirrored (mirrored s))
      ∙ ap (λ (k : Painted). areas (shape k)) (mirrored_twice s);
  same = λ n. hits-mirrored n o.result ∙ o.same n ∙ hits-mirrored n s;
  balanced = Balanced-mirrored o.result (suc h) o.balanced;
  next = elim o.next [
    | inl e ↦ inl (Red-mirrored o.result e.0, top_of-mirrored o.result ∙ e.1)
    | inr e ↦ inr (Dark-mirrored o.result e.0, e.1)
  ];
}

-- The grandparent `g` of the focus with the other tree below it.
pub recolor-Outcome :
    (t : Tree) (up : Above) (g p un z h : ℕ) (ga pa ua : VmArea) (l r ul ur : Painted)
    → Located t up (fork g false ga (fork p true pa l r) (fork un true ua ul ur))
    → Balanced l h
    → Balanced r h
    → Balanced (fork un true ua ul ur) h
    → parent_of t z ≡ p
    → Outcome (recolor t z un) up (fork g false ga (fork p true pa l r) (fork un true ua ul ur)) h
unfolding Balanced Dark Red shape areas top_of holder paint hits
recolor-Outcome t up g p un z h ga pa ua l r ul ur v bl br bu e =
    let left = to_left t up g false ga (fork p true pa l r) (fork un true ua ul ur) v in
    let above = left_of g false ga (fork un true ua ul ur) up in
    let t1 = set_color t p black in
    let v1 =
      from_left t1 up g false ga (fork p false pa l r) (fork un true ua ul ur)
        (set_color-Located t above p true false pa l r left) in
    let t2 = set_color t1 un black in
    let beside = right_of g false ga (fork p false pa l r) up in
    let v2 = from_right t2 up g false ga (fork p false pa l r) (fork un false ua ul ur) (
      set_color-Located t1 beside un true false ua ul ur
        (to_right t1 up g false ga (fork p false pa l r) (fork un true ua ul ur) v1)) in
    let v3 =
      set_color-Located t2 up g false true ga (fork p false pa l r) (fork un false ua ul ur) v2 in
    let f : parent_of t p ≡ g = Located-parent t above p true pa l r left in
    subst
      (λ (k : Tree × ℕ).
        Outcome k up (fork g false ga (fork p true pa l r) (fork un true ua ul ur)) h)
      (sym (recolor-stores t z un p g e f))
      (record {
        result = fork g true ga (fork p false pa l r) (fork un false ua ul ur);
        located = v3;
        order = refl;
        same = λ n. refl;
        balanced = (tt, tt, (bl, br), (bu.2, bu.3));
        next = inl (tt, refl);
      })

pub straighten-Outcome :
    (t : Tree) (up : Above) (g p z h : ℕ) (ga pa za : VmArea) (zl zr r u s : Painted)
    → Located t up (fork g false ga (fork p true pa (fork z true za zl zr) r) u)
    → Balanced (fork z true za zl zr) h
    → Balanced r h
    → Dark r
    → Balanced u h
    → Dark u
    → areas (shape (fork g false ga (fork p true pa (fork z true za zl zr) r) u)) ≡ areas (shape s)
    → ((n : ℕ) → hits n (fork g false ga (fork p true pa (fork z true za zl zr) r) u) ≡ hits n s)
    → Outcome (straighten t z) up s h
unfolding Balanced Dark Red shape areas top_of holder paint hits
straighten-Outcome t up g p z h ga pa za zl zr r u s v bz br dr bu du e i =
    let x = fork z true za zl zr in
    let above = left_of g false ga u up in
    let left = to_left t up g false ga (fork p true pa x r) u v in
    let t1 = set_color t p black in
    let v1 =
      from_left t1 up g false ga (fork p false pa x r) u
        (set_color-Located t above p true false pa x r left) in
    let t2 = set_color t1 g red in
    let v2 = set_color-Located t1 up g false true ga (fork p false pa x r) u v1 in
    let t3 = rotate_right t2 g in
    let v3 = rotate_right-Located t2 up g true ga p false pa x r u v2 in
    let own : parent_of t z ≡ p =
      Located-parent t (left_of p true pa r above) z true za zl zr
        (to_left t above p true pa x r left) in
    let f : parent_of t p ≡ g = Located-parent t above p true pa x r left in
    let own3 : parent_of t3 z ≡ p =
      Located-parent t3 (left_of p false pa (fork g true ga r u) up) z true za zl zr
        (to_left t3 up p false pa x (fork g true ga r u) v3) in
    let dark : color_of t3 p ≡ black = Located-color t3 up p false pa x (fork g true ga r u) v3 in
    subst (λ (k : Tree × ℕ). Outcome k up s h) (sym (straighten-stores t z p g own f))
      (record {
        result = fork p false pa x (fork g true ga r u);
        located = v3;
        order =
            sym (append_assoc (areas (shape x)) (pa ∷ areas (shape r)) (ga ∷ areas (shape u))) ∙ e;
        same = λ n. omega (arith, i n);
        balanced = (bz, (dr, du, br, bu));
        next = inr (tt, ap (λ (k : ℕ). color_of t3 k) own3 ∙ dark);
      })

-- `rotate_left` at the node `x` puts its right child `y` in its place, with `x` as the left child, and
-- `rotate_right` at `y` undoes it; the trees below and all else stay as they are.
pub rotations :
    (t : Tree) (up : Above) (x : ℕ) (c : Bool) (ax : VmArea) (y : ℕ) (d : Bool) (ay : VmArea)
    (a b r : Painted)
    → Located t up (fork x c ax a (fork y d ay b r))
    → Located (rotate_left t x) up (fork y d ay (fork x c ax a b) r)
      × Located (rotate_right (rotate_left t x) y) up (fork x c ax a (fork y d ay b r))
rotations t up x c ax y d ay a b r v =
    let w = rotate_left-Located t up x c ax y d ay a b r v in
    (w, rotate_right-Located (rotate_left t x) up y d ay x c ax a b r w)
