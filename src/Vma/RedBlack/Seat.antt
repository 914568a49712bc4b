-- ===== src/Vma/RedBlack/Seat.antt =====
-- A new node in the store, and its place below its parent.
use mathlib.Core.Path.{subst}
use my_microkernel.Prelude.{
  ℕ, ◌+◌, ◌≤◌, ◌≡◌, ◌≢◌, refl, sym, ap, ◌∙◌, arith, ◌==◌, if◌then◌else◌, ltb, true, false, update,
  update_self, update_ne, ℕ_discrete,
}
use my_microkernel.Vma.Area.{VmArea}
use my_microkernel.Vma.RedBlack.{Node, Tree, nil, red, set_left, set_right}
use my_microkernel.Vma.RedBlack.Painted.{
  Painted, tip, fork, Above, top, left_of, right_of, paint, top_of, holder, summit, outside, Stored,
  Around, Located, hit, hits, hits_above, hit_self, hit_zero, Stored-update, Around-update,
}
use my_microkernel.Vma.RedBlack.Walk.{Aligned}

-- The new node `z` becomes a child of `p`.
unfoldable pub seat : Tree → (p z start : ℕ) → Tree
seat t p z start =
    if p == nil
    then record t { root = z }
    else if ltb start (t.nodes p).area.start
    then set_left t p z
    else set_right t p z

seat-left :
    (t : Tree) (n z start : ℕ) (b : VmArea)
    → n ≢ 0
    → (t.nodes n).area ≡ b
    → ltb start b.start ≡ true
    → seat t n z start ≡ set_left t n z
unfolding seat
seat-left t n z start b e f s = let g : n == 0 ≡ false = ground (arith, e) in rw (g, f, s) refl

seat-right :
    (t : Tree) (n z start : ℕ) (b : VmArea)
    → n ≢ 0
    → (t.nodes n).area ≡ b
    → ltb start b.start ≡ false
    → seat t n z start ≡ set_right t n z
unfolding seat
seat-right t n z start b e f s = let g : n == 0 ≡ false = ground (arith, e) in rw (g, f, s) refl

-- The new node, red and without children.
abbrev pub fresh_node : VmArea → ℕ → Node
fresh_node a p = record { area = a; color = red; parent = p; left = nil; right = nil }

fresh_once : (n z : ℕ) (f : ℕ → ℕ) → f z ≡ 0 → f n ≤ 1 → hit n z + f n ≤ 1
fresh_once n z f e h = elim (ℕ_discrete n z) [
  | yes p ↦ ground (arith, ap f p, e)
  | no p ↦ ground (arith, p, h)
]

pub seat-Located :
    (t : Tree) (up : Above) (z : ℕ) (a : VmArea)
    → Located t up tip
    → z ≢ 0
    → hits_above z up ≡ 0
    → t.nodes z ≡ fresh_node a (holder up)
    → Aligned a.start up
    → Located (seat t (holder up) z a.start) up (fork z true a tip tip)
unfolding Aligned holder Stored Around hits hits_above top_of summit outside paint
seat-Located t (top base) z a v d h e g =
    unfold seat in
    record {
      inner = (d, e, tt, tt);
      outer = tt;
      root = refl;
      once = λ n. omega (arith, fresh_once n z (λ k. 0) refl (omega arith));
      sentinel = v.sentinel;
      others = λ n p q. v.others n refl refl;
      free = v.free;
      counted = v.counted;
    }
seat-Located t (left_of n c b r up) z a v d h e g =
    let f = v.outer in
    let k : Node = record (t.nodes n) { left = z } in
    let own = hit_self n in
    let s = seat-left t n z a.start b f.0 (ap (λ (m : Node). m.area) f.1) g in
    let once : (x : ℕ) → hit x n + hits x r + hits_above x up ≤ 1 = λ x. omega (arith, v.once x) in
    let away : z ≢ n = hit_zero z n (omega (arith, h)) in
    subst (λ (u : Tree). Located u (left_of n c b r up) (fork z true a tip tip)) (sym s)
      (record {
        inner = (d, update_ne t.nodes n z k (λ x. away (sym x)) ∙ e, tt, tt);
        outer = (
          f.0,
          update_self t.nodes n k ∙ ap (λ (m : Node). record m { left = z }) f.1,
          Stored-update t.nodes n n k r (omega (arith, once n, own)) f.2,
          Around-update t.nodes n n k up (omega (arith, once n, own)) f.3,
        );
        root = v.root;
        once = λ x.
            omega (arith, fresh_once x z (λ y. hit y n + hits y r + hits_above y up) h (once x));
        sentinel = ap (λ (m : Node). m.color) (update_ne t.nodes n 0 k f.0) ∙ v.sentinel;
        others = λ x p q.
            update_ne t.nodes n x k (λ y. hit_zero x n (omega (arith, q)) (sym y))
            ∙ v.others x refl q;
        free = v.free;
        counted = v.counted;
      })
seat-Located t (right_of n c b l up) z a v d h e g =
    let f = v.outer in
    let k : Node = record (t.nodes n) { right = z } in
    let own = hit_self n in
    let s = seat-right t n z a.start b f.0 (ap (λ (m : Node). m.area) f.1) g in
    let once : (x : ℕ) → hit x n + hits x l + hits_above x up ≤ 1 = λ x. omega (arith, v.once x) in
    let away : z ≢ n = hit_zero z n (omega (arith, h)) in
    subst (λ (u : Tree). Located u (right_of n c b l up) (fork z true a tip tip)) (sym s)
      (record {
        inner = (d, update_ne t.nodes n z k (λ x. away (sym x)) ∙ e, tt, tt);
        outer = (
          f.0,
          update_self t.nodes n k ∙ ap (λ (m : Node). record m { right = z }) f.1,
          Stored-update t.nodes n n k l (omega (arith, once n, own)) f.2,
          Around-update t.nodes n n k up (omega (arith, once n, own)) f.3,
        );
        root = v.root;
        once = λ x.
            omega (arith, fresh_once x z (λ y. hit y n + hits y l + hits_above y up) h (once x));
        sentinel = ap (λ (m : Node). m.color) (update_ne t.nodes n 0 k f.0) ∙ v.sentinel;
        others = λ x p q.
            update_ne t.nodes n x k (λ y. hit_zero x n (omega (arith, q)) (sym y))
            ∙ v.others x refl q;
        free = v.free;
        counted = v.counted;
      })

-- The store after the allocation of `z` and the stores to its fields.
unfoldable pub drawn : Tree → (a : VmArea) → (p z : ℕ) → Tree
drawn t a p z = record t {
  nodes = update t.nodes z (fresh_node a p);
  free_head = (t.nodes z).right;
}

-- The tree in the store is still there.
pub drawn-Located :
    (t : Tree) (a : VmArea) (p z : ℕ) (s : Painted)
    → Located t (top t) s
    → z ≢ 0
    → hits z s ≡ 0
    → Located (drawn t a p z) (top (drawn t a p z)) s
unfolding drawn holder Around hits_above summit outside
drawn-Located t a p z s v d h = record {
  inner = Stored-update t.nodes z 0 (fresh_node a p) s h v.inner;
  outer = tt;
  root = v.root;
  once = v.once;
  sentinel = ap (λ (m : Node). m.color) (update_ne t.nodes z 0 (fresh_node a p) d) ∙ v.sentinel;
  others = λ n x y. refl;
  free = refl;
  counted = refl;
}
