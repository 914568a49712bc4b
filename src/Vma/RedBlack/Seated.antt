-- ===== src/Vma/RedBlack/Seated.antt =====
-- The back end after an accepted addition.
use mathlib.Core.Path.{subst}
use my_microkernel.Prelude.{
  update_self, update_ne, ℕ, suc, ◌+◌, ◌≤◌, ◌<◌, ◌≡◌, ◌≢◌, refl, sym, ap, ◌∙◌, arith, ltb, true,
  false, List, [], ◌∷◌, ◌++◌, Bool-cases, inl, inr, add32,
}
use my_microkernel.Vma.Area.{VmArea}
use my_microkernel.Vma.RedBlack.{Tree, max_nodes}
use my_microkernel.Vma.RedBlack.Insert.{insert_fixup}
use my_microkernel.Vma.RedBlack.Shape.{Shape, leaf, branch, size, areas, Ordered}
use my_microkernel.Vma.RedBlack.Descent.{overlapping}
use my_microkernel.Vma.RedBlack.Painted.{
  Painted, tip, fork, top, plug, shape, top_of, summit, holder, outside, Around, Located, hit, hits,
  hits_above, hit_self, hit_zero,
}
use my_microkernel.Vma.RedBlack.Balance.{Red, Dark, Balanced}
use my_microkernel.Vma.RedBlack.Whole.{depth, hits-plug}
use my_microkernel.Vma.RedBlack.Spot.{placed, InOrder-raise, placed-InOrder, areas-graft}
use my_microkernel.Vma.RedBlack.Walk.{
  spot, spot-plug, spot-graft, spot-outside, depth-spot, spot-Aligned, unplug-Located, unplug-Fits,
  spot-holder, Aligned,
}
use my_microkernel.Vma.RedBlack.Seat.{seat, seat-Located, fresh_node, drawn, drawn-Located}
use my_microkernel.Vma.RedBlack.Fixup.{IsTree, insert_fixup-IsTree}
use my_microkernel.Vma.RedBlack.Sound.{Chain, times, length, IsSound, Chain-agree, IsSound-Ordered}
use my_microkernel.Vma.RedBlack.Attach.{finish}

-- The tree after the new node has found its place and the colours have been repaired.
seated :
    (u : Tree) (a : VmArea) (z h : ℕ) (s : Painted) (list : List VmArea)
    → Located u (top u) s
    → areas (shape s) ≡ list
    → Ordered 0 h (shape s)
    → size (shape s) ≤ max_nodes
    → Dark s
    → (k : ℕ) × Balanced s k
    → z ≢ 0
    → hits z s ≡ 0
    → u.nodes z ≡ fresh_node a (holder (spot a.start (top u) s))
    → (v : IsTree u
        (insert_fixup (seat u (holder (spot a.start (top u) s)) z a.start) z)
        (placed a list))
      × ((n : ℕ) → hits n v.painted ≡ hit n z + hits n s)
unfolding top_of plug holder
seated u a z h s list v o w size_le d (k, b) nz out e =
    let up = spot a.start (top u) s in
    let whole : plug up tip ≡ s = spot-plug a.start (top u) s in
    let base : outside up ≡ u = unfold outside in spot-outside a.start (top u) s in
    let new = fork z true a tip tip in
    let inner : Located u up tip = unplug-Located u up tip (
      subst (λ (x : Painted). Located u (top (outside up)) x) (sym whole)
        (subst (λ (x : Tree). Located u (top x) s) (sym base) v)) in
    let free : hits_above z up ≡ 0 =
      unfold hits in omega (arith, hits-plug z up tip, ap (λ (x : Painted). hits z x) whole, out) in
    let placed_node =
      seat-Located u up z a inner nz free e
        (spot-Aligned a.start (top u) s (unfold Aligned in tt)) in
    let fits =
      unplug-Fits up tip k (subst Dark (sym whole) d)
        (subst (λ (x : Painted). Balanced x k) (sym whole) b) in
    let red : Balanced new fits.0 = unfold Balanced Dark in (tt, tt, fits.1, fits.1) in
    let low : depth up ≤ max_nodes =
      unfold depth in omega (arith, depth-spot a.start (top u) s, size_le) in
    let r =
      insert_fixup-IsTree (seat u (holder up) z a.start) up new fits.0 placed_node
        (unfold Red in tt) red fits.2 low in
    let list_eq : areas (shape (plug up new)) ≡ placed a list =
      ap (λ (x : Painted). areas (shape x)) (spot-graft z a (top u) s)
      ∙ areas-graft z 0 h a s w
      ∙ ap (placed a) o in
    let t4 = insert_fixup (seat u (holder up) z a.start) z in
    (
      record {
        painted = r.0.painted;
        located = subst (λ (x : Tree). Located t4 (top x) r.0.painted) base r.0.located;
        order = r.0.order ∙ list_eq;
        dark = r.0.dark;
        height = r.0.height;
        balanced = r.0.balanced;
      },
      λ n.
          unfold hits in
          omega (
            arith,
            r.1 n,
            hits-plug n up new,
            hits-plug n up tip,
            ap (λ (x : Painted). hits n x) whole,
          ),
    )

-- The number of areas.
unfoldable pub count_all : List VmArea → ℕ
count_all [] = 0
count_all (a ∷ rest) = suc (count_all rest)

count_all-append : (xs ys : List VmArea) → count_all (xs ++ ys) ≡ count_all xs + count_all ys
unfolding count_all
count_all-append [] ys = omega arith
count_all-append (x ∷ xs) ys = omega (arith, count_all-append xs ys)

pub size-areas : (s : Shape) → size s ≡ count_all (areas s)
unfolding size areas count_all
size-areas leaf = refl
size-areas (branch n a l r) =
    omega (arith, count_all-append (areas l) (a ∷ areas r), size-areas l, size-areas r)

count_all-placed : (a : VmArea) (xs : List VmArea) → count_all (placed a xs) ≡ suc (count_all xs)
unfolding count_all placed
count_all-placed a [] = refl
count_all-placed a (x ∷ xs) = elim (Bool-cases (ltb a.start x.start)) [
  | inl y ↦ rw y refl
  | inr n ↦ rw n (ap suc (count_all-placed a xs))
]

-- The tree with another count.
recount :
    (u t : Tree) (n : ℕ) (list : List VmArea)
    → IsTree u t list
    → IsTree (record t { count = n }) (record t { count = n }) list
unfolding Around hits_above outside holder summit
recount u t n list v = record {
  painted = v.painted;
  located = record {
    inner = v.located.inner;
    outer = tt;
    root = v.located.root;
    once = v.located.once;
    sentinel = v.located.sentinel;
    others = λ k p q. refl;
    free = refl;
    counted = refl;
  };
  order = v.order;
  dark = v.dark;
  height = v.height;
  balanced = v.balanced;
}

-- The state after an accepted addition, with the first free node `z` taken.
pub finish-IsSound :
    (t : Tree) (a : VmArea) (list : List VmArea) (z : ℕ) (rest : List ℕ)
    → (v : IsSound t list) → v.free ≡ z ∷ rest
    → t.count < max_nodes
    → a.start < a.end
    → overlapping a.start a.end list ≡ false
    → let p = holder (spot a.start (top t) v.tree.painted) in
      IsSound (finish a p z (drawn t a p z)).0 (placed a list)
unfolding finish Chain times length recount
finish-IsSound t a list z rest v f room h e =
    let s = v.tree.painted in
    let p = holder (spot a.start (top t) s) in
    let u = drawn t a p z in
    let chain = subst (Chain t.nodes t.free_head) f v.chain in
    let once : (n : ℕ) → hit n z + times n rest + hits n s ≤ 1 =
      subst (λ (x : List ℕ). (n : ℕ) → times n x + hits n s ≤ 1) f v.apart in
    let out : hits z s ≡ 0 = omega (arith, once z, hit_self z) in
    let full : size (shape s) + suc (length rest) ≡ max_nodes =
      omega (arith, v.room, ap length f) in
    let up = holder (spot a.start (top u) s) in
    let same : p ≡ up = unfold holder in spot-holder a.start (top t) (top u) s refl in
    let new : u.nodes z ≡ fresh_node a up =
      unfold drawn in update_self t.nodes z (fresh_node a p) ∙ ap (fresh_node a) same in
    let w =
      subst
        (λ (q : ℕ).
          (x : IsTree u (insert_fixup (seat u q z a.start) z) (placed a list)) × ((n : ℕ)
            → hits n x.painted ≡ hit n z + hits n s))
        (sym same)
        (seated u a z v.bound s list (drawn-Located t a p z s v.tree.located chain.1 out)
          v.tree.order (IsSound-Ordered t list v) (omega (arith, full)) v.tree.dark
          (v.tree.height, v.tree.balanced) chain.1 out new) in
    let t4 = insert_fixup (seat u p z a.start) z in
    let q = w.0.painted in
    let sizes : size (shape q) ≡ suc (size (shape s)) = omega (
      arith,
      size-areas (shape q),
      ap count_all w.0.order,
      count_all-placed a list,
      size-areas (shape s),
      ap count_all v.tree.order,
    ) in
    let count : t4.count ≡ t.count = unfold outside drawn in w.0.located.counted in
    let head : t4.free_head ≡ (t.nodes z).right = unfold outside drawn in w.0.located.free in
    let kept : (n : ℕ) → 1 ≤ times n rest → t4.nodes n ≡ t.nodes n = λ n y.
      unfold outside drawn hits_above in
      w.0.located.others n (omega (arith, y, once n, w.1 n)) refl
      ∙ update_ne t.nodes z n (fresh_node a p)
          (λ x. hit_zero n z (omega (arith, y, once n)) (sym x)) in
    record {
      tree = recount u t4 (add32 t4.count 1) (placed a list) w.0;
      bound = v.bound + a.end;
      ordered =
          placed-InOrder 0 (v.bound + a.end) a list
            (InOrder-raise 0 v.bound (v.bound + a.end) list (omega arith) v.ordered) (omega arith) h
            (omega arith) e;
      counted = omega (arith, count, v.counted, sizes, room);
      free = rest;
      chain =
          subst (λ (x : ℕ). Chain t4.nodes x rest) (sym head)
            (Chain-agree t.nodes t4.nodes (t.nodes z).right rest kept chain.3);
      apart = λ n. omega (arith, once n, w.1 n);
      room = omega (arith, full, sizes);
    }
