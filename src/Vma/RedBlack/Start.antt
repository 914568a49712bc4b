-- ===== src/Vma/RedBlack/Start.antt =====
-- The back end after `rb_init`.
use mathlib.Core.Path.{subst}
use my_microkernel.Prelude.{
  ℕ, zero, suc, ◌+◌, ◌≤◌, ◌<◌, ◌≡◌, refl, sym, ap, ◌∙◌, arith, [], update, update_self, update_ne,
  ℕ_discrete,
}
use my_microkernel.Vma.RedBlack.{
  Node, Tree, nil, null, black, max_nodes, no_area, set_right, link_pool, pool_init, init,
}
use my_microkernel.Vma.RedBlack.Shape.{areas, size}
use my_microkernel.Vma.RedBlack.Painted.{
  tip, shape, top_of, summit, outside, Stored, Around, hits, hits_above,
}
use my_microkernel.Vma.RedBlack.Balance.{Dark, Balanced}
use my_microkernel.Vma.RedBlack.Spot.{InOrder}
use my_microkernel.Vma.RedBlack.Sound.{Chain, IsSound, count_up, times-count_up, length-count_up}

-- The loop of `pool_init`.
link_pool-below : (t : Tree) (i n j : ℕ) → j < i → (link_pool t i n).nodes j ≡ t.nodes j
unfolding link_pool
link_pool-below t i zero j h = refl
link_pool-below t i (suc n) j h =
    link_pool-below (set_right t i (i + 1)) (i + 1) n j (omega (arith, h))
    ∙ update_ne t.nodes i j (record (t.nodes i) { right = i + 1 }) (omega (arith, h))

link_pool-right :
    (t : Tree) (i n j : ℕ) → i ≤ j → j < i + n → ((link_pool t i n).nodes j).right ≡ j + 1
unfolding link_pool
link_pool-right t i zero j h k = absurd (omega (arith, h, k))
link_pool-right t i (suc n) j h k = elim (ℕ_discrete i j) [
  | yes e ↦
      subst (λ (x : ℕ). ((link_pool (set_right t i (i + 1)) (i + 1) n).nodes x).right ≡ x + 1) e
        (ap (λ (x : Node). x.right)
          (link_pool-below (set_right t i (i + 1)) (i + 1) n i (omega arith)
            ∙ update_self t.nodes i (record (t.nodes i) { right = i + 1 })))
  | no e ↦
      link_pool-right (set_right t i (i + 1)) (i + 1) n j (omega (arith, h, e)) (omega (arith, k))
]

link_pool-kept :
    (t : Tree) (i n : ℕ)
    → ((link_pool t i n).root ≡ t.root)
      × ((link_pool t i n).count ≡ t.count)
      × ((link_pool t i n).free_head ≡ t.free_head)
unfolding link_pool
link_pool-kept t i zero = (refl, refl, refl)
link_pool-kept t i (suc n) = link_pool-kept (set_right t i (i + 1)) (i + 1) n

-- A chain of nodes in a row.
Chain-count_up :
    (m : ℕ → Node) (p i n : ℕ)
    → p ≡ i
    → 0 < i
    → i + n < null
    → ((j : ℕ) → i ≤ j → j < i + n → (m j).right ≡ j + 1)
    → (m (i + n)).right ≡ null
    → Chain m p (count_up i (suc n))
unfolding Chain count_up
Chain-count_up m p i zero e h k r l =
    let at : i + 0 ≡ i = omega arith in
    (e, omega (arith, h), omega (arith, k), sym (ap (λ (x : ℕ). (m x).right) at) ∙ l)
Chain-count_up m p i (suc n) e h k r l =
    let at : i + suc n ≡ i + 1 + n = omega arith in
    (
      e,
      omega (arith, h),
      omega (arith, k),
      Chain-count_up m (m i).right (i + 1) n (r i (omega arith) (omega arith)) (omega arith)
          (omega (arith, k)) (λ j x y. r j (omega (arith, x)) (omega (arith, y)))
          (sym (ap (λ (x : ℕ). (m x).right) at) ∙ l),
    )

-- The store before the loop of `pool_init`.
cleared : Tree → Tree
cleared t = record t {
  nodes =
      update t.nodes nil
        (record { area = no_area; color = black; parent = nil; left = nil; right = nil });
  root = nil;
  count = 0;
  free_head = 1;
}

linked : Tree → Tree
linked t = link_pool (cleared t) 1 255

init-linked : (t : Tree) → init t ≡ set_right (linked t) max_nodes null
unfolding init pool_init linked cleared
init-linked t = refl

linked-IsSound : (t : Tree) → IsSound (set_right (linked t) max_nodes null) []
unfolding cleared linked InOrder
linked-IsSound t =
    let u = linked t in
    let v = set_right u 256 257 in
    let k : Node = record (u.nodes 256) { right = 257 } in
    let kept = link_pool-kept (cleared t) 1 255 in
    record {
      tree = record {
        painted = tip;
        located = record {
          inner = unfold Stored in tt;
          outer = unfold Around in tt;
          root = unfold summit top_of in kept.0;
          once = λ n. unfold hits hits_above in omega arith;
          sentinel =
              ap (λ (x : Node). x.color)
                (update_ne u.nodes 256 0 k (omega arith)
                  ∙ link_pool-below (cleared t) 1 255 0 (omega arith));
          others = λ n p q. unfold outside in refl;
          free = unfold outside in refl;
          counted = unfold outside in refl;
        };
        order = unfold areas shape in refl;
        dark = unfold Dark in tt;
        height = 0;
        balanced = unfold Balanced in refl;
      };
      bound = 0;
      ordered = omega arith;
      counted = unfold size shape in kept.1;
      free = count_up 1 256;
      chain =
          Chain-count_up v.nodes v.free_head 1 255 kept.2 (omega arith) (omega arith)
            (λ j x y.
              ap (λ (z : Node). z.right) (update_ne u.nodes 256 j k (omega (arith, y)))
              ∙ link_pool-right (cleared t) 1 255 j x y)
            (ap (λ (z : Node). z.right) (update_self u.nodes 256 k));
      apart = λ n. unfold hits in omega (arith, times-count_up n 1 256);
      room = unfold size shape in omega (arith, length-count_up 1 256);
    }

-- After `init` the back end holds the empty list, and all nodes are free.
pub init-IsSound : (t : Tree) → IsSound (init t) []
init-IsSound t = subst (λ (u : Tree). IsSound u []) (sym (init-linked t)) (linked-IsSound t)
