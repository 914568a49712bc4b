-- ===== src/Vma/RedBlack/Ending.antt =====
-- The end of the loop of `insert_fixup`.
use mathlib.Core.Path.{subst}
use my_microkernel.Prelude.{
  ℕ, zero, suc, ◌≤◌, ◌≡◌, ◌≢◌, refl, sym, ◌∙◌, arith, true, false, ◌==◌, inl, inr,
}
use my_microkernel.Vma.RedBlack.{Tree, black, red, parent_of, color_of}
use my_microkernel.Vma.RedBlack.Insert.{insert_left, insert_right, insert_rounds}
use my_microkernel.Vma.RedBlack.Shape.{areas}
use my_microkernel.Vma.RedBlack.Painted.{
  Painted, Above, top, plug, shape, top_of, outside, Located, hits,
}
use my_microkernel.Vma.RedBlack.Balance.{Red, Balanced, Fits, IsRedBlack, plug-IsRedBlack}
use my_microkernel.Vma.RedBlack.Outcome.{Outcome}
use my_microkernel.Vma.RedBlack.Whole.{depth, plug-Located, plug-areas, hits-plug}

-- The steps of the loop: it ends at a parent that is not red, and else makes a round.
rounds-end :
    (t : Tree) (z n : ℕ) → color_of t (parent_of t z) ≡ black → insert_rounds t z n ≡ (t, z)
unfolding insert_rounds
rounds-end t z zero e = refl
rounds-end t z (suc n) e =
    let d : color_of t (parent_of t z) == red ≡ false = ground (arith, e) in rw d refl

pub rounds-left :
    (t : Tree) (z n : ℕ)
    → color_of t (parent_of t z) ≡ red
    → parent_of t z ≡ (t.nodes (parent_of t (parent_of t z))).left
    → insert_rounds t z (suc n) ≡ insert_rounds (insert_left t z).0 (insert_left t z).1 n
unfolding insert_rounds
rounds-left t z n e f =
    let d : color_of t (parent_of t z) == red ≡ true = ground (arith, e) in
    let s : parent_of t z == (t.nodes (parent_of t (parent_of t z))).left ≡ true =
      ground (arith, f) in
    rw (d, s) refl

pub rounds-right :
    (t : Tree) (z n : ℕ)
    → color_of t (parent_of t z) ≡ red
    → parent_of t z ≢ (t.nodes (parent_of t (parent_of t z))).left
    → insert_rounds t z (suc n) ≡ insert_rounds (insert_right t z).0 (insert_right t z).1 n
unfolding insert_rounds
rounds-right t z n e f =
    let d : color_of t (parent_of t z) == red ≡ true = ground (arith, e) in
    let s : parent_of t z == (t.nodes (parent_of t (parent_of t z))).left ≡ false =
      ground (arith, f) in
    rw (d, s) refl

-- After `n` rounds at most from `z` on the condition of the loop fails, the tree has the same areas in the same order, and
-- is balanced once its root is black.
pub record Finished (base t : Tree) (z n : ℕ) (s : Painted) : Type 0 where
  pub result : Painted
  pub located : Located (insert_rounds t z n).0 (top base) result
  pub order : areas (shape result) ≡ areas (shape s)
  pub same : (n : ℕ) → hits n result ≡ hits n s
  pub balanced : IsRedBlack result
  pub stopped :
      color_of (insert_rounds t z n).0 (parent_of (insert_rounds t z n).0 (insert_rounds t z n).1)
      ≡ black

-- The loop ends at once.
pub ends :
    (t : Tree) (up : Above) (s u : Painted) (z n : ℕ)
    → Located t up s
    → areas (shape s) ≡ areas (shape u)
    → ((k : ℕ) → hits k s ≡ hits k u)
    → IsRedBlack (plug up s)
    → color_of t (parent_of t z) ≡ black
    → Finished (outside up) t z n (plug up u)
ends t up s u z n v e i b c = record {
  result = plug up s;
  located =
      subst (λ (k : Tree × ℕ). Located k.0 (top (outside up)) (plug up s))
        (sym (rounds-end t z n c)) (plug-Located t up s v);
  order = plug-areas up s u e;
  same = λ k. omega (arith, i k, hits-plug k up s, hits-plug k up u);
  balanced = b;
  stopped =
      subst (λ (k : Tree × ℕ). color_of k.0 (parent_of k.0 k.1) ≡ black) (sym (rounds-end t z n c))
        c;
}

carry :
    (base t : Tree) (z n : ℕ) (r : Tree × ℕ) (s u : Painted)
    → ((k : ℕ) → insert_rounds t z (suc k) ≡ insert_rounds r.0 r.1 k)
    → areas (shape s) ≡ areas (shape u)
    → ((k : ℕ) → hits k s ≡ hits k u)
    → Finished base r.0 r.1 n s
    → Finished base t z (suc n) u
carry base t z n r s u e o i v = record {
  result = v.result;
  located = subst (λ (k : Tree × ℕ). Located k.0 (top base) v.result) (sym (e n)) v.located;
  order = v.order ∙ o;
  same = λ k. v.same k ∙ i k;
  balanced = v.balanced;
  stopped =
      subst (λ (k : Tree × ℕ). color_of k.0 (parent_of k.0 k.1) ≡ black) (sym (e n)) v.stopped;
}

-- That the loop ends in `n` rounds from any red node with at most `n` nodes above.
unfoldable pub EndsWithin : ℕ → Type 0
EndsWithin n =
    (t : Tree) (up : Above) (s : Painted) (h : ℕ)
    → Located t up s
    → Red s
    → Balanced s h
    → Fits up h
    → depth up ≤ n
    → Finished (outside up) t (top_of s) n (plug up s)

-- The loop after a round.
pub onward :
    (t : Tree) (up : Above) (z n h : ℕ) (r : Tree × ℕ) (s : Painted)
    → EndsWithin n
    → ((k : ℕ) → insert_rounds t z (suc k) ≡ insert_rounds r.0 r.1 k)
    → Outcome r up s h
    → Fits up (suc h)
    → depth up ≤ n
    → Finished (outside up) t z (suc n) (plug up s)
unfolding EndsWithin
onward t up z n h r s ih e o f d = elim o.next [
  | inl k ↦
      carry (outside up) t z n r (plug up o.result) (plug up s) e (plug-areas up o.result s o.order)
        (λ x. omega (arith, o.same x, hits-plug x up o.result, hits-plug x up s))
        (subst (λ (x : ℕ). Finished (outside up) r.0 x n (plug up o.result)) k.1
          (ih r.0 up o.result (suc h) o.located k.0 o.balanced f d))
  | inr k ↦
      carry (outside up) t z n r (plug up s) (plug up s) e refl (λ x. refl)
        (ends r.0 up o.result s r.1 n o.located o.order o.same
          (plug-IsRedBlack up o.result (suc h) f (inl k.0) o.balanced) k.1)
]
