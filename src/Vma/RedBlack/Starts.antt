-- ===== src/Vma/RedBlack/Starts.antt =====
-- The search of `rb_remove` for the area that begins at an address.
use my_microkernel.Prelude.{
  ℕ, zero, suc, ◌+◌, ◌≤◌, ◌<◌, ◌≡◌, refl, ap, ◌∙◌, arith, ◌==◌, ltb, Bool, true, false, not, ◌||◌,
  List, [], ◌∷◌, ◌++◌, Bool-cases, inl, inr, ◌⊎◌, ok, fail,
}
use my_microkernel.Vma.Area.{VmArea}
use my_microkernel.Vma.RedBlack.{Tree, nil, max_nodes}
use my_microkernel.Vma.RedBlack.Delete.{find_start, remove}
use my_microkernel.Vma.RedBlack.Shape.{Shape, leaf, branch, size, areas, Forms, Ordered}
use my_microkernel.Vma.RedBlack.Lookup.{Ordered-le}
use my_microkernel.Vma.RedBlack.Painted.{shape}
use my_microkernel.Vma.RedBlack.Sound.{IsSound, IsSound-Forms, IsSound-Ordered}

-- Whether an area of the list begins at `start`.
unfoldable pub begins : (start : ℕ) → List VmArea → Bool
begins start [] = false
begins start (a ∷ rest) = start == a.start || begins start rest

begins-append :
    (start : ℕ) (xs ys : List VmArea)
    → begins start (xs ++ ys) ≡ (begins start xs || begins start ys)
unfolding begins
begins-append start [] ys = refl
begins-append start (x ∷ xs) ys = ground (arith, begins-append start xs ys)

begins_elsewhere :
    (start lo hi : ℕ) (s : Shape)
    → Ordered lo hi s
    → (start < lo) ⊎ (hi ≤ start)
    → begins start (areas s) ≡ false
unfolding Ordered areas begins
begins_elsewhere start lo hi leaf o h = refl
begins_elsewhere start lo hi (branch n a l r) o (inl h) =
    let le = Ordered-le lo a.start l o.1 in
    rw
      (
        begins-append start (areas l) (a ∷ areas r),
        begins_elsewhere start lo a.start l o.1 (inl h),
        begins_elsewhere start a.end hi r o.2 (inl (omega (arith, h, le, o.0))),
      )
      (ground (arith, le, h))
begins_elsewhere start lo hi (branch n a l r) o (inr h) =
    let le = Ordered-le a.end hi r o.2 in
    rw
      (
        begins-append start (areas l) (a ∷ areas r),
        begins_elsewhere start lo a.start l o.1 (inr (omega (arith, h, le, o.0))),
        begins_elsewhere start a.end hi r o.2 (inr h),
      )
      (ground (arith, le, h, o.0))

find_start-begins :
    (t : Tree) (start lo hi p n : ℕ) (s : Shape)
    → Forms t.nodes p s
    → Ordered lo hi s
    → size s < n
    → (find_start t start p n == nil) ≡ not (begins start (areas s))
unfolding find_start Forms Ordered size areas begins
find_start-begins t start lo hi p zero s f o h = absurd (omega arith)
find_start-begins t start lo hi p (suc n) leaf f o h = rw f refl
find_start-begins t start lo hi p (suc n) (branch m a l r) f o h =
    let set : m == 0 ≡ false = ground (arith, f.1) in
    let list = begins-append start (areas l) (a ∷ areas r) in
    elim (Bool-cases (start == a.start)) [
      | inl y ↦
          let left = begins_elsewhere start lo a.start l o.1 (inr (ground (arith, y))) in
          rw (f.0, set, f.2, y, list, left, y) set
      | inr k ↦ elim (Bool-cases (ltb start a.start)) [
        | inl y ↦
            let right = begins_elsewhere start a.end hi r o.2 (inl (ground (arith, y, o.0))) in
            let low =
              find_start-begins t start lo a.start (t.nodes m).left n l f.3 o.1 (omega arith) in
            rw (f.0, set, f.2, k, y, list, right, low) (ground arith)
        | inr z ↦
            let left = begins_elsewhere start lo a.start l o.1 (inr (ground (arith, z))) in
            let high =
              find_start-begins t start a.end hi (t.nodes m).right n r f.4 o.2 (omega arith) in
            rw (f.0, set, f.2, k, z, list, left, high) (ground arith)
      ]
    ]

-- `remove` from a store that holds a red-black tree of the areas of the list (IsSound): the result is 0 when an
-- area of the list begins at the address. When none does, the result is -1 and nothing changes.
pub remove-begins :
    (t : Tree) (start : ℕ) (list : List VmArea)
    → IsSound t list
    → ((begins start list ≡ true) × ((remove t start).1 ≡ ok))
      ⊎ ((begins start list ≡ false) × (remove t start ≡ (t, fail)))
unfolding remove
remove-begins t start list v =
    let s = v.tree.painted in
    let e =
      find_start-begins t start 0 v.bound t.root (max_nodes + 1) (shape s) (IsSound-Forms t list v)
        (IsSound-Ordered t list v) (omega (arith, v.room))
      ∙ ap (λ (x : List VmArea). not (begins start x)) v.tree.order in
    elim (Bool-cases (begins start list)) [
      | inl y ↦ inl (y, rw (e, y) refl)
      | inr k ↦ inr (k, rw (e, k) refl)
    ]
