-- ===== src/Vma/RedBlack/Lookup.antt =====
-- The search for an address, and the descent of an addition, against the list of all areas.
use my_microkernel.Prelude.{
  ℕ, zero, suc, ◌+◌, ◌≤◌, ◌<◌, ◌≡◌, refl, sym, ap, ◌∙◌, arith, ◌==◌, ltb, leb, true, false, ◌&&◌,
  List, [], ◌∷◌, ◌++◌, if◌then◌else◌, Bool-cases, inl, inr, Option, none, some,
}
use my_microkernel.Vma.Area.{VmArea}
use my_microkernel.Vma.RedBlack.{Tree, max_nodes, find_from, find}
use my_microkernel.Vma.RedBlack.Shape.{Shape, leaf, branch, size, areas, Forms, Ordered}

-- The first area of a list that covers the address.
unfoldable pub first_covering : ℕ → List VmArea → Option VmArea
first_covering addr [] = none
first_covering addr (a ∷ rest) =
    let later = first_covering addr rest in
    if leb a.start addr && ltb addr a.end then some a else later

pub Ordered-le : (lo hi : ℕ) (s : Shape) → Ordered lo hi s → lo ≤ hi
unfolding Ordered
Ordered-le lo hi leaf o = o
Ordered-le lo hi (branch n a l r) o =
    omega (arith, o.0, Ordered-le lo a.start l o.1, Ordered-le a.end hi r o.2)

append_assoc : (xs ys zs : List VmArea) → (xs ++ ys) ++ zs ≡ xs ++ (ys ++ zs)
append_assoc [] ys zs = refl
append_assoc (x ∷ xs) ys zs = ap (λ (l : List VmArea). x ∷ l) (append_assoc xs ys zs)

-- An area that does not cover the address is passed over.
pass_over :
    (addr : ℕ) (a : VmArea) (xs : List VmArea)
    → (leb a.start addr && ltb addr a.end) ≡ false
    → first_covering addr (a ∷ xs) ≡ first_covering addr xs
unfolding first_covering
pass_over addr a xs e = rw e refl

meets :
    (addr : ℕ) (a : VmArea) (xs : List VmArea)
    → (leb a.start addr && ltb addr a.end) ≡ true
    → first_covering addr (a ∷ xs) ≡ some a
unfolding first_covering
meets addr a xs e = rw e refl

skip_below :
    (addr lo hi : ℕ) (s : Shape) (ys : List VmArea)
    → Ordered lo hi s
    → hi ≤ addr
    → first_covering addr (areas s ++ ys) ≡ first_covering addr ys
unfolding Ordered areas first_covering
skip_below addr lo hi leaf ys o h = refl
skip_below addr lo hi (branch n a l r) ys o h =
    let le = Ordered-le a.end hi r o.2 in
    ap (λ (x : List VmArea). first_covering addr x) (append_assoc (areas l) (a ∷ areas r) ys)
    ∙ skip_below addr lo a.start l ((a ∷ areas r) ++ ys) o.1 (omega (arith, o.0, le))
    ∙ pass_over addr a (areas r ++ ys) (ground (arith, le))
    ∙ skip_below addr a.end hi r ys o.2 h

none_right :
    (addr : ℕ) (xs ys : List VmArea)
    → first_covering addr ys ≡ none
    → first_covering addr (xs ++ ys) ≡ first_covering addr xs
unfolding first_covering
none_right addr [] ys e = e
none_right addr (x ∷ xs) ys e = ground (arith, none_right addr xs ys e)

none_above :
    (addr lo hi : ℕ) (s : Shape)
    → Ordered lo hi s
    → addr < lo
    → first_covering addr (areas s) ≡ none
unfolding Ordered areas first_covering
none_above addr lo hi leaf o h = refl
none_above addr lo hi (branch n a l r) o h =
    let le = Ordered-le lo a.start l o.1 in
    none_right addr (areas l) (a ∷ areas r) (
      pass_over addr a (areas r) (ground (arith, le))
      ∙ none_above addr a.end hi r o.2 (omega (arith, o.0, le)))
    ∙ none_above addr lo a.start l o.1 h

find_from-covering :
    (t : Tree) (addr lo hi p n : ℕ) (s : Shape)
    → Forms t.nodes p s
    → Ordered lo hi s
    → size s < n
    → find_from t addr p n ≡ first_covering addr (areas s)
unfolding find_from Forms Ordered size areas
find_from-covering t addr lo hi p zero s f o h = absurd (omega arith)
find_from-covering t addr lo hi p (suc n) leaf f o h = unfold first_covering in rw f refl
find_from-covering t addr lo hi p (suc n) (branch m a l r) f o h =
    let set : m == 0 ≡ false = ground (arith, f.1) in
    let left = find_from-covering t addr lo a.start (t.nodes m).left n l f.3 o.1 (omega arith) in
    let right = find_from-covering t addr a.end hi (t.nodes m).right n r f.4 o.2 (omega arith) in
    elim (Bool-cases (ltb addr a.start)) [
      | inl y ↦
          rw (f.0, set, f.2, y, left)
            (sym (
              none_right addr (areas l) (a ∷ areas r) (
                pass_over addr a (areas r) (ground (arith, y))
                ∙ none_above addr a.end hi r o.2 (ground (arith, y, o.0)))))
      | inr z ↦ elim (Bool-cases (leb a.end addr)) [
        | inl y ↦
            rw (f.0, set, f.2, z, y, right)
              (sym (
                skip_below addr lo a.start l (a ∷ areas r) o.1 (ground (arith, z))
                ∙ pass_over addr a (areas r) (ground (arith, y))))
        | inr n1 ↦
            rw (f.0, set, f.2, z, n1)
              (sym (
                skip_below addr lo a.start l (a ∷ areas r) o.1 (ground (arith, z))
                ∙ meets addr a (areas r) (ground (arith, z, n1))))
      ]
    ]

-- `find` in an ordered tree of at most 256 nodes gives the first of all the areas that covers the
-- address, and NULL when none does.
pub find-covering :
    (t : Tree) (addr lo hi : ℕ) (s : Shape)
    → Forms t.nodes t.root s
    → Ordered lo hi s
    → size s ≤ max_nodes
    → find t addr ≡ first_covering addr (areas s)
unfolding find
find-covering t addr lo hi s f o h =
    find_from-covering t addr lo hi t.root (max_nodes + 1) s f o (omega (arith, h))
