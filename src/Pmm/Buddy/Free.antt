-- ===== src/Pmm/Buddy/Free.antt =====
-- `buddy_free`: merging with the partner block, order by order.
use my_microkernel.Prelude.{
  ℕ, zero, suc, ◌+◌, ◌-◌, ◌*◌, ◌/◌, ◌^◌, ◌≤◌, ◌<◌, ◌≡◌, refl, ◌∙◌, arith, true, ◌&&◌, ltb, ◌⊎◌, inl,
  inr, Bool-cases, ◌↔◌, ap, partner, partner_cases, shift_twice,
}
use native.Mathlib.Nat.{pow-suc}
use native.Mathlib.Numerals.{add-one}
use my_microkernel.Pmm.Buddy.{
  Zone, max_order, add_free, remove_free, calc_buddy_index, parent, can_merge, buddy_free,
}
use my_microkernel.Pmm.Buddy.Invariant.{
  Apart, IsValid, IsHole, IsFreePage, pow_pos, buddy_index, parent_index,
}
use my_microkernel.Pmm.Buddy.Blocks.{
  add_free-IsValid, add_free-IsFreePage, remove_free-IsValid, remove_free-IsHole,
  remove_free-IsFreePage, add-total, remove-total,
}

-- `z'` is `z` with the pages of [idx, idx + 2^order) made free.
pub record Freed (z z' : Zone) (idx order : ℕ) : Type 0 where
  pub valid : IsValid z'
  pub pages : (p : ℕ) → IsFreePage z' p ↔ (IsFreePage z p ⊎ ((idx ≤ p) × (p < idx + 2 ^ order)))
  pub total : z'.total_free ≡ z.total_free + 2 ^ order

add_free-Freed :
    (z : Zone) (idx order : ℕ)
    → IsValid z
    → IsHole z idx order
    → Freed z (add_free z idx order) idx order
add_free-Freed z idx order v h = record {
  valid = add_free-IsValid z v h;
  pages = add_free-IsFreePage z v h;
  total = add-total z v h;
}

-- A hole and its free partner of the same order make a hole of the next order.
module _ (z : Zone) (idx order : ℕ) (v : IsValid z) (h : IsHole z idx order)
    (merge : can_merge z idx order ≡ true) (more : order < max_order) where
  abbrev bi : ℕ
  bi = calc_buddy_index idx order

  bi_free : (bi < z.total_pages) × (z.is_free bi ≡ true) × (z.order bi ≡ order)
  unfolding can_merge
  bi_free = ground arith

  abbrev z1 : Zone
  z1 = remove_free z bi order

  merged-IsValid : IsValid z1
  merged-IsValid = remove_free-IsValid z v bi_free.1 bi_free.2

  -- The two blocks are the halves of the block of the parent.
  halves :
      ((parent idx order ≡ idx) × (bi ≡ idx + 2 ^ order))
      ⊎ ((parent idx order ≡ bi) × (idx ≡ bi + 2 ^ order))
  halves = elim (partner_cases q) [
    | inl (even, up) ↦ inl (
      omega
          (arith, at_parent, at_idx, ap (λ (t : ℕ). t * 2 ^ order) even, shift_twice (q / 2) order),
      omega (arith, at_bi, at_idx, ap (λ (t : ℕ). t * 2 ^ order) up),
    )
    | inr (odd, down) ↦ inr (
      omega (
        arith,
        at_parent,
        at_bi,
        ap (λ (t : ℕ). t * 2 ^ order) odd,
        ap (λ (t : ℕ). t * 2 ^ order) down,
        shift_twice (q / 2) order,
        ap (λ (t : ℕ). (t - 1) * 2 ^ order) odd,
        grow,
      ),
      omega (
        arith,
        at_bi,
        at_idx,
        ap (λ (t : ℕ). t * 2 ^ order) odd,
        ap (λ (t : ℕ). t * 2 ^ order) down,
        ap (λ (t : ℕ). (t - 1) * 2 ^ order) odd,
        grow,
      ),
    )
  ]
    where
      q : ℕ
      q = h.block.half

      at_idx : idx ≡ q * 2 ^ order
      at_idx = h.block.aligned

      at_bi : calc_buddy_index idx order ≡ partner q * 2 ^ order
      at_bi = ap (λ i. calc_buddy_index i order) at_idx ∙ buddy_index order q

      at_parent : parent idx order ≡ q / 2 * 2 ^ suc order
      at_parent =
          ap (λ i. parent i order) at_idx
          ∙ parent_index order q h.block.small (omega (arith, at_idx, h.block.inside, v.small))

      grow : (q / 2 * 2 + 1 - 1) * 2 ^ order ≡ q / 2 * 2 * 2 ^ order
      grow = ap (λ (t : ℕ). t * 2 ^ order) (omega arith)

  parent_half : (p : ℕ) × (parent idx order ≡ p * 2 ^ suc order)
  parent_half = (
    h.block.half / 2,
    ap (λ i. parent i order) h.block.aligned
        ∙ parent_index order h.block.half h.block.small
            (omega (arith, h.block.aligned, h.block.inside, v.small)),
  )

  bi-IsHole : IsHole z1 bi order
  bi-IsHole = remove_free-IsHole z v bi_free.1 bi_free.2

  parent-IsHole : IsHole z1 (parent idx order) (suc order)
  parent-IsHole = record {
    block = record {
      small = omega arith;
      half = parent_half.0;
      aligned = parent_half.1;
      inside = inside;
    };
    clear = λ i f.
        ground (
          arith,
          halves,
          pow-suc 2 order,
          bi-IsHole.clear i f,
          idx_clear i f,
          pow_pos (z1.order i),
        );
  }
    where
      same : z1.total_pages ≡ z.total_pages
      same = unfold remove_free in refl

      inside : parent idx order + 2 ^ suc order ≤ z1.total_pages
      inside = ground (arith, halves, pow-suc 2 order, h.block.inside, bi-IsHole.block.inside, same)

      idx_clear : (i : ℕ) → z1.is_free i ≡ true → Apart i (2 ^ z1.order i) idx (2 ^ order)
      idx_clear i f = unfold remove_free in h.clear i (ground (arith, f))

  merged-total : z1.total_free + 2 ^ order ≡ z.total_free
  merged-total = remove-total z v bi_free.1 bi_free.2

  merged-pages : (p : ℕ) → IsFreePage z p ↔ (IsFreePage z1 p ⊎ ((bi ≤ p) × (p < bi + 2 ^ order)))
  merged-pages p = remove_free-IsFreePage z v bi_free.1 bi_free.2 p

  -- A page of the parent is in one half or the other.
  in_parent :
      (p : ℕ)
      → ((parent idx order ≤ p) × (p < parent idx order + 2 ^ suc order))
        ↔ (((idx ≤ p) × (p < idx + 2 ^ order)) ⊎ ((bi ≤ p) × (p < bi + 2 ^ order)))
  in_parent p =
      (λ h'. ground (arith, halves, pow-suc 2 order), λ h'. ground (arith, halves, pow-suc 2 order))

  merged-Freed : (z' : Zone) → Freed z1 z' (parent idx order) (suc order) → Freed z z' idx order
  merged-Freed z' m = record {
    valid = m.valid;
    pages = λ p. (forth p, back p);
    total = omega (arith, m.total, pow-suc 2 order, merged-total);
  }
    where
      forth : (p : ℕ) → IsFreePage z' p → IsFreePage z p ⊎ ((idx ≤ p) × (p < idx + 2 ^ order))
      forth p f = elim ((m.pages p).0 f) [
        | inl g ↦ inl ((merged-pages p).1 (inl g))
        | inr b ↦ elim ((in_parent p).0 b) [
          | inl mine ↦ inr mine
          | inr other ↦ inl ((merged-pages p).1 (inr other))
        ]
      ]

      back : (p : ℕ) → IsFreePage z p ⊎ ((idx ≤ p) × (p < idx + 2 ^ order)) → IsFreePage z' p
      back p (inl f) = elim ((merged-pages p).0 f) [
        | inl g ↦ (m.pages p).1 (inl g)
        | inr other ↦ (m.pages p).1 (inr ((in_parent p).1 (inr other)))
      ]
      back p (inr mine) = (m.pages p).1 (inr ((in_parent p).1 (inl mine)))

-- In a valid zone, `buddy_free` of a block that no free block meets makes exactly the pages of the
-- block free and keeps the zone valid, whatever it merges; ten rounds less the order are enough.
pub buddy_free-Freed :
    (z : Zone) (idx order left : ℕ)
    → IsValid z
    → IsHole z idx order
    → max_order ≤ order + left
    → Freed z (buddy_free z idx order left) idx order
unfolding buddy_free
buddy_free-Freed z idx order zero v h enough = add_free-Freed z idx order v h
buddy_free-Freed z idx order (suc left) v h enough =
    elim (Bool-cases (ltb order max_order && can_merge z idx order)) [
      | inr e ↦ rw e (add_free-Freed z idx order v h)
      | inl e ↦
          let m : can_merge z idx order ≡ true = ground arith in
          let l : order < max_order = ground arith in
          rw e (
            merged-Freed z idx order v h m l _ (
              rw (add-one order) (
                buddy_free-Freed (z1 z idx order v h m l) (parent idx order) (suc order) left
                  (merged-IsValid z idx order v h m l) (parent-IsHole z idx order v h m l)
                  (omega arith))))
    ]
