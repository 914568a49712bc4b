-- ===== src/Pmm/Buddy/Blocks.antt =====
-- Adding a free block to a zone and taking one away: `buddy_add_free` and `buddy_remove_free`.
use mathlib.Core.Path.{fun_ext, subst}
use my_microkernel.Prelude.{
  ℕ, ◌+◌, ◌^◌, ◌≤◌, ◌<◌, ◌≡◌, refl, sym, ◌∙◌, arith, true, false, update, update_self, update_ne,
  sum_below, sum_below-change, ◌⊎◌, inl, inr, Bool-cases, ◌↔◌, ℕ_discrete,
}
use my_microkernel.Pmm.Links.{IsLinked, list_add_tail-IsLinked, list_del-IsLinked}
use my_microkernel.Pmm.Buddy.{Zone, head, page, add_free, remove_free}
use my_microkernel.Pmm.Buddy.Invariant.{
  block_size, linked, tag, IsBlock, IsValid, IsHole, IsFreePage, pow_pos, total_free-le,
}

-- The sum of the block sizes up to a page that starts a block, and up to one that does not.
module _ (z : Zone) (v : IsValid z) {idx order : ℕ} (h : IsHole z idx order) where
  -- No free block starts in a hole.
  pub not_free : z.is_free idx ≡ false
  not_free = elim (Bool-cases (z.is_free idx)) [
    | inr e ↦ e
    | inl e ↦ absurd (omega (arith, h.clear idx e, pow_pos order, pow_pos (z.order idx)))
  ]

  pub in_zone : idx < z.total_pages
  in_zone = omega (arith, h.block.inside, pow_pos order)

  add-linked : linked (add_free z idx order) ≡ update (linked z) (page idx) true
  unfolding add_free
  add-linked = fun_ext (λ n. ground arith)

  add-tag : tag (add_free z idx order) ≡ update (tag z) (page idx) (tag z (head order))
  unfolding add_free
  add-tag = fun_ext (λ n. ground (arith, h.block.small))

  add-lists :
      IsLinked
        (add_free z idx order).links
        (linked (add_free z idx order))
        (tag (add_free z idx order))
  add-lists =
      rw (add-linked, add-tag)
        (unfold add_free in
          list_add_tail-IsLinked v.lists (page idx) (head order) (ground (arith, not_free))
            (ground (arith, h.block.small)))

  add-sum :
      sum_below z.total_pages (block_size (add_free z idx order))
      ≡ sum_below z.total_pages (block_size z) + 2 ^ order
  unfolding add_free
  add-sum = ground (
    arith,
    not_free,
    sum_below-change z.total_pages idx (block_size (add_free z idx order)) (block_size z) in_zone
        (λ i ne. ground arith),
  )

  pub add-total : (add_free z idx order).total_free ≡ z.total_free + 2 ^ order
  unfolding add_free
  add-total = omega (arith, total_free-le z v, v.small, h.block.inside)

  add-blocks :
      (i : ℕ)
      → update z.is_free idx true i ≡ true
      → IsBlock z.total_pages i (update z.order idx order i)
  add-blocks i f = elim (ℕ_discrete idx i) [
    | yes e ↦
        subst (λ j. IsBlock z.total_pages j (update z.order idx order j)) e
          (rw (update_self z.order idx order) h.block)
    | no ne ↦ rw (update_ne z.order idx i order ne) (v.blocks i (ground arith))
  ]

  -- Filling a hole with a free block keeps the zone valid.
  pub add_free-IsValid : IsValid (add_free z idx order)
  add_free-IsValid = record {
    small = unfold add_free in v.small;
    free_inside = unfold add_free in λ i f. ground (arith, v.free_inside i, in_zone);
    blocks = unfold add_free in add-blocks;
    apart = unfold add_free in λ i j f g l. ground (arith, v.apart i j, h.clear i, h.clear j);
    lists = add-lists;
    total =
        unfold add_free in
        (unfold add_free in add-total) ∙ rw (v.total) (sym (unfold add_free in add-sum));
  }

  -- Its pages, and no others, become free.
  pub add_free-IsFreePage :
      (p : ℕ)
      → IsFreePage (add_free z idx order) p ↔ (IsFreePage z p ⊎ ((idx ≤ p) × (p < idx + 2 ^ order)))
  unfolding add_free
  add_free-IsFreePage p = (forth, back)
    where
      forth :
          IsFreePage (add_free z idx order) p → IsFreePage z p ⊎ ((idx ≤ p) × (p < idx + 2 ^ order))
      forth f = elim (ℕ_discrete idx f.first) [
        | yes e ↦ inr (ground (arith, f.from, f.below))
        | no ne ↦ inl (record {
          first = f.first;
          is_free = ground (arith, f.is_free);
          from = f.from;
          below = ground (arith, f.below);
        })
      ]

      back :
          IsFreePage z p ⊎ ((idx ≤ p) × (p < idx + 2 ^ order)) → IsFreePage (add_free z idx order) p
      back (inl f) = record {
        first = f.first;
        is_free = ground (arith, f.is_free);
        from = f.from;
        below = ground (arith, f.below, f.is_free, not_free);
      }
      back (inr b) = record {
        first = idx;
        is_free = ground arith;
        from = b.0;
        below = ground arith;
      }

-- Taking a free block away.
module _ (z : Zone) (v : IsValid z) {idx order : ℕ} (free : z.is_free idx ≡ true)
    (ord : z.order idx ≡ order) where
  remove-linked : linked (remove_free z idx order) ≡ update (linked z) (page idx) false
  unfolding remove_free
  remove-linked = fun_ext (λ n. ground arith)

  remove-tag : tag (remove_free z idx order) ≡ tag z
  unfolding remove_free
  remove-tag = refl

  remove-lists :
      IsLinked
        (remove_free z idx order).links
        (linked (remove_free z idx order))
        (tag (remove_free z idx order))
  remove-lists =
      rw (remove-linked, remove-tag)
        (unfold remove_free in list_del-IsLinked v.lists (page idx) (ground (arith, free)))

  remove-sum :
      sum_below z.total_pages (block_size (remove_free z idx order)) + 2 ^ order
      ≡ sum_below z.total_pages (block_size z)
  unfolding remove_free
  remove-sum = ground (
    arith,
    free,
    ord,
    v.free_inside idx,
    sum_below-change z.total_pages idx (block_size (remove_free z idx order)) (block_size z)
        (v.free_inside idx free) (λ i ne. ground arith),
  )

  -- A free block counts among the free pages.
  remove-le : 2 ^ order ≤ z.total_free
  remove-le = omega (arith, remove-sum, v.total)

  pub remove-total : (remove_free z idx order).total_free + 2 ^ order ≡ z.total_free
  unfolding remove_free
  remove-total = omega (arith, remove-le, total_free-le z v, v.small)

  -- Taking a free block away keeps the zone valid.
  pub remove_free-IsValid : IsValid (remove_free z idx order)
  remove_free-IsValid = record {
    small = unfold remove_free in v.small;
    free_inside = unfold remove_free in λ i f. ground (arith, v.free_inside i);
    blocks = unfold remove_free in λ i f. v.blocks i (ground arith);
    apart = unfold remove_free in λ i j f g l. ground (arith, v.apart i j);
    lists = remove-lists;
    total = unfold remove_free in omega (arith, remove-total', remove-sum', v.total);
  }
    where
      remove-total' : (remove_free z idx order).total_free + 2 ^ order ≡ z.total_free
      remove-total' = remove-total

      remove-sum' :
          sum_below z.total_pages (block_size (remove_free z idx order)) + 2 ^ order
          ≡ sum_below z.total_pages (block_size z)
      remove-sum' = remove-sum

  -- It leaves a hole.
  pub remove_free-IsHole : IsHole (remove_free z idx order) idx order
  unfolding remove_free
  remove_free-IsHole = record {
    block = rw (← ord) (v.blocks idx free);
    clear = λ i f. ground (arith, v.apart i idx, v.apart idx i, free, ord);
  }

  -- Its pages, and no others, are no longer free.
  pub remove_free-IsFreePage :
      (p : ℕ)
      → IsFreePage z p
        ↔ (IsFreePage (remove_free z idx order) p ⊎ ((idx ≤ p) × (p < idx + 2 ^ order)))
  unfolding remove_free
  remove_free-IsFreePage p = (forth, back)
    where
      forth :
          IsFreePage z p
          → IsFreePage (remove_free z idx order) p ⊎ ((idx ≤ p) × (p < idx + 2 ^ order))
      forth f = elim (ℕ_discrete idx f.first) [
        | yes e ↦ inr (ground (arith, f.from, f.below, ord))
        | no ne ↦ inl (record {
          first = f.first;
          is_free = ground (arith, f.is_free);
          from = f.from;
          below = f.below;
        })
      ]

      back :
          IsFreePage (remove_free z idx order) p ⊎ ((idx ≤ p) × (p < idx + 2 ^ order))
          → IsFreePage z p
      back (inl f) = record {
        first = f.first;
        is_free = ground (arith, f.is_free);
        from = f.from;
        below = f.below;
      }
      back (inr b) = record { first = idx; is_free = free; from = b.0; below = ground (arith, ord) }
