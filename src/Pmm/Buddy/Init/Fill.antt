-- ===== src/Pmm/Buddy/Init/Fill.antt =====
-- The free lists after `pmm_buddy_init`.
use mathlib.Core.Path.{subst}
use native.Mathlib.Nat.{div-add-mod'}
use my_microkernel.Prelude.{
  ℕ, zero, suc, ◌+◌, ◌-◌, ◌/◌, ◌%◌, ◌^◌, ◌≤◌, ◌<◌, ◌≡◌, ◌≢◌, refl, sym, arith, true, ◌&&◌, ltb, leb,
  ◌==◌, if◌then◌else◌, inl, inr, Bool-cases, ◌↔◌, dec_lt, sum_below, bit_and, and-low_mask, lt→ltb,
  ge→ltb,
}
use my_microkernel.Pmm.Links.{Links, IsLinked, list_init}
use my_microkernel.Pmm.Buddy.{Zone, max_order, add_free}
use my_microkernel.Pmm.Buddy.Init.{
  Layout, init_lists, zero_links, cleared, choose_order, fill, filled_zone,
}
use my_microkernel.Pmm.Buddy.Invariant.{IsBlock, IsValid, IsHole, IsFreePage, pow_pos, linked, tag}
use my_microkernel.Pmm.Buddy.Blocks.{add_free-IsValid, add_free-IsFreePage}

choose_order-IsBlock :
    (idx managed o : ℕ)
    → o ≤ max_order
    → idx < managed
    → IsBlock managed idx (choose_order idx managed o)
unfolding choose_order
choose_order-IsBlock idx managed zero h p = record {
  small = omega arith;
  half = idx;
  aligned = omega arith;
  inside = omega arith;
}
choose_order-IsBlock idx managed (suc o) h p =
    elim (Bool-cases (bit_and idx (2 ^ suc o - 1) == 0 && leb (idx + 2 ^ suc o) managed)) [
      | inr e ↦ rw e (choose_order-IsBlock idx managed o (omega arith) p)
      | inl e ↦
          let m : idx % 2 ^ suc o ≡ 0 = ground (arith, and-low_mask (suc o) idx) in
          rw e (record {
            small = h;
            half = idx / 2 ^ suc o;
            aligned = omega (arith, div-add-mod' idx (2 ^ suc o), m);
            inside = ground arith;
          })
    ]

-- All pages below `idx` are free, and no others.
record IsFilled (z : Zone) (idx : ℕ) : Type 0 where
  valid : IsValid z
  upto : idx ≤ z.total_pages
  pages : (p : ℕ) → IsFreePage z p ↔ (p < idx)
  counted : z.total_free ≡ idx

module _ (z : Zone) (idx : ℕ) (f : IsFilled z idx) (more : idx < z.total_pages) where
  abbrev order : ℕ
  order = choose_order idx z.total_pages max_order

  next-IsBlock : IsBlock z.total_pages idx order
  next-IsBlock = choose_order-IsBlock idx z.total_pages max_order (omega arith) more

  next-IsHole : IsHole z idx order
  next-IsHole = record {
    block = next-IsBlock;
    clear = λ i h.
        let last = (f.pages (i + (2 ^ z.order i - 1))).0 (record {
          first = i;
          is_free = h;
          from = omega arith;
          below = omega (arith, pow_pos (z.order i));
        }) in
        inl (omega (arith, last, pow_pos (z.order i)));
  }

  next-IsFilled : IsFilled (add_free z idx order) (idx + 2 ^ order)
  next-IsFilled = record {
    valid = add_free-IsValid z f.valid next-IsHole;
    upto = unfold add_free in next-IsBlock.inside;
    pages = λ p. (forth p, back p);
    counted = unfold add_free in omega (arith, f.counted, next-IsBlock.inside, f.valid.small);
  }
    where
      forth : (p : ℕ) → IsFreePage (add_free z idx order) p → p < idx + 2 ^ order
      forth p g = elim ((add_free-IsFreePage z f.valid next-IsHole p).0 g) [
        | inl old ↦ omega (arith, (f.pages p).0 old)
        | inr new ↦ omega (arith, new)
      ]

      back : (p : ℕ) → p < idx + 2 ^ order → IsFreePage (add_free z idx order) p
      back p l = elim (dec_lt p idx) [
        | yes old ↦ (add_free-IsFreePage z f.valid next-IsHole p).1 (inl ((f.pages p).1 old))
        | no new ↦ (add_free-IsFreePage z f.valid next-IsHole p).1 (inr (omega arith))
      ]

same_total : (z : Zone) (i k : ℕ) → (add_free z i k).total_pages ≡ z.total_pages
unfolding add_free
same_total z i k = refl

fill-IsFilled :
    (left : ℕ) (z : Zone) (idx : ℕ)
    → IsFilled z idx
    → z.total_pages ≤ idx + left
    → IsFilled (fill z idx left) z.total_pages
unfolding fill
fill-IsFilled zero z idx f enough = subst (λ n. IsFilled z n) (omega (arith, f.upto)) f
fill-IsFilled (suc left) z idx f enough = elim (dec_lt idx z.total_pages) [
  | no done ↦
      rw (ge→ltb idx z.total_pages (omega arith))
        (subst (λ n. IsFilled z n) (omega (arith, f.upto)) f)
  | yes more ↦ rw (lt→ltb idx z.total_pages more) (
      subst
        (λ n.
          IsFilled (fill (add_free z idx (order z idx f more)) (idx + 2 ^ order z idx f more) left)
            n)
        (same_total z idx (order z idx f more))
        (fill-IsFilled left (add_free z idx (order z idx f more)) (idx + 2 ^ order z idx f more)
          (next-IsFilled z idx f more)
          (rw (same_total z idx (order z idx f more))
            (omega (arith, enough, pow_pos (order z idx f more))))))
]

init_lists_lem :
    (n i k : ℕ) (l : Links)
    → ((init_lists n i l).next k ≡ (if leb i k && ltb k (i + n) then k else l.next k))
      × ((init_lists n i l).prev k ≡ (if leb i k && ltb k (i + n) then k else l.prev k))
unfolding init_lists list_init
init_lists_lem zero i k l = ground arith
init_lists_lem (suc n) i k l = ground (arith, init_lists_lem n (i + 1) k (list_init l i))

sum_below-zero : (n : ℕ) → sum_below n (λ i. 0) ≡ 0
unfolding sum_below
sum_below-zero zero = refl
sum_below-zero (suc n) = omega (arith, sum_below-zero n)

module _ (z : Zone) (l : Layout) (small : l.managed_pages < 2 ^ 20) where
  abbrev empty : Zone
  empty = record (cleared z) { base_phys = l.managed_start; total_pages = l.managed_pages }

  heads_only : (n : ℕ) → n ≤ max_order → (empty.links.next n ≡ n) × (empty.links.prev n ≡ n)
  unfolding cleared
  heads_only n h = ground (arith, init_lists_lem (max_order + 1) 0 n zero_links)

  head_of : (n : ℕ) → linked empty n ≡ true → n ≤ max_order
  unfolding cleared
  head_of n h = ground arith

  empty-lists : IsLinked empty.links (linked empty) (tag empty)
  empty-lists = record {
    next_linked = λ n h. rw ((heads_only n (head_of n h)).0) h;
    prev_linked = λ n h. rw ((heads_only n (head_of n h)).1) h;
    prev-next = λ n h. rw ((heads_only n (head_of n h)).0) (heads_only n (head_of n h)).1;
    next-prev = λ n h. rw ((heads_only n (head_of n h)).1) (heads_only n (head_of n h)).0;
    next_tag = λ n h. rw ((heads_only n (head_of n h)).0);
    prev_tag = λ n h. rw ((heads_only n (head_of n h)).1);
  }

  none_free : (i : ℕ) → empty.is_free i ≢ true
  unfolding cleared
  none_free i e = cc

  empty-IsFilled : IsFilled empty 0
  empty-IsFilled = record {
    valid = record {
      small = small;
      free_inside = λ i f. absurd (none_free i f);
      blocks = λ i f. absurd (none_free i f);
      apart = λ i j f. absurd (none_free i f);
      lists = empty-lists;
      total = unfold cleared in sym (sum_below-zero l.managed_pages);
    };
    upto = omega arith;
    pages = λ p. (λ g. absurd (none_free g.first g.is_free), λ h. absurd (omega arith));
    counted = unfold cleared in refl;
  }

  -- The zone that `pmm_buddy_init` fills for a layout of fewer than 2^20 pages, before its self test: it is
  -- valid and ready, a page is free when and only when it is a managed one, and the count of free pages is
  -- that of the managed pages.
  pub filled_zone-IsFilled :
      IsValid (filled_zone z l)
      × ((p : ℕ) → IsFreePage (filled_zone z l) p ↔ (p < l.managed_pages))
      × ((filled_zone z l).total_free ≡ l.managed_pages)
      × ((filled_zone z l).ready ≡ true)
  unfolding filled_zone
  filled_zone-IsFilled = (
    record {
      small = v.small;
      free_inside = v.free_inside;
      blocks = v.blocks;
      apart = v.apart;
      lists = v.lists;
      total = v.total;
    },
    λ p. (
      λ g.
          (f.pages p).0
            (record { first = g.first; is_free = g.is_free; from = g.from; below = g.below }),
      λ h.
          let g = (f.pages p).1 h in
          record { first = g.first; is_free = g.is_free; from = g.from; below = g.below },
    ),
    f.counted,
    refl,
  )
    where
      f : IsFilled (fill empty 0 l.managed_pages) l.managed_pages
      f = fill-IsFilled l.managed_pages empty 0 empty-IsFilled (omega arith)

      v : IsValid (fill empty 0 l.managed_pages)
      v = f.valid
