-- ===== src/Pmm/Buddy/Alloc.antt =====
-- `buddy_alloc`: the block that it returns, and when it returns none.
use mathlib.Core.Path.{subst}
use my_microkernel.Prelude.{
  ℕ, ◌+◌, ◌-◌, ◌^◌, ◌≤◌, ◌<◌, ◌≡◌, ◌≢◌, sym, ◌∙◌, arith, true, false, ◌⊎◌, inl, inr, ◌↔◌, dec_lt,
  ap, Option, none, some, sum_below, sum_below-eq, Option-cases, update_ne,
}
use my_microkernel.Pmm.Links.{list_empty}
use my_microkernel.Pmm.Buddy.{
  Zone, max_order, head, remove_free, find_order, split, set_order, buddy_alloc,
}
use my_microkernel.Pmm.Buddy.Invariant.{IsValid, IsHole, IsFreePage, linked, tag, block_size}
use my_microkernel.Pmm.Buddy.Blocks.{
  remove_free-IsValid, remove_free-IsHole, remove_free-IsFreePage, remove-total, not_free,
}
use my_microkernel.Pmm.Buddy.Split.{
  find_order-some, find_order-none, first, first_lem, take_block_lem, IsSplit, split-IsSplit,
  pow-le-add,
}

-- The order of a page that starts no free block can be written freely.
module _ (z : Zone) (idx order : ℕ) (v : IsValid z) (h : IsHole z idx order) (k : ℕ) where
  other : (n : ℕ) → linked z n ≡ true → tag (set_order z idx k) n ≡ tag z n
  unfolding set_order
  other n l = ground (arith, not_free z v h)

  set_order-IsValid : IsValid (set_order z idx k)
  set_order-IsValid = record {
    small = unfold set_order in v.small;
    free_inside = unfold set_order in v.free_inside;
    blocks = unfold set_order in λ i f. rw (update_ne z.order idx i k (differs i f)) (v.blocks i f);
    apart = unfold set_order in λ i j f g l. ground (arith, v.apart i j, not_free z v h);
    lists =
        unfold set_order in
        record {
          next_linked = v.lists.next_linked;
          prev_linked = v.lists.prev_linked;
          prev-next = v.lists.prev-next;
          next-prev = v.lists.next-prev;
          next_tag =
              λ n l. same_tag (z.links.next n) n (v.lists.next_linked n l) l (v.lists.next_tag n l);
          prev_tag =
              λ n l. same_tag (z.links.prev n) n (v.lists.prev_linked n l) l (v.lists.prev_tag n l);
        };
    total = unfold set_order in v.total ∙ sums;
  }
    where
      differs : (i : ℕ) → z.is_free i ≡ true → idx ≢ i
      differs i f e = cc (rw (← e) at f, not_free z v h)

      same_tag :
          (m n : ℕ)
          → linked z m ≡ true
          → linked z n ≡ true
          → tag z m ≡ tag z n
          → tag (set_order z idx k) m ≡ tag (set_order z idx k) n
      same_tag m n l l' e = other m l ∙ e ∙ sym (other n l')

      sums :
          sum_below z.total_pages (block_size z)
          ≡ sum_below z.total_pages (block_size (set_order z idx k))
      sums =
          sum_below-eq z.total_pages _ _ (λ i p. unfold set_order in ground (arith, not_free z v h))

  set_order-IsHole : IsHole (set_order z idx k) idx order
  unfolding set_order
  set_order-IsHole = record {
    block = h.block;
    clear = λ i f. ground (arith, h.clear i, not_free z v h);
  }

  set_order-pages : (p : ℕ) → IsFreePage (set_order z idx k) p ↔ IsFreePage z p
  unfolding set_order
  set_order-pages p = (
    λ f. record {
      first = f.first;
      is_free = f.is_free;
      from = f.from;
      below = ground (arith, f.below, f.is_free, not_free z v h);
    },
    λ f. record {
      first = f.first;
      is_free = f.is_free;
      from = f.from;
      below = ground (arith, f.below, f.is_free, not_free z v h);
    },
  )

-- What a successful allocation of 2^order pages at `idx` makes of `z`.
pub record Allocated (z z' : Zone) (idx order : ℕ) : Type 0 where
  pub valid : IsValid z'
  pub hole : IsHole z' idx order
  pub recorded : z'.order idx ≡ order
  pub pages : (p : ℕ) → IsFreePage z p ↔ (IsFreePage z' p ⊎ ((idx ≤ p) × (p < idx + 2 ^ order)))
  pub total : z'.total_free + 2 ^ order ≡ z.total_free

module _ (z : Zone) (v : IsValid z) (order cur : ℕ) (p : order ≤ cur) (q : cur ≤ max_order)
    (some_block : list_empty z.links (head cur) ≡ false) where
  abbrev idx : ℕ
  idx = first z v cur q some_block

  abbrev without : Zone
  without = remove_free z idx cur

  abbrev halved : Zone
  halved = split without idx order (cur - order)

  head_free : (z.is_free idx ≡ true) × (z.order idx ≡ cur)
  head_free = ground (arith, first_lem z v cur q some_block)

  halved-IsSplit : IsSplit without halved idx order (cur - order)
  halved-IsSplit =
      split-IsSplit without idx order (cur - order) cur (omega arith)
        (remove_free-IsValid z v head_free.0 head_free.1)
        (remove_free-IsHole z v head_free.0 head_free.1)

  taken_pages :
      (pg : ℕ) → IsFreePage z pg ↔ (IsFreePage without pg ⊎ ((idx ≤ pg) × (pg < idx + 2 ^ cur)))
  taken_pages = remove_free-IsFreePage z v head_free.0 head_free.1

  halved-Allocated : Allocated z (set_order halved idx order) idx order
  halved-Allocated = record {
    valid = set_order-IsValid halved idx order r.valid r.hole order;
    hole = set_order-IsHole halved idx order r.valid r.hole order;
    recorded = unfold set_order in ground arith;
    pages = λ pg. (forth pg, back pg);
    total = unfold set_order in omega (arith, r.total, taken_total, back_up);
  }
    where
      r : IsSplit without halved idx order (cur - order)
      r = halved-IsSplit

      back_up : 2 ^ (order + (cur - order)) ≡ 2 ^ cur
      back_up = ap (λ k. 2 ^ k) (omega arith)

      taken_total : without.total_free + 2 ^ cur ≡ z.total_free
      taken_total = remove-total z v head_free.0 head_free.1

      low : 2 ^ order ≤ 2 ^ cur
      low = rw (← back_up) (pow-le-add order (cur - order))

      written : (pg : ℕ) → IsFreePage (set_order halved idx order) pg ↔ IsFreePage halved pg
      written = set_order-pages halved idx order r.valid r.hole order

      forth :
          (pg : ℕ)
          → IsFreePage z pg
          → IsFreePage (set_order halved idx order) pg ⊎ ((idx ≤ pg) × (pg < idx + 2 ^ order))
      forth pg f = elim ((taken_pages pg).0 f) [
        | inl g ↦ inl ((written pg).1 ((r.pages pg).1 (inl g)))
        | inr b ↦ elim (dec_lt pg (idx + 2 ^ order)) [
          | yes l ↦ inr (omega (arith, b))
          | no l ↦ inl ((written pg).1 ((r.pages pg).1 (inr (omega (arith, b, back_up)))))
        ]
      ]

      back :
          (pg : ℕ)
          → IsFreePage (set_order halved idx order) pg ⊎ ((idx ≤ pg) × (pg < idx + 2 ^ order))
          → IsFreePage z pg
      back pg (inr b) = (taken_pages pg).1 (inr (omega (arith, b, low)))
      back pg (inl f) = elim ((r.pages pg).0 ((written pg).0 f)) [
        | inl g ↦ (taken_pages pg).1 (inl g)
        | inr b ↦ (taken_pages pg).1 (inr (omega (arith, b, back_up, low)))
      ]

  alloc_at :
      find_order z (max_order + 1 - order) order ≡ some cur
      → buddy_alloc z order ≡ (set_order halved idx order, some idx)
  unfolding buddy_alloc
  alloc_at e = rw (e, take_block_lem z v cur q some_block)

alloc_none :
    (z : Zone) (order : ℕ)
    → find_order z (max_order + 1 - order) order ≡ none
    → buddy_alloc z order ≡ (z, none)
unfolding buddy_alloc
alloc_none z order e = rw e

abbrev Result : Zone → ℕ → Zone × Option ℕ → Type 0
Result z order (z', none) = Unit
Result z order (z', some idx) = Allocated z z' idx order

-- In a valid zone, a successful `buddy_alloc` returns a block of exactly the pages asked for, aligned and inside the
-- zone, whose pages were free and are no longer; no other page changes, the count of free pages
-- falls by the block's size, and the zone stays valid.
pub buddy_alloc-Allocated :
    (z z' : Zone) (order idx : ℕ)
    → IsValid z
    → buddy_alloc z order ≡ (z', some idx)
    → Allocated z z' idx order
buddy_alloc-Allocated z z' order idx v e =
    elim (Option-cases (find_order z (max_order + 1 - order) order)) [
      | inl miss ↦ cc (alloc_none z order miss, e)
      | inr (cur, hit) ↦
          let f = find_order-some z (max_order + 1 - order) order cur hit in
          let q : cur ≤ max_order = omega (arith, f) in
          let a = halved-Allocated z v order cur f.0 q f.2 in
          let same = sym (alloc_at z v order cur f.0 q f.2 hit) ∙ e in
          subst (λ (r : Zone × Option ℕ). Result z order r) same a
    ]

-- In a valid zone, when `buddy_alloc` returns no block, the lists of the order asked for and of
-- all higher ones are empty, and nothing has changed.
pub buddy_alloc-none :
    (z z' : Zone) (order : ℕ)
    → IsValid z
    → buddy_alloc z order ≡ (z', none)
    → (z' ≡ z) × ((k : ℕ) → order ≤ k → k ≤ max_order → list_empty z.links (head k) ≡ true)
buddy_alloc-none z z' order v e = elim (Option-cases (find_order z (max_order + 1 - order) order)) [
  | inl miss ↦ (
    cc (alloc_none z order miss, e),
    λ k p q. find_order-none z (max_order + 1 - order) order k miss p (omega arith),
  )
  | inr (cur, hit) ↦
      let f = find_order-some z (max_order + 1 - order) order cur hit in
      cc (alloc_at z v order cur f.0 (omega (arith, f)) f.2 hit, e)
]
