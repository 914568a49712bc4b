-- ===== src/Pmm/Buddy/Split.antt =====
-- `buddy_alloc`: finding a block, and halving it down to the order asked for.
use mathlib.Core.Path.{subst}
use native.Mathlib.Nat.{pow-suc, add-zero, add-suc}
use my_microkernel.Prelude.{
  ℕ, zero, suc, ◌+◌, ◌*◌, ◌^◌, ◌≤◌, ◌<◌, ◌≡◌, refl, ◌∙◌, arith, true, false, ◌⊎◌, inl, inr,
  Bool-cases, ◌↔◌, dec_lt, shift_twice, none, some, add32, ℕ_discrete,
}
use my_microkernel.Pmm.Links.{list_empty, list_pop-nonempty}
use my_microkernel.Pmm.Buddy.{
  Zone, max_order, head, page, page_index, add_free, remove_free, find_order, split, take_block,
}
use my_microkernel.Pmm.Buddy.Invariant.{IsValid, IsHole, IsFreePage}
use my_microkernel.Pmm.Buddy.Blocks.{add_free-IsValid, add_free-IsFreePage, add-total}

pub find_order-some :
    (z : Zone) (left cur c : ℕ)
    → find_order z left cur ≡ some c
    → (cur ≤ c) × (c < cur + left) × (list_empty z.links (head c) ≡ false)
unfolding find_order
find_order-some z zero cur c e = cc
find_order-some z (suc left) cur c e = elim (Bool-cases (list_empty z.links (head cur))) [
  | inl h ↦ ground (arith, find_order-some z left (cur + 1) c)
  | inr h ↦ let same : cur ≡ c = ground arith in (omega arith, omega arith, rw (← same) h)
]

pub find_order-none :
    (z : Zone) (left cur k : ℕ)
    → find_order z left cur ≡ none
    → cur ≤ k
    → k < cur + left
    → list_empty z.links (head k) ≡ true
unfolding find_order
find_order-none z zero cur k e p q = absurd (omega arith)
find_order-none z (suc left) cur k e p q = elim (ℕ_discrete cur k) [
  | yes s ↦ rw (← s) (ground arith)
  | no ne ↦ ground (arith, find_order-none z left (cur + 1) k)
]

-- The first node of a list that is not empty is a free block of the list's order.
module _ (z : Zone) (v : IsValid z) (cur : ℕ) (small : cur ≤ max_order)
    (some_block : list_empty z.links (head cur) ≡ false) where
  abbrev pub first : ℕ
  first = page_index (z.links.next (head cur))

  pub first_lem :
      (max_order < z.links.next (head cur)) × (z.is_free first ≡ true) × (z.order first ≡ cur)
  unfolding list_empty
  first_lem =
      ground (arith, v.lists.next_linked (head cur), v.lists.next_tag (head cur), small, some_block)

  pub take_block_lem : take_block z cur ≡ (remove_free z first cur, first)
  unfolding take_block remove_free
  take_block_lem =
      let pop = list_pop-nonempty z.links (head cur) some_block in
      let e : page first ≡ z.links.next (head cur) = omega (arith, first_lem) in rw (pop, e)

-- The halves of a hole: the upper one can be filled, and leaves the lower one.
module _ (z : Zone) (v : IsValid z) (idx k : ℕ) (h : IsHole z idx (suc k)) where
  upper-IsHole : IsHole z (idx + 2 ^ k) k
  upper-IsHole = record {
    block = record {
      small = omega (arith, h.block.small);
      half = h.block.half * 2 + 1;
      aligned = omega (arith, h.block.aligned, shift_twice h.block.half k);
      inside = omega (arith, h.block.inside, pow-suc 2 k);
    };
    clear = λ i f. ground (arith, h.clear i f, pow-suc 2 k);
  }

  lower-IsHole : IsHole (add_free z (idx + 2 ^ k) k) idx k
  unfolding add_free
  lower-IsHole = record {
    block = record {
      small = omega (arith, h.block.small);
      half = h.block.half * 2;
      aligned = omega (arith, h.block.aligned, shift_twice h.block.half k);
      inside = omega (arith, h.block.inside, pow-suc 2 k);
    };
    clear = λ i f. ground (arith, h.clear i, pow-suc 2 k);
  }

-- `z'` is `z` with the block at `idx` of order `order + left` halved down to a hole of `order`.
pub record IsSplit (z z' : Zone) (idx order left : ℕ) : Type 0 where
  pub valid : IsValid z'
  pub hole : IsHole z' idx order
  pub pages :
      (p : ℕ)
      → IsFreePage z' p
        ↔ (IsFreePage z p ⊎ ((idx + 2 ^ order ≤ p) × (p < idx + 2 ^ (order + left))))
  pub total : z'.total_free + 2 ^ order ≡ z.total_free + 2 ^ (order + left)

pub pow-le-add : (k left : ℕ) → 2 ^ k ≤ 2 ^ (k + left)
pow-le-add k zero = rw (add-zero k) (omega arith)
pow-le-add k (suc left) =
    rw (add-suc k left) (omega (arith, pow-le-add k left, pow-suc 2 (k + left)))

IsSplit-done : (z : Zone) (idx order : ℕ) → IsValid z → IsHole z idx order → IsSplit z z idx order 0
IsSplit-done z idx order v h = record {
  valid = v;
  hole = h;
  pages =
      λ p. (inl, rw (add-zero order) (λ r. elim r [ inl f ↦ f | inr b ↦ absurd (omega arith) ]));
  total = rw (add-zero order);
}

module _ (z : Zone) (idx order left : ℕ) (v : IsValid z)
    (h : IsHole z idx (suc (order + left))) where
  abbrev upper : ℕ
  upper = idx + 2 ^ (order + left)

  no_wrap : add32 idx (2 ^ (order + left)) ≡ upper
  no_wrap = omega (arith, h.block.inside, v.small, pow-suc 2 (order + left))

  upper_pages :
      (p : ℕ)
      → IsFreePage (add_free z upper (order + left)) p
        ↔ (IsFreePage z p ⊎ ((upper ≤ p) × (p < upper + 2 ^ (order + left))))
  upper_pages = add_free-IsFreePage z v (upper-IsHole z v idx (order + left) h)

  IsSplit-step :
      (z' : Zone)
      → IsSplit (add_free z upper (order + left)) z' idx order left
      → IsSplit z z' idx order (suc left)
  IsSplit-step z' r = record {
    valid = r.valid;
    hole = r.hole;
    pages = λ p. rw (add-suc order left) (forth p, back p);
    total = rw (add-suc order left) (
        omega (
          arith,
          r.total,
          add-total z v (upper-IsHole z v idx (order + left) h),
          pow-suc 2 (order + left),
        ));
  }
    where
      grow : 2 ^ suc (order + left) ≡ 2 ^ (order + left) + 2 ^ (order + left)
      grow = omega (arith, pow-suc 2 (order + left))

      forth :
          (p : ℕ)
          → IsFreePage z' p
          → IsFreePage z p ⊎ ((idx + 2 ^ order ≤ p) × (p < idx + 2 ^ suc (order + left)))
      forth p f = elim ((r.pages p).0 f) [
        | inr b ↦ inr (omega (arith, b, grow, pow-le-add order left))
        | inl g ↦ elim ((upper_pages p).0 g) [
          | inl k ↦ inl k
          | inr b ↦ inr (omega (arith, b, grow, pow-le-add order left))
        ]
      ]

      back :
          (p : ℕ)
          → IsFreePage z p ⊎ ((idx + 2 ^ order ≤ p) × (p < idx + 2 ^ suc (order + left)))
          → IsFreePage z' p
      back p (inl f) = (r.pages p).1 (inl ((upper_pages p).1 (inl f)))
      back p (inr b) = elim (dec_lt p upper) [
        | yes l ↦ (r.pages p).1 (inr (omega (arith, b)))
        | no l ↦ (r.pages p).1 (inl ((upper_pages p).1 (inr (omega (arith, b, grow)))))
      ]

pub split-IsSplit :
    (z : Zone) (idx order left k : ℕ)
    → k ≡ order + left
    → IsValid z
    → IsHole z idx k
    → IsSplit z (split z idx order left) idx order left
unfolding split
split-IsSplit z idx order zero k e v h =
    IsSplit-done z idx order v (subst (λ j. IsHole z idx j) (e ∙ add-zero order) h)
split-IsSplit z idx order (suc left) k e v h =
    let h' : IsHole z idx (suc (order + left)) =
      subst (λ j. IsHole z idx j) (e ∙ add-suc order left) h in
    rw (no_wrap z idx order left v h') (
      IsSplit-step z idx order left v h' _ (
        split-IsSplit (add_free z (idx + 2 ^ (order + left)) (order + left)) idx order left
          (order + left) refl (add_free-IsValid z v (upper-IsHole z v idx (order + left) h'))
          (lower-IsHole z v idx (order + left) h')))
