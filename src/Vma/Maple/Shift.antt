-- ===== src/Vma/Maple/Shift.antt =====
-- The shifting loop of `leaf_insert_at`, word by word.
use mathlib.Core.Path.{subst}
use my_microkernel.Prelude.{
  ℕ, zero, suc, ◌+◌, ◌-◌, ◌≤◌, ◌<◌, ◌≡◌, ◌≢◌, refl, sym, ◌∙◌, arith, ◌⊎◌, inl, inr, update_self,
  update_ne, ℕ_discrete,
}
use my_microkernel.Vma.Maple.{pivot, child, set_pivot, set_child}
use my_microkernel.Vma.Maple.Entries.{shift_entries}

-- One round.
shift_once : (ℕ → ℕ) → (leaf i : ℕ) → ℕ → ℕ
shift_once m leaf i =
    let m1 = set_pivot m leaf i (pivot m leaf (i - 1)) in
    set_child m1 leaf i (child m1 leaf (i - 1))

shift_once-other :
    (m : ℕ → ℕ) (leaf i a : ℕ) → leaf + i ≢ a → leaf + 11 + i ≢ a → shift_once m leaf i a ≡ m a
unfolding shift_once
shift_once-other m leaf i a p q =
    let m1 = set_pivot m leaf i (pivot m leaf (i - 1)) in
    update_ne m1 (leaf + 11 + i) a (child m1 leaf (i - 1)) q
    ∙ update_ne m (leaf + i) a (pivot m leaf (i - 1)) p

shift_once-pivot :
    (m : ℕ → ℕ) (leaf i : ℕ) → pivot (shift_once m leaf i) leaf i ≡ pivot m leaf (i - 1)
unfolding shift_once
shift_once-pivot m leaf i =
    let m1 = set_pivot m leaf i (pivot m leaf (i - 1)) in
    update_ne m1 (leaf + 11 + i) (leaf + i) (child m1 leaf (i - 1)) (λ e. absurd (omega (arith, e)))
    ∙ update_self m (leaf + i) (pivot m leaf (i - 1))

shift_once-child :
    (m : ℕ → ℕ) (leaf i : ℕ)
    → i ≤ 9
    → 1 ≤ i
    → child (shift_once m leaf i) leaf i ≡ child m leaf (i - 1)
unfolding shift_once
shift_once-child m leaf i h k =
    let m1 = set_pivot m leaf i (pivot m leaf (i - 1)) in
    update_self m1 (leaf + 11 + i) (child m1 leaf (i - 1))
    ∙ update_ne m (leaf + i) (leaf + 11 + (i - 1)) (pivot m leaf (i - 1))
        (λ e. absurd (omega (arith, e, h, k)))

-- The words that `n` rounds from `i` down leave as they are.
pub shift_entries-other :
    (m : ℕ → ℕ) (leaf i n a : ℕ)
    → n ≤ i
    → ((j : ℕ) → i - n < j → j ≤ i → (leaf + j ≢ a) × (leaf + 11 + j ≢ a))
    → shift_entries m leaf i n a ≡ m a
unfolding shift_entries shift_once
shift_entries-other m leaf i zero a h o = refl
shift_entries-other m leaf i (suc n) a h o =
    let here = o i (omega (arith, h)) (omega arith) in
    shift_entries-other (shift_once m leaf i) leaf (i - 1) n a (omega (arith, h))
      (λ j p q. o j (omega (arith, p, h)) (omega (arith, q, h)))
    ∙ shift_once-other m leaf i a here.0 here.1

-- The pivots and the slots move up by one.
pub shift_entries-moved :
    (m : ℕ → ℕ) (leaf i n j : ℕ)
    → n ≤ i
    → i ≤ 9
    → i - n < j
    → j ≤ i
    → (pivot (shift_entries m leaf i n) leaf j ≡ pivot m leaf (j - 1))
      × (child (shift_entries m leaf i n) leaf j ≡ child m leaf (j - 1))
unfolding shift_entries shift_once
shift_entries-moved m leaf i zero j h b p q = absurd (omega (arith, p, q))
shift_entries-moved m leaf i (suc n) j h b p q = elim (ℕ_discrete j i) [
  | yes e ↦
      let m1 = shift_once m leaf i in
      let low : (a : ℕ)
          → (a ≡ leaf + i) ⊎ (a ≡ leaf + 11 + i)
          → shift_entries m1 leaf (i - 1) n a ≡ m1 a =
        λ a w. shift_entries-other m1 leaf (i - 1) n a (omega (arith, h)) (λ k x y. (
          (λ z. absurd (sides k a i leaf w (inl z) y (omega (arith, h)) b)),
          (λ z. absurd (sides k a i leaf w (inr z) y (omega (arith, h)) b)),
        )) in
      (
        subst (λ (x : ℕ). shift_entries m1 leaf (i - 1) n (leaf + x) ≡ pivot m leaf (x - 1)) (sym e)
            (low (leaf + i) (inl refl) ∙ shift_once-pivot m leaf i),
        subst (λ (x : ℕ). shift_entries m1 leaf (i - 1) n (leaf + 11 + x) ≡ child m leaf (x - 1))
            (sym e)
            (low (leaf + 11 + i) (inr refl) ∙ shift_once-child m leaf i b (omega (arith, h))),
      )
  | no e ↦
      let r =
        shift_entries-moved (shift_once m leaf i) leaf (i - 1) n j (omega (arith, h))
          (omega (arith, b)) (omega (arith, p, h)) (omega (arith, q, e, h)) in
      (
        r.0
            ∙ shift_once-other m leaf i (leaf + (j - 1))
                (λ z. absurd (omega (arith, z, q, p, h, b, e)))
                (λ z. absurd (omega (arith, z, q, p, h, b, e))),
        r.1
            ∙ shift_once-other m leaf i (leaf + 11 + (j - 1))
                (λ z. absurd (omega (arith, z, q, p, h, b, e)))
                (λ z. absurd (omega (arith, z, q, p, h, b, e))),
      )
]
  where
    sides :
        (k a i leaf : ℕ)
        → (a ≡ leaf + i) ⊎ (a ≡ leaf + 11 + i)
        → (leaf + k ≡ a) ⊎ (leaf + 11 + k ≡ a)
        → k ≤ i - 1
        → 1 ≤ i
        → i ≤ 9
        → ⊥
    sides k a i leaf w z y h b = ground (arith, w, z, y, h, b)
