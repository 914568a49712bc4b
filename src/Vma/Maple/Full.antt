-- ===== src/Vma/Maple/Full.antt =====
-- The insertion into a leaf: with room for another pivot, and into a leaf of nine entries.
use my_microkernel.Prelude.{
  ℕ, ◌+◌, ◌-◌, ◌*◌, ◌/◌, ◌%◌, ◌≤◌, ◌<◌, ◌≡◌, ◌≢◌, sym, ap, ◌∙◌, arith, update_self, update_ne,
  dec_lt,
}
use my_microkernel.Vma.Maple.{nr_entries, pivot, child, set_pivot, set_child}
use my_microkernel.Vma.Maple.Entries.{shift_entries, leaf_insert_at}
use my_microkernel.Vma.Maple.Shift.{shift_entries-other, shift_entries-moved}

-- The words before the count goes up.
unfoldable entered : (ℕ → ℕ) → (leaf pos vma start : ℕ) → ℕ → ℕ
entered m leaf pos vma start =
    let nr = nr_entries m leaf in
    set_child (set_pivot (shift_entries m leaf nr (nr - pos)) leaf pos start) leaf pos vma

entered-other :
    (m : ℕ → ℕ) (leaf pos vma start a : ℕ)
    → leaf + pos ≢ a
    → leaf + 11 + pos ≢ a
    → entered m leaf pos vma start a
      ≡ shift_entries m leaf (nr_entries m leaf) (nr_entries m leaf - pos) a
unfolding entered
entered-other m leaf pos vma start a p q =
    let m1 = shift_entries m leaf (nr_entries m leaf) (nr_entries m leaf - pos) in
    update_ne (set_pivot m1 leaf pos start) (leaf + 11 + pos) a vma q
    ∙ update_ne m1 (leaf + pos) a start p

entered-pos :
    (m : ℕ → ℕ) (leaf pos vma start : ℕ)
    → (pivot (entered m leaf pos vma start) leaf pos ≡ start)
      × (child (entered m leaf pos vma start) leaf pos ≡ vma)
unfolding entered
entered-pos m leaf pos vma start =
    let m1 = shift_entries m leaf (nr_entries m leaf) (nr_entries m leaf - pos) in
    (
      update_ne (set_pivot m1 leaf pos start) (leaf + 11 + pos) (leaf + pos) vma
            (λ e. absurd (omega (arith, e)))
          ∙ update_self m1 (leaf + pos) start,
      update_self (set_pivot m1 leaf pos start) (leaf + 11 + pos) vma,
    )

insert-entered :
    (m : ℕ → ℕ) (leaf pos vma start a : ℕ)
    → leaf + 9 ≢ a
    → leaf_insert_at m leaf pos vma start a ≡ entered m leaf pos vma start a
unfolding leaf_insert_at entered
insert-entered m leaf pos vma start a h =
    let e = entered m leaf pos vma start in
    update_ne e (leaf + 9) a (e (leaf + 9) / 256 * 256 + (nr_entries e leaf + 1) % 256) h

insert-count :
    (m : ℕ → ℕ) (leaf pos vma start : ℕ)
    → nr_entries (leaf_insert_at m leaf pos vma start) leaf
      ≡ (nr_entries (entered m leaf pos vma start) leaf + 1) % 256
unfolding leaf_insert_at entered
insert-count m leaf pos vma start =
    let e = entered m leaf pos vma start in
    let v = e (leaf + 9) / 256 * 256 + (nr_entries e leaf + 1) % 256 in
    ap (λ (x : ℕ). x % 256) (update_self e (leaf + 9) v) ∙ omega arith

-- A word that is not in the places from `pos` on.
entered-kept :
    (m : ℕ → ℕ) (leaf pos vma start a : ℕ)
    → nr_entries m leaf ≤ 9
    → pos ≤ nr_entries m leaf
    → ((k : ℕ) → pos ≤ k → k ≤ nr_entries m leaf → (leaf + k ≢ a) × (leaf + 11 + k ≢ a))
    → entered m leaf pos vma start a ≡ m a
entered-kept m leaf pos vma start a small within o =
    let here = o pos (omega arith) within in
    let nr = nr_entries m leaf in
    entered-other m leaf pos vma start a here.0 here.1
    ∙ shift_entries-other m leaf nr (nr - pos) a (omega arith)
        (λ k p q. o k (omega (arith, p, within)) q)

-- The entry `j` after an insertion at `pos`: those from `pos` on have moved up by one.
pub EntryAt : (m m1 : ℕ → ℕ) → (leaf pos vma start j : ℕ) → Type 0
EntryAt m m1 leaf pos vma start j =
    (j < pos → (pivot m1 leaf j ≡ pivot m leaf j) × (child m1 leaf j ≡ child m leaf j))
    × (j ≡ pos → (pivot m1 leaf j ≡ start) × (child m1 leaf j ≡ vma))
    × (pos < j
        → (pivot m1 leaf j ≡ pivot m leaf (j - 1)) × (child m1 leaf j ≡ child m leaf (j - 1)))

-- An insertion into a leaf of at most eight entries moves the entries from its place on up by one, puts the
-- new one there, and adds one to their number.
pub leaf_insert_at-EntryAt :
    (m : ℕ → ℕ) (leaf pos vma start j : ℕ)
    → nr_entries m leaf ≤ 8
    → pos ≤ nr_entries m leaf
    → j ≤ nr_entries m leaf
    → EntryAt m (leaf_insert_at m leaf pos vma start) leaf pos vma start j
      × (nr_entries (leaf_insert_at m leaf pos vma start) leaf ≡ nr_entries m leaf + 1)
unfolding EntryAt
leaf_insert_at-EntryAt m leaf pos vma start j small within k =
    let nr = nr_entries m leaf in
    let ins = insert-entered m leaf pos vma start in
    let low : leaf + 9 ≢ leaf + j = λ e. absurd (omega (arith, e, k, small)) in
    let high : leaf + 9 ≢ leaf + 11 + j = λ e. absurd (omega (arith, e)) in
    let here = entered-pos m leaf pos vma start in
    let e9 =
      entered-kept m leaf pos vma start (leaf + 9) (omega (arith, small)) within
        (λ x p q. ((λ e. absurd (omega (arith, e, q, small))), (λ e. absurd (omega (arith, e))))) in
    (
      (
        (λ h. (
          ins (leaf + j) low
              ∙ entered-kept m leaf pos vma start (leaf + j) (omega (arith, small)) within (λ x p q.
                (
                  (λ e. absurd (omega (arith, e, p, h))),
                  (λ e. absurd (omega (arith, e, k, small))),
                )),
          ins (leaf + 11 + j) high
              ∙ entered-kept m leaf pos vma start (leaf + 11 + j) (omega (arith, small)) within
                  (λ x p q. (
                    (λ e. absurd (omega (arith, e, q, small))),
                    (λ e. absurd (omega (arith, e, p, h))),
                  )),
        )),
        (λ h. (
          ins (leaf + j) low ∙ ap (λ (x : ℕ). entered m leaf pos vma start (leaf + x)) h ∙ here.0,
          ins (leaf + 11 + j) high
              ∙ ap (λ (x : ℕ). entered m leaf pos vma start (leaf + 11 + x)) h
              ∙ here.1,
        )),
        (λ h.
            let r =
              shift_entries-moved m leaf nr (nr - pos) j (omega arith) (omega (arith, small))
                (omega (arith, h, within)) k in
            (
              ins (leaf + j) low
                  ∙ entered-other m leaf pos vma start (leaf + j)
                      (λ e. absurd (omega (arith, e, h))) (λ e. absurd (omega (arith, e, k, small)))
                  ∙ r.0,
              ins (leaf + 11 + j) high
                  ∙ entered-other m leaf pos vma start (leaf + 11 + j)
                      (λ e. absurd (omega (arith, e, within, small)))
                      (λ e. absurd (omega (arith, e, h)))
                  ∙ r.1,
            )),
      ),
      insert-count m leaf pos vma start
          ∙ ap (λ (x : ℕ). (x % 256 + 1) % 256) e9
          ∙ omega (arith, small),
    )

-- An insertion into a leaf of nine entries writes the pivot behind the ninth one, which is the word of the
-- number of entries. As areas begin at pages, the leaf then counts one entry in place of ten.
pub leaf_insert_at-tenth :
    (m : ℕ → ℕ) (leaf pos vma start : ℕ)
    → nr_entries m leaf ≡ 9
    → pos ≤ 9
    → start % 4096 ≡ 0
    → pivot m leaf 8 % 4096 ≡ 0
    → nr_entries (leaf_insert_at m leaf pos vma start) leaf ≡ 1
leaf_insert_at-tenth m leaf pos vma start nine h s q =
    let nr = nr_entries m leaf in
    let e = entered m leaf pos vma start in
    let word : e (leaf + 9) % 4096 ≡ 0 = elim (dec_lt pos 9) [
      | yes l ↦
          let r =
            shift_entries-moved m leaf nr (nr - pos) 9 (omega arith) (omega (arith, nine))
              (omega (arith, nine, l)) (omega (arith, nine)) in
          let kept =
            entered-other m leaf pos vma start (leaf + 9) (λ x. absurd (omega (arith, x, l)))
              (λ x. absurd (omega (arith, x))) in
          ap (λ (x : ℕ). x % 4096) (kept ∙ r.0) ∙ q
      | no n ↦
          let at : pos ≡ 9 = omega (arith, n, h) in
          ap (λ (x : ℕ). x % 4096)
            (ap (λ (x : ℕ). e (leaf + x)) (sym at) ∙ (entered-pos m leaf pos vma start).0)
          ∙ s
    ] in
    insert-count m leaf pos vma start ∙ omega (arith, word)
