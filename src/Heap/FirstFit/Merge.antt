-- ===== src/Heap/FirstFit/Merge.antt =====
-- The merging of free blocks, in memory.
use mathlib.Core.Path.{subst}
use my_microkernel.Prelude.{
  ℕ, zero, suc, ◌+◌, ◌≤◌, ◌<◌, ◌≡◌, ◌≢◌, refl, sym, ap, ◌∙◌, arith, true, false, not, ◌==◌,
  if◌then◌else◌, update, update_self, update_ne, word, add32, List, [], ◌∷◌, ◌++◌, Bool-cases, inl,
  inr,
}
use my_microkernel.Heap.FirstFit.{Header, Memory, merge_with_next, merge_forward, merge_backward}
use my_microkernel.Heap.FirstFit.Blocks.{Block, extent, absorb, absorb_size, absorb_rest, join_back}
use my_microkernel.Heap.FirstFit.Tiles.{link, Describes, Tiles, Tiles-agree, Rewrites}
use my_microkernel.Heap.FirstFit.Links.{
  link_ne, set_prev, set_prev-Tiles, set_prev-below, set_prev_ne,
}

-- The block `b`, merged with the block `c` behind it.
abbrev pub merged : (b c : Block) → Block
merged b c = record { size = b.size + 16 + c.size; free = b.free }

abbrev widen : Memory → (a next size : ℕ) → Memory
widen m a next size = set_prev (update m a (record (m a) { size = size; next = next })) next a

update_twice : (m : Memory) (a : ℕ) (v w : Header) → update (update m a v) a w ≡ update m a w
update_twice m a v w =
    let at : (x : ℕ) → update (update m a v) a w x ≡ update m a w x = λ x. ground arith in
    λ i x. at x i

-- What `merge_with_next` writes, the sum being in range.
merge_with_next-widen :
    (m : Memory) (a : ℕ)
    → (m a).next ≢ a
    → (m a).size + 16 + (m (m a).next).size < word
    → merge_with_next m a ≡ widen m a (m (m a).next).next ((m a).size + 16 + (m (m a).next).size)
unfolding merge_with_next
merge_with_next-widen m a h w =
    let e1 : a == (m a).next ≡ false = ground arith in
    let e2 : a == a ≡ true = ground arith in
    let e3 : add32 (m a).size (add32 16 (m (m a).next).size)
        ≡ (m a).size + 16 + (m (m a).next).size =
      omega arith in
    let next = (m (m a).next).next in
    let size = (m a).size + 16 + (m (m a).next).size in
    rw (e2, e1, e3)
      (ap (λ (k : Memory). set_prev k next a)
        (update_twice m a (record (m a) { size = size })
          (record (m a) { size = size; next = next })))

widen-Tiles :
    (m : Memory) (prev a : ℕ) (b c : Block) (bs : List Block)
    → 0 < a
    → Tiles m prev a (b ∷ c ∷ bs)
    → Tiles
        (widen m a (link (a + 16 + (b.size + 16 + c.size)) bs) (b.size + 16 + c.size))
        prev
        a
        (merged b c ∷ bs)
unfolding Tiles
widen-Tiles m prev a b c bs p t =
    let d = t.0 in
    let size = b.size + 16 + c.size in
    let past = a + 16 + size in
    let head : Header = record (m a) { size = size; next = link past bs } in
    let n = update m a head in
    let k = set_prev n (link past bs) a in
    let e : a + 16 + b.size + 16 + c.size ≡ past = omega arith in
    let at : k a ≡ head =
      set_prev_ne n (link past bs) a a (link_ne past a bs (λ q. omega (arith, q)) p)
      ∙ update_self m a head in
    let rest : Tiles n (a + 16 + b.size) past bs =
      Tiles-agree m n (a + 16 + b.size) past bs
        (λ x i. sym (update_ne m a x head (λ q. omega (arith, q))))
        (subst (λ (x : ℕ). Tiles m (a + 16 + b.size) x bs) e t.1.1) in
    (
      subst (λ (x : Header). Describes x (merged b c) prev (link past bs)) (sym at)
          (record { size = refl; is_free = d.is_free; next_link = refl; prev_link = d.prev_link }),
      set_prev-Tiles n (a + 16 + b.size) past a bs (omega arith) rest,
    )

widen-below :
    (m : Memory) (a past size x : ℕ) (bs : List Block)
    → a < past
    → x < a
    → widen m a (link past bs) size x ≡ m x
widen-below m a past size x bs h i =
    let head : Header = record (m a) { size = size; next = link past bs } in
    set_prev-below (update m a head) past a x bs (omega arith)
    ∙ update_ne m a x head (λ q. omega (arith, q))

-- `merge_with_next` makes two blocks one, and writes nothing below them.
pub merge_with_next-Tiles :
    (m : Memory) (prev a : ℕ) (b c : Block) (bs : List Block)
    → 0 < a
    → a + 16 + b.size + 16 + c.size < word
    → Tiles m prev a (b ∷ c ∷ bs)
    → Rewrites m (merge_with_next m a) prev a (merged b c ∷ bs)
unfolding Tiles
merge_with_next-Tiles m prev a b c bs p w t =
    let size = b.size + 16 + c.size in
    let past = a + 16 + size in
    let victim = a + 16 + b.size in
    let next : (m a).next ≡ victim = t.0.next_link in
    let vsize : (m (m a).next).size ≡ c.size = rw next t.1.0.size in
    let vnext : (m (m a).next).next ≡ link past bs =
      rw next (t.1.0.next_link ∙ ap (λ (x : ℕ). link x bs) (omega arith)) in
    let total : (m a).size + 16 + (m (m a).next).size ≡ size = omega (arith, t.0.size, vsize) in
    let e : merge_with_next m a ≡ widen m a (link past bs) size =
      merge_with_next-widen m a (λ q. omega (arith, q, next)) (omega (arith, total))
      ∙ ap (λ (x : ℕ). widen m a x ((m a).size + 16 + (m (m a).next).size)) vnext
      ∙ ap (λ (x : ℕ). widen m a (link past bs) x) total in
    subst (λ (k : Memory). Rewrites m k prev a (merged b c ∷ bs)) (sym e)
      (widen-Tiles m prev a b c bs p t, λ x i. widen-below m a past size x bs (omega arith) i)

free_link :
    (h : Header) (b : Block) (prev next : ℕ) → Describes h b prev next → h.is_free == 0 ≡ not b.free
free_link h b prev next d = ground (arith, d.is_free)

absorb_free :
    (size : ℕ) (b : Block) (bs : List Block)
    → b.free ≡ true
    → absorb size (b ∷ bs) ≡ absorb (size + 16 + b.size) bs
unfolding absorb_size absorb_rest
absorb_free size b bs e = λ i.
    record { size = if e i then absorb_size (size + 16 + b.size) bs else size; free = true }
    ∷ (if e i then absorb_rest bs else b ∷ bs)

absorb_used :
    (size : ℕ) (b : Block) (bs : List Block)
    → b.free ≡ false
    → absorb size (b ∷ bs) ≡ record { size = size; free = true } ∷ b ∷ bs
unfolding absorb_size absorb_rest
absorb_used size b bs e = λ i.
    record { size = if e i then absorb_size (size + 16 + b.size) bs else size; free = true }
    ∷ (if e i then absorb_rest bs else b ∷ bs)

Rewrites-eq :
    (m k l : Memory) (prev a : ℕ) (bs cs : List Block)
    → k ≡ l
    → bs ≡ cs
    → Rewrites m l prev a cs
    → Rewrites m k prev a bs
Rewrites-eq m k l prev a bs cs e f r =
    subst (λ (x : Memory). Rewrites m x prev a bs) (sym e)
      (subst (λ (y : List Block). Rewrites m l prev a y) (sym f) r)

-- `merge_forward` makes the block and all the free blocks behind it one.
pub merge_forward-Tiles :
    (m : Memory) (prev a n : ℕ) (size : ℕ) (bs : List Block)
    → 0 < a
    → a + 16 + size + extent bs < word
    → extent bs ≤ n
    → Tiles m prev a (record { size = size; free = true } ∷ bs)
    → Rewrites m (merge_forward m a n) prev a (absorb size bs)
unfolding Tiles extent merge_forward absorb_size absorb_rest
merge_forward-Tiles m prev a zero size [] p w h t = (t, λ x i. refl)
merge_forward-Tiles m prev a (suc n) size [] p w h t =
    let e : merge_forward m a (suc n) ≡ m = rw t.0.next_link refl in
    subst (λ (k : Memory). Rewrites m k prev a (record { size = size; free = true } ∷ [])) (sym e)
      (t, λ x i. refl)
merge_forward-Tiles m prev a zero size (b ∷ bs) p w h t = absurd (omega arith)
merge_forward-Tiles m prev a (suc n) size (b ∷ bs) p w h t =
    let next = a + 16 + size in
    let some_next : next == 0 ≡ false = ground arith in
    let state = free_link (m next) b a (link (next + 16 + b.size) bs) t.1.0 in
    let k = merge_with_next m a in
    let k1 = merge_forward m a (suc n) in
    elim (Bool-cases b.free) [
      | inl y ↦
          let e : merge_forward m a (suc n) ≡ merge_forward k a n =
            rw (t.0.next_link, some_next, state, y) refl in
          let one =
            merge_with_next-Tiles m prev a (record { size = size; free = true }) b bs p
              (omega arith) t in
          let all =
            merge_forward-Tiles k prev a n (size + 16 + b.size) bs p (omega arith) (omega arith)
              one.0 in
          Rewrites-eq m k1 (merge_forward k a n) prev a (absorb size (b ∷ bs))
            (absorb (size + 16 + b.size) bs) e (absorb_free size b bs y)
            (all.0, λ x i. all.1 x i ∙ one.1 x i)
      | inr z ↦
          let e : k1 ≡ m = rw (t.0.next_link, some_next, state, z) refl in
          Rewrites-eq m k1 m prev a (absorb size (b ∷ bs))
            (record { size = size; free = true } ∷ b ∷ bs) e (absorb_used size b bs z)
            (t, λ x i. refl)
    ]

join_back_free :
    (p b : Block) (bs : List Block) → p.free ≡ true → join_back (p ∷ []) (b ∷ bs) ≡ merged p b ∷ bs
unfolding join_back
join_back_free p b bs e =
    λ i. if e i then record { size = p.size + 16 + b.size; free = sym e i } ∷ bs else p ∷ b ∷ bs

join_back_used :
    (p b : Block) (bs : List Block) → p.free ≡ false → join_back (p ∷ []) (b ∷ bs) ≡ p ∷ b ∷ bs
unfolding join_back
join_back_used p b bs e =
    λ i. if e i then record { size = p.size + 16 + b.size; free = true } ∷ bs else p ∷ b ∷ bs

link-join_back :
    (a : ℕ) (p : Block) (ps : List Block) (b : Block) (bs : List Block)
    → link a (join_back (p ∷ ps) (b ∷ bs)) ≡ a
unfolding join_back
link-join_back a p [] b bs = ground arith
link-join_back a p (q ∷ ps) b bs = refl

-- `merge_backward` of the block behind `p ∷ ps` merges it into the last of them, if that is free.
pub merge_backward-Tiles :
    (m : Memory) (prev a x : ℕ) (p : Block) (ps : List Block) (b : Block) (bs : List Block)
    → 0 < a
    → x ≡ a + extent (p ∷ ps)
    → x + 16 + b.size < word
    → b.free ≡ true
    → Tiles m prev a (p ∷ (ps ++ (b ∷ bs)))
    → Rewrites m (merge_backward m x) prev a (join_back (p ∷ ps) (b ∷ bs))
unfolding Tiles extent join_back merge_backward
merge_backward-Tiles m prev a x p [] b bs h e w f t =
    let at : x ≡ a + 16 + p.size = omega arith in
    let before : (m x).prev ≡ a = rw at t.1.0.prev_link in
    let a_set : a == 0 ≡ false = ground arith in
    let state = free_link (m a) p prev (a + 16 + p.size) t.0 in
    let k = merge_backward m x in
    let goal = join_back (p ∷ []) (b ∷ bs) in
    elim (Bool-cases p.free) [
      | inl y ↦
          let one : k ≡ merge_with_next m a = rw (before, a_set, state, y) refl in
          Rewrites-eq m k (merge_with_next m a) prev a goal (merged p b ∷ bs) one
            (join_back_free p b bs y) (merge_with_next-Tiles m prev a p b bs h (omega arith) t)
      | inr z ↦
          let none : k ≡ m = rw (before, a_set, state, z) refl in
          Rewrites-eq m k m prev a goal (p ∷ b ∷ bs) none (join_back_used p b bs z) (t, λ x i. refl)
    ]
merge_backward-Tiles m prev a x p (q ∷ ps) b bs h e w f t =
    let next = a + 16 + p.size in
    let (u, low) = merge_backward-Tiles m a next x q ps b bs (omega arith) (omega arith) w f t.1 in
    let k = merge_backward m x in
    let here : Describes (k a) p prev next =
      subst (λ (y : Header). Describes y p prev next) (sym (low a (omega arith))) t.0 in
    (
      (subst (λ (y : ℕ). Describes (k a) p prev y) (sym (link-join_back next q ps b bs)) here, u),
      λ y i. low y (omega arith),
    )
