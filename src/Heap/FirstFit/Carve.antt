-- ===== src/Heap/FirstFit/Carve.antt =====
-- The taking of a block, in memory.
use mathlib.Core.Path.{subst}
use my_microkernel.Prelude.{
  ℕ, ◌+◌, ◌-◌, ◌≤◌, ◌<◌, ◌≡◌, ◌≢◌, refl, sym, ap, ◌∙◌, arith, true, false, ltb, ◌==◌, update,
  update_self, update_ne, word, add32, sub32, List, ◌∷◌, ◌++◌, Bool-cases, inl, inr,
}
use my_microkernel.Heap.FirstFit.{Header, Memory, take, split_block}
use my_microkernel.Heap.FirstFit.Blocks.{Block, carve}
use my_microkernel.Heap.FirstFit.Tiles.{link, Describes, Tiles, Tiles-agree, Rewrites}
use my_microkernel.Heap.FirstFit.Links.{
  set_prev, set_prev_ne, link_ne, set_prev-Tiles, set_prev-below,
}

-- The memory after a split at `a`, with the new header `new` written at `b`.
abbrev split_at : Memory → (a b after size : ℕ) → Header → Memory
split_at m a b after size new =
    let m2 = set_prev (update m b new) after b in
    update m2 a (record (m2 a) { size = size; next = b })

split_at_first :
    (m : Memory) (a b after size : ℕ) (new : Header)
    → a ≢ b
    → after ≢ a
    → split_at m a b after size new a ≡ record (m a) { size = size; next = b }
split_at_first m a b after size new h i =
    let m1 = update m b new in
    let m2 = set_prev m1 after b in
    update_self m2 a (record (m2 a) { size = size; next = b })
    ∙ ap (λ (x : Header). record x { size = size; next = b })
        (set_prev_ne m1 after b a i ∙ update_ne m b a new (λ e. h (sym e)))

split_at_new :
    (m : Memory) (a b after size : ℕ) (new : Header)
    → a ≢ b
    → after ≢ b
    → split_at m a b after size new b ≡ new
split_at_new m a b after size new h i = ground arith

set_prev-update :
    (m : Memory) (b after x : ℕ) (new : Header)
    → after ≢ b
    → b ≢ x
    → set_prev (update m b new) after b x ≡ set_prev m after b x
set_prev-update m b after x new h i =
    let e = update_ne m b after new (λ e. h (sym e)) in
    let f = update_ne m b x new i in
    elim (Bool-cases (after == 0)) [ inl y ↦ rw y f | inr z ↦ rw (z, e, f) refl ]

split_at_other :
    (m : Memory) (a b after size x : ℕ) (new : Header)
    → a ≢ x
    → b ≢ x
    → after ≢ b
    → split_at m a b after size new x ≡ set_prev m after b x
split_at_other m a b after size x new h i j =
    let m2 = set_prev (update m b new) after b in
    update_ne m2 a x (record (m2 a) { size = size; next = b }) h
    ∙ set_prev-update m b after x new j i

-- Two blocks in place of the one at `a`.
split-Tiles :
    (m n : Memory) (prev a size : ℕ) (b : Block) (bs : List Block)
    → size + 24 < b.size
    → n a ≡ (record { size = size; is_free = 0; next = a + 16 + size; prev = (m a).prev })
    → n (a + 16 + size)
      ≡ (record { size = b.size - size - 16; is_free = 1; next = (m a).next; prev = a })
    → ((x : ℕ) → a + 16 + size < x → n x ≡ set_prev m (m a).next (a + 16 + size) x)
    → Tiles m prev a (b ∷ bs)
    → Tiles n prev a (
        record { size = size; free = false }
        ∷ record { size = b.size - size - 16; free = true }
        ∷ bs)
unfolding Tiles
split-Tiles m n prev a size b bs h first second third t =
    let d = t.0 in
    let new = a + 16 + size in
    let past = a + 16 + b.size in
    let e : new + 16 + (b.size - size - 16) ≡ past = omega arith in
    let left : Block = record { size = b.size - size - 16; free = true } in
    let after : Tiles (set_prev m (link past bs) new) new past bs =
      set_prev-Tiles m a past new bs (omega arith) t.1 in
    let there : Tiles (set_prev m (m a).next new) new past bs =
      subst (λ (x : ℕ). Tiles (set_prev m x new) new past bs) (sym d.next_link) after in
    (
      subst (λ (x : Header). Describes x (record { size = size; free = false }) prev new)
          (sym first)
          (record { size = refl; is_free = refl; next_link = refl; prev_link = d.prev_link }),
      (
        subst (λ (x : ℕ). Describes (n new) left a (link x bs)) (sym e)
            (subst (λ (x : Header). Describes x left a (link past bs)) (sym second)
              (record { size = refl; is_free = refl; next_link = d.next_link; prev_link = refl })),
        subst (λ (x : ℕ). Tiles n new x bs) (sym e)
            (Tiles-agree (set_prev m (m a).next new) n new past bs
              (λ x i. sym (third x (omega arith))) there),
      ),
    )

-- What `take` writes when it splits, the sums being in range.
take_split :
    (m : Memory) (a size : ℕ)
    → size + 24 < (m a).size
    → a + 16 + (m a).size < word
    → take m a size ≡ (
        let n =
          split_at m a
            (a + 16 + size)
            (m a).next
            size
            (record { size = (m a).size - size - 16; is_free = 1; next = (m a).next; prev = a }) in
        update n a (record (n a) { is_free = 0 }))
unfolding take split_block
take_split m a size h i =
    let e1 : sub32 (m a).size size ≡ (m a).size - size = omega arith in
    let e2 : sub32 ((m a).size - size) 16 ≡ (m a).size - size - 16 = omega arith in
    let e3 : add32 a 16 ≡ a + 16 = omega arith in
    let e4 : add32 (a + 16) size ≡ a + 16 + size = omega arith in
    let e5 : ltb 24 ((m a).size - size) ≡ true = ground arith in
    let e6 : (a + 16 + size) == a ≡ false = ground arith in rw (e1, e5, e2, e3, e4, e6) refl

take_whole :
    (m : Memory) (a size : ℕ)
    → size ≤ (m a).size
    → (m a).size ≤ size + 24
    → (m a).size < word
    → take m a size ≡ update m a (record (m a) { is_free = 0 })
unfolding take
take_whole m a size h i j =
    let e1 : sub32 (m a).size size ≡ (m a).size - size = omega arith in
    let e2 : ltb 24 ((m a).size - size) ≡ false = ground arith in rw (e1, e2) refl

whole-Tiles :
    (m : Memory) (prev a : ℕ) (b : Block) (bs : List Block)
    → Tiles m prev a (b ∷ bs)
    → Tiles
        (update m a (record (m a) { is_free = 0 }))
        prev
        a
        (record { size = b.size; free = false } ∷ bs)
unfolding Tiles
whole-Tiles m prev a b bs t =
    let d = t.0 in
    let n = update m a (record (m a) { is_free = 0 }) in
    let used : Block = record { size = b.size; free = false } in
    let one : Describes (record (m a) { is_free = 0 }) used prev (link (a + 16 + b.size) bs) =
      record { size = d.size; is_free = refl; next_link = d.next_link; prev_link = d.prev_link } in
    (
      subst (λ (x : Header). Describes x used prev (link (a + 16 + b.size) bs))
          (sym (update_self m a (record (m a) { is_free = 0 }))) one,
      Tiles-agree m n a (a + 16 + b.size) bs
          (λ x i. sym (update_ne m a x (record (m a) { is_free = 0 }) (λ e. omega (arith, e)))) t.1,
    )

-- The memory after a split, address by address.
split-at_once :
    (m : Memory) (prev a size : ℕ) (b : Block) (bs : List Block)
    → size + 24 < b.size
    → 0 < a
    → a + 16 + b.size < word
    → Tiles m prev a (b ∷ bs)
    → Rewrites m (take m a size) prev a (
        record { size = size; free = false }
        ∷ record { size = b.size - size - 16; free = true }
        ∷ bs)
unfolding Tiles
split-at_once m prev a size b bs h p w t =
    let d = t.0 in
    let new = a + 16 + size in
    let past = a + 16 + b.size in
    let after_ne : (x : ℕ) → 0 < x → past ≢ x → (m a).next ≢ x =
      λ x i j e. link_ne past x bs j i (sym d.next_link ∙ e) in
    let head : Header = record {
      size = (m a).size - size - 16;
      is_free = 1;
      next = (m a).next;
      prev = a;
    } in
    let s = split_at m a new (m a).next size head in
    let n = update s a (record (s a) { is_free = 0 }) in
    let e : take m a size ≡ n = take_split m a size (rw d.size h) (rw d.size w) in
    let ab : a ≢ new = λ q. omega (arith, q) in
    let fa = after_ne a p (λ q. omega (arith, q)) in
    let fn = after_ne new (omega arith) (λ q. omega (arith, q)) in
    let first : n a ≡ (record { size = size; is_free = 0; next = new; prev = (m a).prev }) =
      update_self s a (record (s a) { is_free = 0 })
      ∙ ap (λ (x : Header). record x { is_free = 0 })
          (split_at_first m a new (m a).next size head ab fa) in
    let second : n new
        ≡ (record { size = b.size - size - 16; is_free = 1; next = (m a).next; prev = a }) =
      update_ne s a new (record (s a) { is_free = 0 }) ab
      ∙ split_at_new m a new (m a).next size head ab fn
      ∙ ap (λ (x : ℕ). record { size = x - size - 16; is_free = 1; next = (m a).next; prev = a })
          d.size in
    let other : (x : ℕ) → a ≢ x → new ≢ x → n x ≡ set_prev m (m a).next new x = λ x i j.
      update_ne s a x (record (s a) { is_free = 0 }) i
      ∙ split_at_other m a new (m a).next size x head i j fn in
    let low : (x : ℕ) → x < a → n x ≡ m x = λ x i.
      other x (λ q. omega (arith, q)) (λ q. omega (arith, q))
      ∙ subst (λ (y : ℕ). set_prev m y new x ≡ m x) (sym d.next_link)
          (set_prev-below m past new x bs (omega arith)) in
    subst
      (λ (k : Memory). Rewrites m k prev a (
        record { size = size; free = false }
        ∷ record { size = b.size - size - 16; free = true }
        ∷ bs))
      (sym e)
      (
        split-Tiles m n prev a size b bs h first second
            (λ x i. other x (λ q. omega (arith, q)) (λ q. omega (arith, q))) t,
        low,
      )

-- Taking a block carves it, and writes nothing below it.
pub take-Tiles :
    (m : Memory) (prev a size : ℕ) (b : Block) (bs : List Block)
    → size ≤ b.size
    → 0 < a
    → a + 16 + b.size < word
    → Tiles m prev a (b ∷ bs)
    → Rewrites m (take m a size) prev a (carve size b ++ bs)
unfolding Tiles
take-Tiles m prev a size b bs h p w t = elim (Bool-cases (ltb 24 (b.size - size))) [
  | inl y ↦ rw y (split-at_once m prev a size b bs (ground (arith, y)) p w t)
  | inr z ↦
      let d = t.0 in
      let n = update m a (record (m a) { is_free = 0 }) in
      let small : b.size ≤ size + 24 = ground (arith, z) in
      let e : take m a size ≡ n =
        take_whole m a size (rw d.size h) (rw d.size small) (rw d.size (omega arith)) in
      let low : (x : ℕ) → x < a → n x ≡ m x =
        λ x i. update_ne m a x (record (m a) { is_free = 0 }) (λ q. omega (arith, q)) in
      rw z (
        subst (λ (k : Memory). Rewrites m k prev a (record { size = b.size; free = false } ∷ bs))
          (sym e) (whole-Tiles m prev a b bs t, low))
]
