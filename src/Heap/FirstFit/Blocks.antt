-- ===== src/Heap/FirstFit/Blocks.antt =====
-- The heap of heap_first_fit.c as a list of blocks, in the order of their addresses.
use mathlib.Core.Path.{subst}
use my_microkernel.Prelude.{
  ℕ, ◌+◌, ◌-◌, ◌≤◌, ◌≡◌, refl, sym, ap, ◌∙◌, arith, Bool, true, false, ◌&&◌, ltb, leb,
  if◌then◌else◌, Bool-cases, inl, inr, List, [], ◌∷◌, ◌++◌,
}

-- A block: the bytes of its data, and whether it is free.
pub record Block : Type 0 where
  pub size : ℕ
  pub free : Bool

-- The bytes of the blocks with their headers.
unfoldable pub extent : List Block → ℕ
extent [] = 0
extent (b ∷ bs) = 16 + b.size + extent bs

-- A block that an allocation of `size` bytes can take.
abbrev pub fits : ℕ → Block → Bool
fits size b = b.free && leb size b.size

abbrev pub AllBlocks : (Block → Type 0) → List Block → Type 0
AllBlocks P [] = Unit
AllBlocks P (b ∷ bs) = P b × AllBlocks P bs

-- The taken block, and what is left of it behind a header of its own, when more than 24 bytes are.
abbrev pub taken : ℕ → Block → Block
taken size b = record { size = if ltb 24 (b.size - size) then size else b.size; free = false }

abbrev pub left_over : ℕ → Block → List Block
left_over size b =
    if ltb 24 (b.size - size) then record { size = b.size - size - 16; free = true } ∷ [] else []

abbrev pub carve : ℕ → Block → List Block
carve size b = taken size b ∷ left_over size b

-- A free block of `size` bytes, merged with the free blocks that follow.
unfoldable pub absorb_size : ℕ → List Block → ℕ
absorb_size size [] = size
absorb_size size (b ∷ bs) = if b.free then absorb_size (size + 16 + b.size) bs else size

unfoldable pub absorb_rest : List Block → List Block
absorb_rest [] = []
absorb_rest (b ∷ bs) = if b.free then absorb_rest bs else b ∷ bs

abbrev pub absorb : ℕ → List Block → List Block
absorb size bs = record { size = absorb_size size bs; free = true } ∷ absorb_rest bs

-- A free block merged into the block before, if that is free; `blocks` starts with the free block.
unfoldable pub join_back : List Block → List Block → List Block
join_back [] blocks = blocks
join_back (p ∷ []) [] = p ∷ []
join_back (p ∷ []) (b ∷ bs) =
    if p.free then record { size = p.size + 16 + b.size; free = true } ∷ bs else p ∷ b ∷ bs
join_back (p ∷ q ∷ ps) blocks = p ∷ join_back (q ∷ ps) blocks

-- The blocks after the block between `before` and `after` is freed.
abbrev pub freed : (before : List Block) → (b : Block) → (after : List Block) → List Block
freed before b after = join_back before (absorb b.size after)

-- No two free blocks follow one another, nor a free block a free one before the list.
unfoldable pub Coalesced : Bool → List Block → Type 0
Coalesced before [] = Unit
Coalesced before (b ∷ bs) = ((before && b.free) ≡ false) × Coalesced b.free bs

pub extent-append : (bs cs : List Block) → extent (bs ++ cs) ≡ extent bs + extent cs
unfolding extent
extent-append [] cs = omega arith
extent-append (b ∷ bs) cs = omega (arith, extent-append bs cs)

pub extent-absorb :
    (n : ℕ) (bs : List Block) → absorb_size n bs + extent (absorb_rest bs) ≡ n + extent bs
unfolding extent absorb_size absorb_rest
extent-absorb n [] = refl
extent-absorb n (b ∷ bs) = ground (arith, extent-absorb (n + 16 + b.size) bs)

pub extent-join_back : (ps bs : List Block) → extent (join_back ps bs) ≡ extent ps + extent bs
unfolding extent join_back
extent-join_back [] bs = omega arith
extent-join_back (p ∷ []) [] = omega arith
extent-join_back (p ∷ []) (b ∷ bs) = ground arith
extent-join_back (p ∷ q ∷ ps) bs = omega (arith, extent-join_back (q ∷ ps) bs)

absorb_rest-Coalesced :
    (f : Bool) (bs : List Block) → Coalesced f bs → Coalesced true (absorb_rest bs)
unfolding absorb_rest Coalesced
absorb_rest-Coalesced f [] c = tt
absorb_rest-Coalesced f (b ∷ bs) c = ground (arith, absorb_rest-Coalesced b.free bs)

join_back-Coalesced :
    (f : Bool) (p : Block) (ps : List Block) (n : ℕ) (cs bs : List Block)
    → Coalesced f (p ∷ (ps ++ cs))
    → Coalesced true bs
    → Coalesced f (join_back (p ∷ ps) (record { size = n; free = true } ∷ bs))
unfolding Coalesced join_back
join_back-Coalesced f p [] n cs bs c d = ground (arith, c.0)
join_back-Coalesced f p (q ∷ ps) n cs bs c d = (c.0, join_back-Coalesced p.free q ps n cs bs c.1 d)

Coalesced-behind :
    (f : Bool) (ps : List Block) (b : Block) (bs : List Block)
    → Coalesced f (ps ++ (b ∷ bs))
    → Coalesced b.free bs
unfolding Coalesced
Coalesced-behind f [] b bs c = c.1
Coalesced-behind f (p ∷ ps) b bs c = Coalesced-behind p.free ps b bs c.1

pub freed-Coalesced :
    (ps : List Block) (b : Block) (bs : List Block)
    → Coalesced false (ps ++ (b ∷ bs))
    → Coalesced false (freed ps b bs)
freed-Coalesced [] b bs c =
    unfold Coalesced join_back in
    (refl, absorb_rest-Coalesced b.free bs (Coalesced-behind false [] b bs c))
freed-Coalesced (p ∷ ps) b bs c =
    join_back-Coalesced false p ps (absorb_size b.size bs) (b ∷ bs) (absorb_rest bs) c
      (absorb_rest-Coalesced b.free bs (Coalesced-behind false (p ∷ ps) b bs c))

Coalesced-weaken : (bs : List Block) → Coalesced true bs → Coalesced false bs
unfolding Coalesced
Coalesced-weaken [] c = tt
Coalesced-weaken (b ∷ bs) c = (refl, c.1)

-- Taking a block leaves no two free blocks next to one another.
carve-Coalesced :
    (f : Bool) (size : ℕ) (b : Block) (bs : List Block)
    → b.free ≡ true
    → Coalesced b.free bs
    → Coalesced f (carve size b ++ bs)
unfolding Coalesced
carve-Coalesced f size b bs e c =
    let d : Coalesced true bs = subst (λ (x : Bool). Coalesced x bs) e c in
    elim (Bool-cases (ltb 24 (b.size - size))) [
      | inl y ↦ rw y (ground arith, (refl, d))
      | inr z ↦ rw z (ground arith, Coalesced-weaken bs d)
    ]

pub carved-Coalesced :
    (f : Bool) (ps : List Block) (size : ℕ) (b : Block) (bs : List Block)
    → b.free ≡ true
    → Coalesced f (ps ++ (b ∷ bs))
    → Coalesced f (ps ++ (carve size b ++ bs))
unfolding Coalesced
carved-Coalesced f [] size b bs e c = carve-Coalesced f size b bs e c.1
carved-Coalesced f (p ∷ ps) size b bs e c = (c.0, carved-Coalesced p.free ps size b bs e c.1)

pub extent-carve : (size : ℕ) (b : Block) → size ≤ b.size → extent (carve size b) ≡ 16 + b.size
unfolding extent
extent-carve size b h = ground arith

join_back_used :
    (f : Bool) (p : Block) (ps : List Block) (n : ℕ) (cs : List Block)
    → Coalesced f (p ∷ (ps ++ (record { size = n; free = true } ∷ cs)))
    → join_back (p ∷ ps) (record { size = n; free = true } ∷ cs)
      ≡ p ∷ (ps ++ (record { size = n; free = true } ∷ cs))
unfolding Coalesced join_back
join_back_used f p [] n cs c = ground (arith, c.1)
join_back_used f p (q ∷ ps) n cs c =
    ap (λ (l : List Block). p ∷ l) (join_back_used p.free q ps n cs c.1)

join_back_same :
    (ps : List Block) (n : ℕ) (cs : List Block)
    → Coalesced false (ps ++ (record { size = n; free = true } ∷ cs))
    → join_back ps (record { size = n; free = true } ∷ cs)
      ≡ ps ++ (record { size = n; free = true } ∷ cs)
unfolding join_back
join_back_same [] n cs c = refl
join_back_same (p ∷ ps) n cs c = join_back_used false p ps n cs c

absorb_none :
    (n : ℕ) (bs : List Block) → Coalesced true bs → (absorb_size n bs ≡ n) × (absorb_rest bs ≡ bs)
unfolding Coalesced absorb_size absorb_rest
absorb_none n [] c = (refl, refl)
absorb_none n (b ∷ bs) c = ground (arith, c.0)

absorb_left :
    (size : ℕ) (b : Block) (bs : List Block)
    → size ≤ b.size
    → b.free ≡ true
    → Coalesced true bs
    → absorb (taken size b).size (left_over size b ++ bs) ≡ b ∷ bs
unfolding absorb_size absorb_rest
absorb_left size b bs h e c = elim (Bool-cases (ltb 24 (b.size - size))) [
  | inl y ↦
      let n : size + 16 + (b.size - size - 16) ≡ b.size = ground (arith, y) in
      let (p, q) = absorb_none b.size bs c in rw (y, n, p, q, ← e) refl
  | inr z ↦ let (p, q) = absorb_none b.size bs c in rw (z, p, q, ← e) refl
]

-- Freeing the block that was taken gives the blocks of before.
pub freed-carve :
    (ps : List Block) (size : ℕ) (b : Block) (bs : List Block)
    → size ≤ b.size
    → b.free ≡ true
    → Coalesced false (ps ++ (b ∷ bs))
    → freed ps (taken size b) (left_over size b ++ bs) ≡ ps ++ (b ∷ bs)
freed-carve ps size b bs h e c =
    let same : record { size = b.size; free = true } ≡ b =
      λ i. record { size = b.size; free = sym e i } in
    let d : Coalesced true bs =
      subst (λ (x : Bool). Coalesced x bs) e (Coalesced-behind false ps b bs c) in
    let c1 : Coalesced false (ps ++ (record { size = b.size; free = true } ∷ bs)) =
      subst (λ (x : Block). Coalesced false (ps ++ (x ∷ bs))) (sym same) c in
    ap (λ (l : List Block). join_back ps l)
      (absorb_left size b bs h e d ∙ ap (λ (x : Block). x ∷ bs) (sym same))
    ∙ join_back_same ps b.size bs c1
    ∙ ap (λ (x : Block). ps ++ (x ∷ bs)) same
