-- ===== src/Heap/FirstFit/Tiles.antt =====
-- Chains of headers in memory, against lists of blocks.
use mathlib.Core.Path.{subst}
use my_microkernel.Prelude.{ℕ, ◌+◌, ◌≤◌, ◌<◌, ◌≡◌, refl, arith, if◌then◌else◌, List, [], ◌∷◌, ◌++◌}
use my_microkernel.Heap.FirstFit.{Header, Memory}
use my_microkernel.Heap.FirstFit.Blocks.{Block, extent}

-- The pointer to the list of blocks at `a`.
abbrev pub link : ℕ → List Block → ℕ
link a [] = 0
link a (b ∷ bs) = a

-- The header of `b` with its pointers.
pub record Describes (h : Header) (b : Block) (prev next : ℕ) : Type 0 where
  pub size : h.size ≡ b.size
  pub is_free : h.is_free ≡ (if b.free then 1 else 0)
  pub next_link : h.next ≡ next
  pub prev_link : h.prev ≡ prev

-- The blocks lie one behind the other from `a` on, each behind its header.
unfoldable pub Tiles : Memory → (prev a : ℕ) → List Block → Type 0
Tiles m prev a [] = Unit
Tiles m prev a (b ∷ bs) =
    Describes (m a) b prev (link (a + 16 + b.size) bs) × Tiles m a (a + 16 + b.size) bs

-- `n` has the blocks at `a` and is `m` below them.
abbrev pub Rewrites : (m n : Memory) (prev a : ℕ) → List Block → Type 0
Rewrites m n prev a bs = Tiles n prev a bs × ((x : ℕ) → x < a → n x ≡ m x)

-- The address of the last block, if there is one.
unfoldable pub last_of : (prev a : ℕ) → List Block → ℕ
last_of prev a [] = prev
last_of prev a (b ∷ bs) = last_of a (a + 16 + b.size) bs

-- Tiles look at no address below the first one.
pub Tiles-agree :
    (m n : Memory) (prev a : ℕ) (bs : List Block)
    → ((x : ℕ) → a ≤ x → m x ≡ n x)
    → Tiles m prev a bs
    → Tiles n prev a bs
unfolding Tiles
Tiles-agree m n prev a [] e t = tt
Tiles-agree m n prev a (b ∷ bs) e t = (
  subst (λ h. Describes h b prev (link (a + 16 + b.size) bs)) (e a (omega arith)) t.0,
  Tiles-agree m n a (a + 16 + b.size) bs (λ x h. e x (omega arith)) t.1,
)

-- The part of a chain behind its first blocks.
pub Tiles-behind :
    (m : Memory) (prev a : ℕ) (ps bs : List Block)
    → Tiles m prev a (ps ++ bs)
    → Tiles m (last_of prev a ps) (a + extent ps) bs
unfolding Tiles last_of extent
Tiles-behind m prev a [] bs t = rw (plus_zero a) t
  where
    plus_zero : (n : ℕ) → n + 0 ≡ n
    plus_zero n = omega arith
Tiles-behind m prev a (p ∷ ps) bs t =
    let e : a + (16 + p.size + extent ps) ≡ a + 16 + p.size + extent ps = omega arith in
    rw e (Tiles-behind m a (a + 16 + p.size) ps bs t.1)

-- The part behind can be exchanged, if it is empty or not as before.
abbrev pub SameShape : List Block → List Block → Type 0
SameShape [] [] = Unit
SameShape [] (b ∷ bs) = ⊥
SameShape (b ∷ bs) [] = ⊥
SameShape (b ∷ bs) (c ∷ cs) = Unit

link_same :
    (x : ℕ) (ps bs cs : List Block) → SameShape bs cs → link x (ps ++ bs) ≡ link x (ps ++ cs)
link_same x [] [] [] s = refl
link_same x [] [] (c ∷ cs) s = absurd s
link_same x [] (b ∷ bs) [] s = absurd s
link_same x [] (b ∷ bs) (c ∷ cs) s = refl
link_same x (p ∷ ps) bs cs s = refl

pub Tiles-exchange :
    (m n : Memory) (prev a : ℕ) (ps bs cs : List Block)
    → Tiles m prev a (ps ++ bs)
    → ((x : ℕ) → x < a + extent ps → m x ≡ n x)
    → SameShape bs cs
    → Tiles n (last_of prev a ps) (a + extent ps) cs
    → Tiles n prev a (ps ++ cs)
unfolding Tiles last_of extent
Tiles-exchange m n prev a [] bs cs t e s u = rw (← plus_zero a) u
  where
    plus_zero : (n : ℕ) → n + 0 ≡ n
    plus_zero n = omega arith
Tiles-exchange m n prev a (p ∷ ps) bs cs t e s u =
    let d : a + (16 + p.size + extent ps) ≡ a + 16 + p.size + extent ps = omega arith in
    let next = a + 16 + p.size in
    let same : m a ≡ n a = e a (omega arith) in
    (
      subst (λ (l : ℕ). Describes (n a) p prev l) (link_same next ps bs cs s)
          (subst (λ (h : Header). Describes h p prev (link next (ps ++ bs))) same t.0),
      Tiles-exchange m n a next ps bs cs t.1 (λ x h. e x (omega arith)) s (rw (← d) u),
    )
