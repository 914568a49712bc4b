-- ===== src/Heap/FirstFit/Search.antt =====
-- The search for the first block that is large enough.
use mathlib.Core.Path.{subst}
use my_microkernel.Prelude.{
  ℕ, zero, suc, ◌+◌, ◌≤◌, ◌<◌, ◌≡◌, refl, sym, ap, ◌∙◌, arith, true, false, not, ◌==◌, List, [],
  ◌∷◌, ◌++◌, Bool-cases, inl, inr, ◌⊎◌, Option, none, some,
}
use my_microkernel.Heap.FirstFit.{Memory, find_fit}
use my_microkernel.Heap.FirstFit.Blocks.{Block, extent, fits, AllBlocks}
use my_microkernel.Heap.FirstFit.Tiles.{link, Tiles}

-- The first block that fits, with those before and after it.
pub record FirstFit (size : ℕ) (bs : List Block) : Type 0 where
  pub before : List Block
  pub block : Block
  pub after : List Block
  pub splits : bs ≡ before ++ (block ∷ after)
  pub unfit : AllBlocks (λ b. fits size b ≡ false) before
  pub is_free : block.free ≡ true
  pub large : size ≤ block.size

-- What the search finds among the blocks from `a` on.
abbrev pub Finds : (size a : ℕ) → List Block → Option ℕ → Type 0
Finds size a bs r =
    ((r ≡ none) × AllBlocks (λ b. fits size b ≡ false) bs)
    ⊎ ((f : FirstFit size bs) × (r ≡ some (a + extent f.before)))

Finds-later :
    (size a : ℕ) (b : Block) (bs : List Block) (r : Option ℕ)
    → fits size b ≡ false
    → Finds size (a + 16 + b.size) bs r
    → Finds size a (b ∷ bs) r
unfolding extent
Finds-later size a b bs r u (inl (e, all)) = inl (e, (u, all))
Finds-later size a b bs r u (inr (f, e)) = inr (
  record {
    before = b ∷ f.before;
    block = f.block;
    after = f.after;
    splits = ap (λ (l : List Block). b ∷ l) f.splits;
    unfit = (u, f.unfit);
    is_free = f.is_free;
    large = f.large;
  },
  e ∙ ap (λ (x : ℕ). some x) (omega arith),
)

pub find_fit-Finds :
    (m : Memory) (size prev a : ℕ) (bs : List Block) (n : ℕ)
    → 0 < a
    → extent bs ≤ n
    → Tiles m prev a bs
    → Finds size a bs (find_fit m size (link a bs) n)
unfolding find_fit Tiles extent
find_fit-Finds m size prev a [] zero p h t = inl (refl, tt)
find_fit-Finds m size prev a [] (suc n) p h t = inl (refl, tt)
find_fit-Finds m size prev a (b ∷ bs) zero p h t = absurd (omega arith)
find_fit-Finds m size prev a (b ∷ bs) (suc n) p h t =
    let d = t.0 in
    let z : a == 0 ≡ false = ground arith in
    let f : not ((m a).is_free == 0) ≡ b.free = ground (arith, d.is_free) in
    let some_plus : some a ≡ some (a + 0) = ap (λ (x : ℕ). some x) (omega arith) in
    let found : fits size b ≡ true → FirstFit size (b ∷ bs) = λ y. record {
      before = [];
      block = b;
      after = bs;
      splits = refl;
      unfit = tt;
      is_free = ground (arith, y);
      large = ground (arith, y);
    } in
    let later = find_fit-Finds m size a (a + 16 + b.size) bs n (omega arith) (omega arith) t.1 in
    elim (Bool-cases (fits size b)) [
      | inl y ↦ rw (z, f, d.size, y) (inr (found y, some_plus))
      | inr y ↦
          let rest = find_fit m size (link (a + 16 + b.size) bs) n in
          let e : find_fit m size a (suc n) ≡ rest = rw (z, f, d.size, d.next_link, y) refl in
          subst (λ (r : Option ℕ). Finds size a (b ∷ bs) r) (sym e)
            (Finds-later size a b bs rest y later)
    ]
