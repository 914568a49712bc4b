-- ===== src/Heap/FirstFit/Links.antt =====
-- The pointers back of blocks.
use mathlib.Core.Path.{subst}
use my_microkernel.Prelude.{
  ℕ, ◌+◌, ◌<◌, ◌≡◌, ◌≢◌, refl, sym, arith, ◌==◌, if◌then◌else◌, update, List, [], ◌∷◌,
}
use my_microkernel.Heap.FirstFit.{Header, Memory}
use my_microkernel.Heap.FirstFit.Blocks.{Block}
use my_microkernel.Heap.FirstFit.Tiles.{link, Describes, Tiles, Tiles-agree}

-- Setting the pointer back of the block at `at`, if there is one.
abbrev pub set_prev : Memory → (at p : ℕ) → Memory
set_prev m at p = if at == 0 then m else update m at (record (m at) { prev = p })

pub set_prev_self : (m : Memory) (a p : ℕ) → 0 < a → set_prev m a p a ≡ record (m a) { prev = p }
set_prev_self m a p h = ground arith

pub set_prev_ne : (m : Memory) (a p x : ℕ) → a ≢ x → set_prev m a p x ≡ m x
set_prev_ne m a p x h = ground arith

-- A link is 0 or leads to the place.
pub link_ne : (a x : ℕ) (bs : List Block) → a ≢ x → 0 < x → link a bs ≢ x
link_ne a x [] h i e = omega (arith, e)
link_ne a x (b ∷ bs) h i e = h e

-- The blocks after, once the first of them points back to `p`.
pub set_prev-Tiles :
    (m : Memory) (prev a p : ℕ) (bs : List Block)
    → 0 < a
    → Tiles m prev a bs
    → Tiles (set_prev m (link a bs) p) p a bs
unfolding Tiles
set_prev-Tiles m prev a p [] h t = tt
set_prev-Tiles m prev a p (b ∷ bs) h t =
    let d = t.0 in
    let one : Describes (record (m a) { prev = p }) b p (link (a + 16 + b.size) bs) = record {
      size = d.size;
      is_free = d.is_free;
      next_link = d.next_link;
      prev_link = refl;
    } in
    (
      subst (λ (x : Header). Describes x b p (link (a + 16 + b.size) bs))
          (sym (set_prev_self m a p h)) one,
      Tiles-agree m (set_prev m a p) a (a + 16 + b.size) bs
          (λ x i. sym (set_prev_ne m a p x (λ e. omega (arith, e)))) t.1,
    )

pub set_prev-below :
    (m : Memory) (a p x : ℕ) (bs : List Block) → x < a → set_prev m (link a bs) p x ≡ m x
set_prev-below m a p x [] h = refl
set_prev-below m a p x (b ∷ bs) h = ground arith
