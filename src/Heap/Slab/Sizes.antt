-- ===== src/Heap/Slab/Sizes.antt =====
-- The choice of the cache for a size.
use my_microkernel.Prelude.{
  ℕ, zero, suc, ◌+◌, ◌≤◌, ◌<◌, ◌≡◌, refl, ap, ◌∙◌, arith, leb, Bool-cases, inl, inr, ◌⊎◌, Option,
  none, some, List, [], ◌∷◌,
}
use my_microkernel.Heap.Slab.{cache_sizes, find_size, find_cache}

-- The size of the cache `i`, and the number of caches.
unfoldable pub nth : List ℕ → ℕ → ℕ
nth [] i = 0
nth (c ∷ cs) zero = c
nth (c ∷ cs) (suc i) = nth cs i

unfoldable pub length : List ℕ → ℕ
length [] = 0
length (c ∷ cs) = suc (length cs)

-- The first size that is large enough, if there is one; the caches are counted from `i`.
abbrev pub Smallest : (size i : ℕ) → List ℕ → Option ℕ → Type 0
Smallest size i cs r =
    ((r ≡ none) × ((j : ℕ) → j < length cs → nth cs j < size))
    ⊎ ((k : ℕ) × (r ≡ some (i + k))
        × (k < length cs)
        × (size ≤ nth cs k)
        × ((j : ℕ) → j < k → nth cs j < size))

later :
    (size k c : ℕ) (cs : List ℕ)
    → c < size
    → ((j : ℕ) → j < k → nth cs j < size)
    → (j : ℕ) → j < suc k
    → nth (c ∷ cs) j < size
unfolding nth
later size k c cs h f zero p = h
later size k c cs h f (suc j) p = f j (omega arith)

find_size-Smallest : (size i : ℕ) (cs : List ℕ) → Smallest size i cs (find_size size i cs)
unfolding find_size length
find_size-Smallest size i [] = inl (refl, λ j p. absurd (omega arith))
find_size-Smallest size i (c ∷ cs) = elim (Bool-cases (leb size c)) [
  | inl y ↦ inr (
    0,
    rw y (ap (λ (x : ℕ). some x) (omega arith)),
    omega arith,
    (unfold nth in ground (arith, y)),
    λ j p. absurd (omega arith),
  )
  | inr z ↦ elim (find_size-Smallest size (i + 1) cs) [
    | inl (e, f) ↦ inl (rw z e, later size (length cs) c cs (ground (arith, z)) f)
    | inr (k, e, p, l, f) ↦ inr (
      suc k,
      rw z (e ∙ ap (λ (x : ℕ). some x) (omega arith)),
      omega arith,
      (unfold nth in l),
      later size k c cs (ground (arith, z)) f,
    )
  ]
]

-- `find_cache` gives the first cache whose objects are large enough, and -1 when none is.
pub find_cache-Smallest : (size : ℕ) → Smallest size 0 cache_sizes (find_cache size)
unfolding find_cache
find_cache-Smallest size = find_size-Smallest size 0 cache_sizes
