-- ===== src/Pmm/Buddy/Invariant.antt =====
-- The invariant of a buddy zone, and the facts about its blocks that hold by themselves.
use my_microkernel.Prelude.{
  ℕ, zero, suc, ◌+◌, ◌-◌, ◌*◌, ◌/◌, ◌^◌, ◌≤◌, ◌<◌, ◌≡◌, arith, Bool, true, leb, if◌then◌else◌, word,
  sum_below, ◌⊎◌, inl, inr, Bool-cases, xor-pow, partner, and-clear_bit,
}
use native.Mathlib.Nat.{one-le-pow}
use my_microkernel.Pmm.Links.{IsLinked}
use my_microkernel.Pmm.Buddy.{Zone, max_order, parent, calc_buddy_index}

-- Pages of the free block that starts at `i`, 0 if none does.
abbrev pub block_size : Zone → ℕ → ℕ
block_size z i = if z.is_free i then 2 ^ z.order i else 0

-- The nodes that are in some list: the heads, and the first pages of the free blocks.
abbrev pub linked : Zone → ℕ → Bool
linked z n = if leb n max_order then true else z.is_free (n - (max_order + 1))

-- The order of the list that a node is in.
abbrev pub tag : Zone → ℕ → ℕ
tag z n = if leb n max_order then n else z.order (n - (max_order + 1))

-- [idx, idx + 2^order) is a block of a zone of `total` pages.
pub record IsBlock (total idx order : ℕ) : Type 0 where
  pub small : order ≤ max_order
  pub half : ℕ
  pub aligned : idx ≡ half * 2 ^ order
  pub inside : idx + 2 ^ order ≤ total

-- The blocks [i, i + a) and [j, j + b) have no page in common.
abbrev pub Apart : (i a j b : ℕ) → Type 0
Apart i a j b = (i + a ≤ j) ⊎ (j + b ≤ i)

pub record IsValid (z : Zone) : Type 0 where
  pub small : z.total_pages < 2 ^ 20
  pub free_inside : (i : ℕ) → z.is_free i ≡ true → i < z.total_pages
  pub blocks : (i : ℕ) → z.is_free i ≡ true → IsBlock z.total_pages i (z.order i)
  pub apart : (i j : ℕ) → z.is_free i ≡ true → z.is_free j ≡ true → i < j → i + 2 ^ z.order i ≤ j
  pub lists : IsLinked z.links (linked z) (tag z)
  pub total : z.total_free ≡ sum_below z.total_pages (block_size z)

-- A block of the zone that no free block meets.
pub record IsHole (z : Zone) (idx order : ℕ) : Type 0 where
  pub block : IsBlock z.total_pages idx order
  pub clear : (i : ℕ) → z.is_free i ≡ true → Apart i (2 ^ z.order i) idx (2 ^ order)

-- The page lies in a free block.
pub record IsFreePage (z : Zone) (p : ℕ) : Type 0 where
  pub first : ℕ
  pub is_free : z.is_free first ≡ true
  pub from : first ≤ p
  pub below : p < first + 2 ^ z.order first

pub pow_pos : (k : ℕ) → 0 < 2 ^ k
pow_pos k = one-le-pow k 2 (omega arith)

-- Disjoint blocks that end at or before `m` have at most `m` pages.
sum_disjoint :
    (z : Zone) (n m : ℕ)
    → IsValid z
    → ((i : ℕ) → i < n → z.is_free i ≡ true → i + 2 ^ z.order i ≤ m)
    → sum_below n (block_size z) ≤ m
unfolding sum_below
sum_disjoint z zero m v h = omega arith
sum_disjoint z (suc n) m v h = elim (Bool-cases (z.is_free n)) [
  | inl e ↦
      let below = sum_disjoint z n n v (λ i p f. v.apart i n f e p) in ground (arith, below, h n)
  | inr e ↦ let below = sum_disjoint z n m v (λ i p. h i (omega arith)) in ground (arith, below)
]

-- In a valid zone the count of free pages is at most the number of pages.
pub total_free-le : (z : Zone) → IsValid z → z.total_free ≤ z.total_pages
total_free-le z v =
    omega (
      arith,
      v.total,
      sum_disjoint z z.total_pages z.total_pages v (λ i p f. (v.blocks i f).inside),
    )

-- The partner block of a pair, and the block that the two make.
pub buddy_index :
    (order half : ℕ) → calc_buddy_index (half * 2 ^ order) order ≡ partner half * 2 ^ order
buddy_index order half = xor-pow order half

pub parent_index :
    (order half : ℕ)
    → order ≤ max_order
    → half * 2 ^ order < word
    → parent (half * 2 ^ order) order ≡ half / 2 * 2 ^ suc order
parent_index order half h s = and-clear_bit order 32 half (omega arith) s
