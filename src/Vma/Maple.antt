-- ===== src/Vma/Maple.antt =====
-- src/kernel/mm/vma_maple.c: the back end that keeps the areas in a B+ tree. The pool of nodes is an array of
-- words: a node is the address of its first word, its nine pivots are the words 0 to 8, the word 9 holds
-- `nr_entries` in its low byte and `is_leaf` in the next one, the word 10 is the parent, and the words from 11
-- on the ten children or slots. A store to the tenth pivot is one to the word 9, as in the compiled struct.
-- An area is a number from 1 to 256, and NULL is 0. Messages are left out.
pub mod Entries
pub mod Shift
pub mod Tree
pub mod Calls
pub mod Full
mod Tests
use my_microkernel.Prelude.{ℕ, zero, suc, ◌+◌, ◌-◌, ◌*◌, ◌/◌, ◌%◌, ◌==◌, if◌then◌else◌, update}
use my_microkernel.Vma.Area.{VmArea}

-- The static variables.
pub record Maple : Type 0 where
  pub words : ℕ → ℕ
  pub node_free : ℕ
  pub areas : ℕ → VmArea
  pub vma_free : ℕ
  pub root : ℕ
  pub count : ℕ

-- `MAPLE_NODE_SLOTS`, `MAPLE_MAX_PIVOTS`, `MAPLE_MAX_NODES`, `MAPLE_MAX_VMAS` and `SPLIT_MID`
abbrev pub node_slots : ℕ
node_slots = 10

abbrev pub max_pivots : ℕ
max_pivots = 9

abbrev pub max_nodes : ℕ
max_nodes = 64

abbrev pub max_vmas : ℕ
max_vmas = 256

abbrev pub split_mid : ℕ
split_mid = 5

-- The address of a node of the pool, 21 words each.
abbrev pub node_at : ℕ → ℕ
node_at i = 32 + 21 * i

-- The fields of `maple_node_t`.
abbrev pub pivot : (ℕ → ℕ) → (node i : ℕ) → ℕ
pivot m node i = m (node + i)

abbrev pub nr_entries : (ℕ → ℕ) → ℕ → ℕ
nr_entries m node = m (node + 9) % 256

abbrev pub is_leaf : (ℕ → ℕ) → ℕ → ℕ
is_leaf m node = m (node + 9) / 256 % 256

abbrev pub parent : (ℕ → ℕ) → ℕ → ℕ
parent m node = m (node + 10)

abbrev pub child : (ℕ → ℕ) → (node i : ℕ) → ℕ
child m node i = m (node + 11 + i)

abbrev pub set_pivot : (ℕ → ℕ) → (node i v : ℕ) → ℕ → ℕ
set_pivot m node i v = update m (node + i) v

abbrev pub set_nr_entries : (ℕ → ℕ) → (node v : ℕ) → ℕ → ℕ
set_nr_entries m node v = let w = m (node + 9) in update m (node + 9) (w / 256 * 256 + v % 256)

abbrev pub set_is_leaf : (ℕ → ℕ) → (node v : ℕ) → ℕ → ℕ
set_is_leaf m node v =
    let w = m (node + 9) in update m (node + 9) (w / 65536 * 65536 + v % 256 * 256 + w % 256)

abbrev pub set_parent : (ℕ → ℕ) → (node v : ℕ) → ℕ → ℕ
set_parent m node v = update m (node + 10) v

abbrev pub set_child : (ℕ → ℕ) → (node i v : ℕ) → ℕ → ℕ
set_child m node i v = update m (node + 11 + i) v

-- The loop of `node_pool_init` from the node `i` on, `n` of them.
unfoldable pub link_nodes : (ℕ → ℕ) → (i n : ℕ) → ℕ → ℕ
link_nodes m i zero = m
link_nodes m i (suc n) = link_nodes (set_parent m (node_at i) (node_at (i + 1))) (i + 1) n

-- `node_pool_init`
unfoldable pub node_pool_init : Maple → Maple
node_pool_init s = record s {
  node_free = node_at 0;
  words = set_parent (link_nodes s.words 0 (max_nodes - 1)) (node_at (max_nodes - 1)) 0;
}

-- The loops of `node_alloc`: `n` words from `a` on become 0.
unfoldable pub clear_words : (ℕ → ℕ) → (a n : ℕ) → ℕ → ℕ
clear_words m a zero = m
clear_words m a (suc n) = clear_words (update m a 0) (a + 1) n

-- `node_alloc`
unfoldable pub node_alloc : Maple → Maple × ℕ
node_alloc s =
    let n = s.node_free in
    let m1 = set_nr_entries s.words n 0 in
    let m2 = set_parent (set_is_leaf m1 n 0) n 0 in
    let m3 = clear_words m2 n max_pivots in
    if n == 0
    then (s, 0)
    else (record s { node_free = parent s.words n; words = clear_words m3 (n + 11) node_slots }, n)

-- `node_free`
unfoldable pub node_release : Maple → ℕ → Maple
node_release s n = record s { words = set_parent s.words n s.node_free; node_free = n }

-- The loop of `vma_pool_init` from the area `i` on, `n` of them: the names are the links.
unfoldable pub link_vmas : (ℕ → VmArea) → (i n : ℕ) → ℕ → VmArea
link_vmas a i zero = a
link_vmas a i (suc n) = link_vmas (update a i (record (a i) { name = i + 1 })) (i + 1) n

-- `vma_pool_init`
unfoldable pub vma_pool_init : Maple → Maple
vma_pool_init s =
    let a = link_vmas s.areas 1 (max_vmas - 1) in
    record s { vma_free = 1; areas = update a max_vmas (record (a max_vmas) { name = 0 }) }

-- `vma_alloc`
unfoldable pub vma_alloc : Maple → Maple × ℕ
vma_alloc s =
    let v = s.vma_free in
    if v == 0 then (s, 0) else (
      record s {
        vma_free = (s.areas v).name;
        areas = update s.areas v (record { start = 0; end = 0; flags = 0; name = 0 });
      },
      v,
    )

-- `vma_free_entry`
unfoldable pub vma_free_entry : Maple → ℕ → Maple
vma_free_entry s v = record s {
  areas = update s.areas v (record (s.areas v) { name = s.vma_free });
  vma_free = v;
}
