-- ===== src/Vma/RedBlack.antt =====
-- src/kernel/mm/vma_rbtree.c: the back end that keeps the areas in a red-black tree. A node is a number: 0
-- is the sentinel NIL, 1 to 256 are the nodes of the pool, and 257 stands for NULL. Messages are left
-- out.
pub mod Insert
pub mod Delete
pub mod Shape
pub mod Lookup
pub mod Descent
pub mod Painted
pub mod Steps
pub mod Rotate
pub mod Mirror
pub mod Colour
pub mod Balance
pub mod Round
pub mod Sides
pub mod Outcome
pub mod Uncle
pub mod Repair
pub mod Whole
pub mod Ending
pub mod Loop
pub mod Spot
pub mod Walk
pub mod Seat
pub mod Fixup
pub mod Sound
pub mod Start
pub mod Attach
pub mod Seated
pub mod Addition
pub mod Runs
pub mod Starts
pub mod Reflect
mod Tests
use my_microkernel.Prelude.{
  ℕ, zero, suc, ◌+◌, ◌-◌, Bool, true, false, not, ◌&&◌, ◌||◌, Option, none, some, ltb, leb, ◌==◌,
  if◌then◌else◌, update, bit_and, add32, sub32, Status, ok, fail,
}
use my_microkernel.Vma.Area.{VmArea}

-- `rb_node_t`
pub record Node : Type 0 where
  pub area : VmArea
  pub color : ℕ
  pub parent : ℕ
  pub left : ℕ
  pub right : ℕ

-- The static variables: `g_nil_node` and `g_pool` by numbers, `g_free_head`, `g_root` and `g_count`.
pub record Tree : Type 0 where
  pub nodes : ℕ → Node
  pub free_head : ℕ
  pub root : ℕ
  pub count : ℕ

-- `RB_MAX_NODES`, `RB_BLACK`, `RB_RED`, `NIL`, and NULL
abbrev pub max_nodes : ℕ
max_nodes = 256

abbrev pub black : ℕ
black = 0

abbrev pub red : ℕ
red = 1

abbrev pub nil : ℕ
nil = 0

abbrev pub null : ℕ
null = 257

abbrev pub no_area : VmArea
no_area = record { start = 0; end = 0; flags = 0; name = 0 }

-- Stores to one field of a node.
abbrev pub set_color : Tree → (n c : ℕ) → Tree
set_color t n c = record t { nodes = update t.nodes n (record (t.nodes n) { color = c }) }

abbrev pub set_parent : Tree → (n p : ℕ) → Tree
set_parent t n p = record t { nodes = update t.nodes n (record (t.nodes n) { parent = p }) }

abbrev pub set_left : Tree → (n l : ℕ) → Tree
set_left t n l = record t { nodes = update t.nodes n (record (t.nodes n) { left = l }) }

abbrev pub set_right : Tree → (n r : ℕ) → Tree
set_right t n r = record t { nodes = update t.nodes n (record (t.nodes n) { right = r }) }

-- The loop of `pool_init` from the node `i` on, `n` of them.
unfoldable pub link_pool : Tree → (i n : ℕ) → Tree
link_pool t i zero = t
link_pool t i (suc n) = link_pool (set_right t i (i + 1)) (i + 1) n

-- `pool_init`
unfoldable pub pool_init : Tree → Tree
pool_init t = set_right (link_pool (record t { free_head = 1 }) 1 (max_nodes - 1)) max_nodes null

-- `pool_alloc`
pub pool_alloc : Tree → Tree × ℕ
pool_alloc t =
    let n = t.free_head in
    if n == null then (t, null) else (
      record t {
        free_head = (t.nodes n).right;
        nodes =
            update t.nodes n
              (record { area = no_area; color = red; parent = nil; left = nil; right = nil });
      },
      n,
    )

-- `pool_free`
pub pool_free : Tree → ℕ → Tree
pool_free t n = record (set_right t n t.free_head) { free_head = n }

-- `rotate_left` and `rotate_right`
pub rotate_left : Tree → ℕ → Tree
rotate_left t x =
    let y = (t.nodes x).right in
    let t1 = set_right t x (t.nodes y).left in
    let l = (t1.nodes y).left in
    let t2 = if l == nil then t1 else set_parent t1 l x in
    let p = (t2.nodes x).parent in
    let t3 = set_parent t2 y p in
    let q = (t3.nodes x).parent in
    let t4 =
      if q == nil
      then record t3 { root = y }
      else if x == (t3.nodes q).left
      then set_left t3 q y
      else set_right t3 q y in
    set_parent (set_left t4 y x) x y

pub rotate_right : Tree → ℕ → Tree
rotate_right t x =
    let y = (t.nodes x).left in
    let t1 = set_left t x (t.nodes y).right in
    let r = (t1.nodes y).right in
    let t2 = if r == nil then t1 else set_parent t1 r x in
    let p = (t2.nodes x).parent in
    let t3 = set_parent t2 y p in
    let q = (t3.nodes x).parent in
    let t4 =
      if q == nil
      then record t3 { root = y }
      else if x == (t3.nodes q).right
      then set_right t3 q y
      else set_left t3 q y in
    set_parent (set_right t4 y x) x y

abbrev pub parent_of : Tree → ℕ → ℕ
parent_of t n = (t.nodes n).parent

abbrev pub color_of : Tree → ℕ → ℕ
color_of t n = (t.nodes n).color

-- `rb_init`
pub init : Tree → Tree
init t = pool_init (record t {
  nodes =
      update t.nodes nil
        (record { area = no_area; color = black; parent = nil; left = nil; right = nil });
  root = nil;
  count = 0;
})

-- The loop of `rb_find` from `cur` on, `n` rounds at most, none for NULL.
pub find_from : Tree → (addr cur n : ℕ) → Option VmArea
find_from t addr cur zero = none
find_from t addr cur (suc n) =
    let a = (t.nodes cur).area in
    let next = if ltb addr a.start then (t.nodes cur).left else (t.nodes cur).right in
    let rest = find_from t addr next n in
    if cur == nil
    then none
    else if ltb addr a.start
    then rest
    else if leb a.end addr
    then rest
    else some a

-- `rb_find`
pub find : Tree → ℕ → Option VmArea
find t addr = find_from t addr t.root (max_nodes + 1)

-- `rb_count`
pub count_areas : Tree → ℕ
count_areas t = t.count
