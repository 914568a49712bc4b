-- ===== src/Pmm/Buddy.antt =====
-- src/kernel/mm/pmm_buddy.c: blocks of 2^order pages, one intrusive free list for each order.
-- A page's node is numbered after the heads of the lists, so that `page_info_t*` and `free_node_t*`
-- are the same number, as they are the same address in the code. Messages are left out.
pub mod Invariant
pub mod Blocks
pub mod Split
pub mod Alloc
pub mod Free
pub mod Queries
pub mod Pages
pub mod Init
use my_microkernel.Prelude.{
  ℕ, zero, suc, ◌+◌, ◌-◌, ◌*◌, ◌/◌, ◌%◌, ◌^◌, Bool, true, false, not, ◌&&◌, ◌||◌, Option, none,
  some, ltb, leb, ◌==◌, if◌then◌else◌, update, bit_and, bit_xor, word, add32, sub32, mul32,
  page_size,
}
use my_microkernel.Pmm.Links.{Links, list_init, list_empty, list_add_tail, list_del, list_pop}

-- `BUDDY_MAX_ORDER`
abbrev pub max_order : ℕ
max_order = 10

-- `&g_zone.free_list[order]` and `&g_zone.pages[idx].node`
abbrev pub head : ℕ → ℕ
head order = order

abbrev pub page : ℕ → ℕ
page idx = idx + (max_order + 1)

-- `page_index`, on the address of a page's node.
abbrev pub page_index : ℕ → ℕ
page_index node = node - (max_order + 1)

-- `g_zone` and `g_buddy_ready`; `order` and `is_free` are the fields of the `page_info_t` array.
pub record Zone : Type 0 where
  pub base_phys : ℕ
  pub total_pages : ℕ
  pub order : ℕ → ℕ
  pub is_free : ℕ → Bool
  pub links : Links
  pub free_count : ℕ → ℕ
  pub total_free : ℕ
  pub ready : Bool

-- `index_to_phys` and `phys_to_index`
pub index_to_phys : Zone → ℕ → ℕ
index_to_phys z idx = add32 z.base_phys (mul32 idx page_size)

pub phys_to_index : Zone → ℕ → ℕ
phys_to_index z phys = sub32 phys z.base_phys / page_size

-- `calc_buddy_index`
abbrev pub calc_buddy_index : ℕ → ℕ → ℕ
calc_buddy_index idx order = bit_xor idx (2 ^ order)

-- `buddy_add_free`
pub add_free : Zone → (idx order : ℕ) → Zone
add_free z idx order = record z {
  order = update z.order idx order;
  is_free = update z.is_free idx true;
  links = list_add_tail z.links (page idx) (head order);
  free_count = update z.free_count order (add32 (z.free_count order) 1);
  total_free = add32 z.total_free (2 ^ order);
}

-- `buddy_remove_free`
pub remove_free : Zone → (idx order : ℕ) → Zone
remove_free z idx order = record z {
  is_free = update z.is_free idx false;
  links = list_del z.links (page idx);
  free_count = update z.free_count order (sub32 (z.free_count order) 1);
  total_free = sub32 z.total_free (2 ^ order);
}

-- The first loop of `buddy_alloc`: the lowest order from `cur` on whose list is not empty.
pub find_order : Zone → (left cur : ℕ) → Option ℕ
find_order z zero cur = none
find_order z (suc left) cur =
    if list_empty z.links (head cur) then find_order z left (cur + 1) else some cur

-- `while (cur > order)`: halve the block at `idx`, giving back the upper half.
pub split : Zone → (idx order left : ℕ) → Zone
split z idx order zero = z
split z idx order (suc left) =
    let cur = order + left in split (add_free z (add32 idx (2 ^ cur)) cur) idx order left

-- What `buddy_alloc` does between its two loops: pop the first block of order `cur`, and account
-- for it. The list is not empty there.
popped : Zone → ℕ → Links × Option ℕ → Zone × ℕ
popped z cur (links, none) = (z, 0)
popped z cur (links, some pg) =
    let idx = page_index pg in
    (
      record z {
        is_free = update z.is_free idx false;
        links = links;
        free_count = update z.free_count cur (sub32 (z.free_count cur) 1);
        total_free = sub32 z.total_free (2 ^ cur);
      },
      idx,
    )

pub take_block : Zone → ℕ → Zone × ℕ
unfolding popped
take_block z cur = popped z cur (list_pop z.links (head cur))

set_order : Zone → (idx order : ℕ) → Zone
set_order z idx order = record z { order = update z.order idx order }

-- The rest of `buddy_alloc`, on what its first loop found; none is UINT32_MAX.
carve : Zone → ℕ → Option ℕ → Zone × Option ℕ
carve z order none = (z, none)
carve z order (some cur) =
    let (z1, idx) = take_block z cur in
    (set_order (split z1 idx order (cur - order)) idx order, some idx)

-- `buddy_alloc`
pub buddy_alloc : Zone → ℕ → Zone × Option ℕ
unfolding carve set_order
buddy_alloc z order = carve z order (find_order z (max_order + 1 - order) order)

-- `idx & ~(1u << order)`
abbrev pub parent : ℕ → ℕ → ℕ
parent idx order = bit_and idx (word - 1 - 2 ^ order)

-- The two tests of `buddy_free` that end its loop.
pub can_merge : Zone → (idx order : ℕ) → Bool
can_merge z idx order =
    let bi = calc_buddy_index idx order in
    ltb bi z.total_pages && (z.is_free bi && (z.order bi == order))

-- `buddy_free`, with at most `left` rounds: 10 - order are enough, since the order grows.
pub buddy_free : Zone → (idx order left : ℕ) → Zone
buddy_free z idx order zero = add_free z idx order
buddy_free z idx order (suc left) =
    let bi = calc_buddy_index idx order in
    let merged = buddy_free (remove_free z bi order) (parent idx order) (order + 1) left in
    if ltb order max_order && can_merge z idx order then merged else add_free z idx order

page_result : Zone → Zone × Option ℕ → Zone × ℕ
page_result z (z', none) = (z', 0)
page_result z (z', some idx) = (z', index_to_phys z idx)

-- `pmm_buddy_alloc_page`, 0 for NULL.
pub alloc_page : Zone → Zone × ℕ
unfolding page_result
alloc_page z =
    if not z.ready
    then (z, 0)
    else if z.total_free == 0
    then (z, 0)
    else page_result z (buddy_alloc z 0)

-- `pmm_buddy_free_page`
pub free_page : Zone → ℕ → Zone
free_page z phys =
    let idx = phys_to_index z phys in
    if not z.ready || phys == 0
    then z
    else if not (bit_and phys (page_size - 1) == 0)
    then z
    else if ltb phys z.base_phys
    then z
    else if leb z.total_pages idx
    then z
    else if z.is_free idx
    then z
    else buddy_free z idx (z.order idx) (max_order - z.order idx)
