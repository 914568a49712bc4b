-- ===== src/Pmm/Links.antt =====
-- The circular doubly linked lists of src/kernel/mm/pmm_buddy.c. A node is a number that stands for
-- its address; a list's head is a node too.
mod Tests
use my_microkernel.Prelude.{
  ℕ, ◌≡◌, ◌≢◌, refl, arith, Bool, true, false, Option, none, some, ◌==◌, if◌then◌else◌, update,
  ℕ_discrete,
}

-- The two pointers of each `free_node_t`.
pub record Links : Type 0 where
  pub prev : ℕ → ℕ
  pub next : ℕ → ℕ

-- `list_init`
unfoldable pub list_init : Links → ℕ → Links
list_init l head = record { prev = update l.prev head head; next = update l.next head head }

-- `list_empty`
unfoldable pub list_empty : Links → ℕ → Bool
list_empty l head = l.next head == head

set_prev : Links → ℕ → ℕ → Links
set_prev l n p = record l { prev = update l.prev n p }

set_next : Links → ℕ → ℕ → Links
set_next l n p = record l { next = update l.next n p }

-- `list_add_tail`: four stores in the order of the code, each reading what the last one left.
unfoldable pub list_add_tail : Links → ℕ → ℕ → Links
unfolding set_prev set_next
list_add_tail l node head =
    let l1 = set_prev l node (l.prev head) in
    let l2 = set_next l1 node head in
    let l3 = set_next l2 (l2.prev head) node in set_prev l3 head node

-- `list_del`
unfoldable pub list_del : Links → ℕ → Links
unfolding set_prev set_next
list_del l node =
    let l1 = set_next l (l.prev node) (l.next node) in
    let l2 = set_prev l1 (l1.next node) (l1.prev node) in
    let l3 = set_prev l2 node node in set_next l3 node node

-- `list_pop`, which returns the first node, NULL if there is none.
unfoldable pub list_pop : Links → ℕ → Links × Option ℕ
unfolding list_empty list_del
list_pop l head =
    if list_empty l head then (l, none) else (list_del l (l.next head), some (l.next head))

pub list_pop-nonempty :
    (l : Links) (head : ℕ)
    → list_empty l head ≡ false
    → list_pop l head ≡ (list_del l (l.next head), some (l.next head))
unfolding list_pop
list_pop-nonempty l head e = rw e

-- The nodes for which `linked` holds form rings: the two pointers are inverse to one another, and
-- neighbours carry the same tag, which tells whose ring it is.
pub record IsLinked (l : Links) (linked : ℕ → Bool) (tag : ℕ → ℕ) : Type 0 where
  pub next_linked : (n : ℕ) → linked n ≡ true → linked (l.next n) ≡ true
  pub prev_linked : (n : ℕ) → linked n ≡ true → linked (l.prev n) ≡ true
  pub prev-next : (n : ℕ) → linked n ≡ true → l.prev (l.next n) ≡ n
  pub next-prev : (n : ℕ) → linked n ≡ true → l.next (l.prev n) ≡ n
  pub next_tag : (n : ℕ) → linked n ≡ true → tag (l.next n) ≡ tag n
  pub prev_tag : (n : ℕ) → linked n ≡ true → tag (l.prev n) ≡ tag n

module _ {l : Links} {linked : ℕ → Bool} {tag : ℕ → ℕ} (v : IsLinked l linked tag) where
  -- When the linked nodes form rings, `list_add_tail` of a node in no ring behind a linked head
  -- leaves rings, and the node is in the head's ring.
  pub list_add_tail-IsLinked :
      (node head : ℕ)
      → linked node ≡ false
      → linked head ≡ true
      → IsLinked (list_add_tail l node head) (update linked node true) (update tag node (tag head))
  unfolding list_add_tail
  list_add_tail-IsLinked node head p q = record {
    next_linked = λ n h. ground (arith, v.next_linked n);
    prev_linked = λ n h. ground (arith, v.prev_linked n, v.prev_linked head);
    prev-next = λ n h. ground (
      arith,
      v.prev-next n,
      v.next_linked n,
      v.next-prev head,
      v.prev_linked head,
      v.next-prev n,
    );
    next-prev = λ n h. ground (
      arith,
      v.next-prev n,
      v.prev_linked n,
      v.next-prev head,
      v.prev_linked head,
      v.prev-next n,
    );
    next_tag =
        λ n h. ground (arith, v.next_tag n, v.next_linked n, v.prev_tag head, v.prev_linked head);
    prev_tag =
        λ n h. ground (arith, v.prev_tag n, v.prev_linked n, v.prev_tag head, v.prev_linked head);
  }

  -- When the linked nodes form rings, `list_del` of a linked node leaves rings of the other linked
  -- nodes, each in the ring where it was.
  pub list_del-IsLinked :
      (node : ℕ) → linked node ≡ true → IsLinked (list_del l node) (update linked node false) tag
  unfolding list_del
  list_del-IsLinked node p = record {
    next_linked = λ n h. ground (
      arith,
      v.next_linked n,
      v.next_linked node,
      v.prev-next n,
      v.prev-next node,
      v.next-prev node,
    );
    prev_linked = λ n h. ground (
      arith,
      v.prev_linked n,
      v.prev_linked node,
      v.prev-next node,
      v.next-prev node,
      v.next-prev n,
    );
    prev-next =
        λ n h. ground (arith, v.prev-next n, v.next-prev n, v.next-prev node, v.prev-next node);
    next-prev =
        λ n h. ground (arith, v.prev-next n, v.next-prev n, v.next-prev node, v.prev-next node);
    next_tag = λ n h. ground (arith, v.next_tag n, v.next_tag node, v.prev_tag node, v.prev-next n);
    prev_tag = λ n h. ground (arith, v.prev_tag n, v.next_tag node, v.prev_tag node, v.next-prev n);
  }
