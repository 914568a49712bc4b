-- ===== src/Lib.antt =====
-- A model of the memory management of a small 32-bit x86 kernel, and of the parts of it that surround
-- it: every function below is the translation of a C function, with its 32-bit arithmetic, and the
-- theorems say what the functions do.
--
-- Parts, and how they interact:
-- - Prelude: the tests of C, arrays as functions, 32-bit words, and the laws of the bit operations.
-- - Vma (src/kernel/mm/vma.c, src/kernel/mm/vma_sorted_array.c): the areas of virtual memory. Vma.Dispatch
--   forwards vma_add, vma_remove and vma_find to a table of operations, Vma.SortedArray is the back end
--   that keeps a sorted array, and Vma.RedBlack (src/kernel/mm/vma_rbtree.c) the one that keeps a red-black
--   tree, whose nodes are numbers into a store; Vma.RedBlack.Painted describes that store as a tree with
--   colours, seen from one of its nodes. A back end's contract is the record Lawful in
--   Vma/Dispatch/Refine.
--   Vma.Maple (src/kernel/mm/vma_maple.c) is the back end that keeps a B+ tree. Its nodes are words of one
--   array, since a full leaf stores one pivot behind its array of pivots.
-- - Pmm.Buddy with Pmm.Links (src/kernel/mm/pmm_buddy.c): the buddy allocator of physical pages; the lists
--   are stores of pointers, and nodes are numbers: 0 to 10 are the heads of the lists, and 11 and up
--   the pages. Pmm.Buddy.Init is its initialisation.
-- - Pmm.Bitmap (src/kernel/mm/pmm_bitmap.c): the bitmap allocator of physical pages.
-- - Pmm.Dispatch (src/kernel/mm/pmm.c): forwards the calls to one of the two, by a table of operations.
-- - Vmm (src/kernel/mm/vmm.c): the two-level page tables. The page allocator and the areas that it
--   calls are the record Services.
-- - Heap (src/kernel/mm/kmalloc.c): maps the first pages of the heap and forwards the calls to its back
--   end, which is a record of operations.
-- - Heap.FirstFit (src/kernel/mm/heap_first_fit.c): the back end that keeps a chain of blocks. Its memory is
--   a function from addresses to headers. Heap.FirstFit.Blocks describes the heap as a list of blocks,
--   and Heap.FirstFit.Tiles says when the headers in memory are such a list.
-- - Heap.Slab (src/kernel/mm/heap_slab.c): the back end that cuts pages into slots. Its memory is a function
--   from pages to the headers in them.
-- - Keyboard (src/kernel/drivers/keyboard.c): the decoding of scancodes and the ring buffer.
-- - Gdt (src/kernel/arch/gdt.c): segment descriptors.
-- - Syscall (src/kernel/core/syscall.c): the table of system calls and the built-in handlers.
-- - Shell (src/kernel/core/shell.c): the reading of a line, its words, and the search for a command.
-- - Printk (src/kernel/core/printk.c): the printing of numbers.
--
-- State is passed explicitly: a function that changes static variables takes their record and returns
-- it. Pointers that a module never follows are numbers. NULL and -1 are 0, none or fail, as the
-- functions' comments say.
--
-- Fuel: the binary searches run on the length of their range, which each round shrinks; the loop of
-- buddy_free and of the split in buddy_alloc on the orders that are left, at most ten; the filling
-- of the lists on the number of pages; the walks over the blocks of a heap on its bytes, as each
-- block has a header; the walks over slabs on the heap's pages; the walks down a red-black tree on
-- the number of nodes; the walks down a maple tree and up again on the size of its pool of nodes, and
-- the loop of leaf_remove_at on 256, the values of the one-byte count; the walks over a string on a
-- bound of its length. The theorems about these functions show that this is enough, as do those
-- about the rounds of insert_fixup, at most one for each node above the new one; there is no
-- theorem yet about the rounds of delete_fixup and of tree_minimum in the red-black tree, of the
-- loops of the maple tree, and of the unlinking loop and the statistics of slabs.
--
-- Not modelled: messages, assembly, interrupts and device ports, the shell's commands, and what heap
-- slots hold. The Multiboot2 memory map is a list of its entries.
mod Prelude
pub mod Vma
pub mod Pmm
pub mod Vmm
pub mod Heap
pub mod Keyboard
pub mod Gdt
pub mod Printk
pub mod Syscall
pub mod Shell
