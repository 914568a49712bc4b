-- ===== src/Vma.antt =====
-- Virtual memory areas: the public types of vma.h, the back end that keeps them in a sorted array,
-- and the dispatch layer of vma.c.
pub mod Area
pub mod SortedArray
pub mod Dispatch
pub mod RedBlack
pub mod Maple
