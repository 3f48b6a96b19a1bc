-- ===== src/Rb.antt =====
-- rbtree.c, rbtree_augmented.h and rbtree.h: red-black trees.
pub mod Tree
pub mod Insert
pub mod Erase
pub mod Walk
pub mod Cached
mod Examples
