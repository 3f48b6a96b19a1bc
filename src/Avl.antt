-- ===== src/Avl.antt =====
-- avl.c and avl.h.
pub mod Tree
pub mod Shape
pub mod Rotation
pub mod Insert
pub mod Remove
pub mod Find
mod Examples
pub mod Table
pub mod Walk
pub mod Order
