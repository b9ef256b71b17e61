-- ===== src/Avl/Rotate.antt =====
-- The rotations refine the rotations of trees.
pub mod Turn
pub mod Right
pub mod Left
