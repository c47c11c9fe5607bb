-- ===== src/Compiler/Layouts.antt =====
-- The layouts of classes: the indices that field accesses use against the struct's body.
pub mod Fields
pub mod Class
