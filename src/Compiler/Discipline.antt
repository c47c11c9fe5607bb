-- ===== src/Compiler/Discipline.antt =====
-- What the methods of compiler.py keep, whatever the source: the arena of allocations and the names
-- of globals.
pub mod Inv
pub mod Objects
pub mod Expr
pub mod Scopes
pub mod Stmt
pub mod Functions
pub mod Json
pub mod Entry
pub mod Run
pub mod Plan
pub mod Start
