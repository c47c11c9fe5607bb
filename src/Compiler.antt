-- ===== src/Compiler.antt =====
-- compiler.py: the class `Compiler`. `Monad` has its state; the other modules have its methods, in
-- the order in which they call one another, each before the modules with its laws.
pub mod Monad
pub mod Types
pub mod Objects
pub mod Expr
pub mod Class
pub mod Stmt
pub mod Entry
pub mod Hoare
pub mod Discipline
pub mod Meaning
pub mod Layouts
mod Tests
