-- ===== src/Compiler/Meaning.antt =====
-- What the code of an integer expression computes.
pub mod Source
pub mod Machine
pub mod Steps
pub mod Correct
