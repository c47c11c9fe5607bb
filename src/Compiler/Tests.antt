-- ===== src/Compiler/Tests.antt =====
-- Runs of the compiler, and the theorems about it at concrete inputs.
mod Standin
mod Programs
mod Runs
mod Arenas
mod Bench
mod Meanings
mod Classes
