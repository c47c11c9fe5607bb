-- ===== src/Scripts.antt =====
-- The scripts that build, package, deploy, verify and invoke a function.
pub mod Effects
pub mod Calls
pub mod Waiting
pub mod Polls
pub mod Makes
pub mod Ends
pub mod Triples
pub mod Json
pub mod Deploy
pub mod Verify
pub mod Invoke
pub mod Build
pub mod Package
pub mod Cloud
mod Tests
