-- ===== src/Fuzz.antt =====
-- fuzz/fuzz_targets/lists_arena.rs: the lists and the arena against a reference model, driven by bytes.
-- A `panic!` of the target is `none`.
pub mod Input
pub mod Handles
pub mod SwapRemove
pub mod Target
pub mod ListModel
pub mod ListOps
pub mod ListChecks
pub mod ArenaModel
pub mod ArenaOps
pub mod Runs
mod Tests
