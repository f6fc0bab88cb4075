-- ===== src/Lists/Contract.antt =====
-- crates/rusty_rtos_core/src/list.rs against sequences: on a sound state each operation that
-- changes a list returns, and does to the sequences what its C namesake promises.
pub mod Insertion
pub mod Removal
pub mod Refusals
pub mod MoveToEnd
pub mod RoundRobin
pub mod Queries
pub mod Sorted
pub mod Keep
