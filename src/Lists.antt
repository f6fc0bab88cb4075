-- ===== src/Lists.antt =====
-- crates/rusty_rtos_core/src/list.rs: the scheduler's lists over indices.
pub mod State
pub mod Insertion
pub mod Removal
pub mod Queries
pub mod Chain
pub mod Valid
pub mod Link
pub mod Order
pub mod Insert
pub mod Unlink
pub mod Contract
pub mod New
pub mod Sizes
pub mod Reach
mod Tests
