-- ===== src/Track.antt =====
-- crates/rusty_rtos_core/src/list.rs against a table that says which list each item is in: what the programs
-- that drive the lists rely on.
pub mod Tables
pub mod Model
pub mod Shrunk
pub mod Calls
pub mod Walk
