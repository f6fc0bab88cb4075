-- ===== src/Bench.antt =====
-- bench/list-ir/src/main.rs and bench/core-ir/src/main.rs: the workloads whose instructions are counted.
pub mod Steps
pub mod Workload
pub mod Tally
pub mod Matches
pub mod Runs
pub mod Anchors
pub mod CoreIr
pub mod CoreAnchors
mod Tests
