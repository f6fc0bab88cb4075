-- ===== src/Firmware/Cycles.antt =====
-- firmware/esp32s3-devkit-alloc-cycles/src/main.rs: the cycles of an allocation.
pub mod Rounds
pub mod Main
pub mod Lowest
pub mod Served
pub mod Best
pub mod Verdict
mod Tests
