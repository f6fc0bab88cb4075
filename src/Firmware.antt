-- ===== src/Firmware.antt =====
-- firmware/: the harnesses that measure allocators (esp32s3-devkit-alloc-ab, esp32s3-devkit-alloc-cycles) and those
-- that test the region of one (mps2-an385-qemu-region, esp32s3-devkit-region).
pub mod Harness
pub mod Pool
pub mod Parity
pub mod Split
pub mod Main
pub mod Verdict
pub mod Passed
pub mod Panics
pub mod Cycles
pub mod Region
mod Tests
