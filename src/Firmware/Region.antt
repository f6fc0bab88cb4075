-- ===== src/Firmware/Region.antt =====
-- firmware/mps2-an385-qemu-region/src/main.rs and firmware/esp32s3-devkit-region/src/main.rs: whether the
-- allocator takes its memory from the region that it was given, and gives it back.
pub mod Checks
pub mod Reclaim
pub mod Works
pub mod Good
mod Tests
