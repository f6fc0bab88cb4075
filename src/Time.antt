-- ===== src/Time.antt =====
-- crates/rusty_rtos_core/src/time.rs: spans of time and timeouts, against a configuration.
pub mod Duration
pub mod Timeout
