-- ===== src/Trace.antt =====
-- crates/rusty_rtos_core/src/trace.rs: the trace events and the sinks.
pub mod Event
pub mod Sinks
pub mod Projection
mod Tests
