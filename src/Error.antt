-- ===== src/Error.antt =====
-- crates/rusty_rtos_core/src/error.rs: the one error type, its C return code and its name.
-- A `core::result::Result` with that error is `Result`.
use Prim.Native.String.{String}
use rusty_rtos_core.Prelude.{ℕ}

pub data Error : Type 0 where
  timeout full empty no_memory gone invalid_handle invalid_priority : Error
  invalid_argument in_isr not_in_isr scheduler_suspended busy not_active unsupported : Error

pub data Result (A : Type 0) : Type 0 where
  ok : A → Result A
  err : Error → Result A

-- `negsuc n` is -(n + 1).
pub data ℤ : Type 0 where
  pos : ℕ → ℤ
  negsuc : ℕ → ℤ

unfoldable pub pd_code : Error → ℤ
pd_code Error.no_memory = negsuc 0
pd_code Error.scheduler_suspended = negsuc 3
pd_code other = pos 0

unfoldable pub name : Error → String
name Error.timeout = "timeout"
name Error.full = "full"
name Error.empty = "empty"
name Error.no_memory = "no-memory"
name Error.gone = "gone"
name Error.invalid_handle = "invalid-handle"
name Error.invalid_priority = "invalid-priority"
name Error.invalid_argument = "invalid-argument"
name Error.in_isr = "in-isr"
name Error.not_in_isr = "not-in-isr"
name Error.scheduler_suspended = "scheduler-suspended"
name Error.busy = "busy"
name Error.not_active = "not-active"
name Error.unsupported = "unsupported"
