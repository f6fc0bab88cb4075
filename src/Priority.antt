-- ===== src/Priority.antt =====
-- crates/rusty_rtos_core/src/priority.rs: a task priority, below the configured number of them.
use rusty_rtos_core.Prelude.{ℕ, zero, suc, Bool, ltb, ◌==◌, if◌then◌else◌}
use rusty_rtos_core.Error.{Error, Result, ok, err}

pub record Priority : Type 0 where
  pub level : ℕ

abbrev pub idle : Priority
idle = record { level = 0 }

unfoldable pub new : (raw max_priorities : ℕ) → Result Priority
new raw max_priorities =
    if ltb raw max_priorities then ok (record { level = raw }) else err Error.invalid_priority

unfoldable pub highest : ℕ → Result Priority
highest zero = err Error.invalid_argument
highest (suc p) = ok (record { level = p })

unfoldable pub is_idle : Priority → Bool
is_idle p = p.level == 0
