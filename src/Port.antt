-- ===== src/Port.antt =====
-- crates/rusty_rtos_core/src/port.rs: what a port provides, as an interface, and its defaults.
use rusty_rtos_core.Prelude.{ℕ, Bool, false}
use rusty_rtos_core.Isr.{Woken}

-- What every port writes itself, on its state `S`.
pub record Required (S : Type 0) : Type 0 where
  pub yield_now : S → S
  pub yield_from_isr : Woken → S → S
  pub enter_critical : S → S
  pub exit_critical : S → S
  pub set_interrupt_mask_from_isr : S → S × ℕ
  pub clear_interrupt_mask_from_isr : (saved : ℕ) → S → S
  pub in_isr : S → Bool

pub record Port (S : Type 0) : Type 0 where
  pub required : Required S
  pub commits_switch : Bool
  pub core_id : S → ℕ
  pub idle : S → S
  pub suppress_ticks_and_sleep : (expected_idle_ticks : ℕ) → S → S × ℕ
  pub take_pending_tick : S → S × Bool
  pub count_tick : S → S
  pub count_yield : S → S
  pub exits : S → ℕ
  pub enter_critical_from_isr : S → S × ℕ
  pub exit_critical_from_isr : (mask : ℕ) → S → S
  pub set_in_tick_entry : (entered : Bool) → S → S
  pub scheduler_started : S → S
  pub begin_unwind : S → S
  pub end_unwind : S → S × ℕ

-- A port with every default.
abbrev pub with_defaults : {S : Type 0} → Required S → Port S
with_defaults required = record {
  required = required;
  commits_switch = false;
  core_id = λ _. 0;
  idle = λ s. s;
  suppress_ticks_and_sleep = λ _ s. (s, 0);
  take_pending_tick = λ s. (s, false);
  count_tick = λ s. s;
  count_yield = λ s. s;
  exits = λ _. 0;
  enter_critical_from_isr = λ s. (s, 0);
  exit_critical_from_isr = λ _ s. s;
  set_in_tick_entry = λ _ s. s;
  scheduler_started = λ s. s;
  begin_unwind = λ s. s;
  end_unwind = λ s. (s, 0);
}
