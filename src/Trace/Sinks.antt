-- ===== src/Trace/Sinks.antt =====
-- crates/rusty_rtos_core/src/trace.rs: the trait `Trace` and its sinks.
use rusty_rtos_core.Prelude.{ℕ, ◌+◌, Bool, true, false, List, [], ◌∷◌, min, if◌then◌else◌}
use rusty_rtos_core.Trace.Event.{Event, is_suppressible}

-- A sink with state `S`.
pub record Trace (S : Type 0) : Type 0 where
  pub note_exits : ℕ → S → S
  pub wants_names : Bool
  pub emits : Bool
  pub event : ℕ → Event → S → S

-- What the kernel calls on a sink.
pub data Report : Type 0 where
  exits : ℕ → Report
  happening : ℕ → Event → Report

-- `NoTrace`.
abbrev pub no_trace : Trace (Unit {0})
no_trace = record { note_exits = λ _ s. s; wants_names = false; emits = false; event = λ _ _ s. s }

-- `Scheduling<T>`, whose state is the inner sink's.
unfoldable pub scheduling : {S : Type 0} → Trace S → Trace S
scheduling t = record {
  note_exits = t.note_exits;
  wants_names = t.wants_names;
  emits = t.emits;
  event = λ tick e s. if is_suppressible e then s else t.event tick e s;
}

pub record CountTrace : Type 0 where
  pub events : ℕ
  pub switches : ℕ
  pub increments : ℕ

abbrev pub saturating_add : ℕ → ℕ → ℕ
saturating_add a b = min (a + b) 0xFFFFFFFFFFFFFFFF

abbrev pub count_event : Event → CountTrace → CountTrace
count_event (Event.task_switched_in _ _) c = record c { switches = saturating_add c.switches 1 }
count_event (Event.task_increment_tick _) c = record c {
  increments = saturating_add c.increments 1;
}
count_event _ c = c

unfoldable pub count_trace : Trace CountTrace
count_trace = record {
  note_exits = λ _ c. c;
  wants_names = false;
  emits = true;
  event = λ _ e c. count_event e (record c { events = saturating_add c.events 1 });
}

module _ {S : Type 0} (t : Trace S) where
  unfoldable pub report : Report → S → S
  report (Report.exits n) s = t.note_exits n s
  report (Report.happening tick e) s = t.event tick e s

  unfoldable pub run : List Report → S → S
  run [] s = s
  run (r ∷ rs) s = run rs (report r s)
