-- ===== src/Trace/Projection.antt =====
-- crates/rusty_rtos_core/src/trace.rs: which reports `Scheduling` passes on.
use rusty_rtos_core.Prelude.{
  ℕ, ◌≡◌, refl, sym, ◌∙◌, true, false, List, [], ◌∷◌, Bool-cases, inl, inr,
}
use rusty_rtos_core.Trace.Event.{Event, is_suppressible}
use rusty_rtos_core.Trace.Sinks.{Trace, Report, report, run, scheduling}

-- The three events that a tickless sleep may change.
pub data IsHeartbeat : Event → Type 0 where
  tick : (n : ℕ) → IsHeartbeat (Event.task_increment_tick n)
  sleeps : IsHeartbeat Event.low_power_idle_begin
  wakes : IsHeartbeat Event.low_power_idle_end

-- The second list is the first without those three, everything else in its place.
pub data Projects : List Report → List Report → Type 0 where
  done : Projects [] []
  exits :
      {rs qs : List Report} (n : ℕ)
      → Projects rs qs
      → Projects (Report.exits n ∷ rs) (Report.exits n ∷ qs)
  dropped :
      {rs qs : List Report} (at : ℕ) (e : Event)
      → IsHeartbeat e
      → Projects rs qs
      → Projects (Report.happening at e ∷ rs) qs
  kept :
      {rs qs : List Report} (at : ℕ) (e : Event)
      → ¬ IsHeartbeat e
      → Projects rs qs
      → Projects (Report.happening at e ∷ rs) (Report.happening at e ∷ qs)

suppressible-IsHeartbeat : (e : Event) → is_suppressible e ≡ true → IsHeartbeat e
unfolding is_suppressible
suppressible-IsHeartbeat Event.starting_scheduler h = cc
suppressible-IsHeartbeat (Event.task_create _ _ _) h = cc
suppressible-IsHeartbeat Event.task_create_failed h = cc
suppressible-IsHeartbeat (Event.task_delete _ _) h = cc
suppressible-IsHeartbeat (Event.task_switched_in _ _) h = cc
suppressible-IsHeartbeat (Event.task_switched_out _ _) h = cc
suppressible-IsHeartbeat (Event.task_delay _ _ _) h = cc
suppressible-IsHeartbeat (Event.task_delay_until _ _ _) h = cc
suppressible-IsHeartbeat (Event.task_suspend _ _) h = cc
suppressible-IsHeartbeat (Event.task_resume _ _) h = cc
suppressible-IsHeartbeat (Event.task_resume_from_isr _ _) h = cc
suppressible-IsHeartbeat (Event.task_priority_set _ _ _) h = cc
suppressible-IsHeartbeat (Event.task_priority_inherit _ _ _) h = cc
suppressible-IsHeartbeat (Event.task_priority_disinherit _ _ _) h = cc
suppressible-IsHeartbeat (Event.task_increment_tick n) h = IsHeartbeat.tick n
suppressible-IsHeartbeat (Event.moved_task_to_ready_state _ _) h = cc
suppressible-IsHeartbeat (Event.moved_task_to_delayed_list _ _) h = cc
suppressible-IsHeartbeat (Event.moved_task_to_overflow_delayed_list _ _) h = cc
suppressible-IsHeartbeat (Event.task_notify _ _ _) h = cc
suppressible-IsHeartbeat (Event.task_notify_wait _ _ _) h = cc
suppressible-IsHeartbeat (Event.task_notify_wait_block _ _ _) h = cc
suppressible-IsHeartbeat (Event.task_notify_take _ _ _) h = cc
suppressible-IsHeartbeat (Event.task_notify_take_block _ _ _) h = cc
suppressible-IsHeartbeat (Event.queue_create _ _ _) h = cc
suppressible-IsHeartbeat (Event.queue_send _ _) h = cc
suppressible-IsHeartbeat (Event.queue_send_failed _ _) h = cc
suppressible-IsHeartbeat (Event.queue_send_from_isr _ _) h = cc
suppressible-IsHeartbeat (Event.queue_receive _ _) h = cc
suppressible-IsHeartbeat (Event.queue_receive_failed _ _) h = cc
suppressible-IsHeartbeat (Event.queue_receive_from_isr _ _) h = cc
suppressible-IsHeartbeat (Event.queue_peek _ _) h = cc
suppressible-IsHeartbeat (Event.blocking_on_queue_send _ _) h = cc
suppressible-IsHeartbeat (Event.blocking_on_queue_receive _ _) h = cc
suppressible-IsHeartbeat (Event.blocking_on_queue_peek _ _) h = cc
suppressible-IsHeartbeat (Event.timer_create _ _) h = cc
suppressible-IsHeartbeat (Event.timer_command_send _ _ _ _) h = cc
suppressible-IsHeartbeat (Event.timer_expired _ _) h = cc
suppressible-IsHeartbeat (Event.event_group_create _) h = cc
suppressible-IsHeartbeat (Event.event_group_set_bits _ _) h = cc
suppressible-IsHeartbeat (Event.event_group_wait_bits_block _ _) h = cc
suppressible-IsHeartbeat (Event.event_group_wait_bits_end _ _ _) h = cc
suppressible-IsHeartbeat (Event.stream_buffer_create _ _) h = cc
suppressible-IsHeartbeat (Event.stream_buffer_send _ _) h = cc
suppressible-IsHeartbeat (Event.stream_buffer_receive _ _) h = cc
suppressible-IsHeartbeat Event.low_power_idle_begin h = IsHeartbeat.sleeps
suppressible-IsHeartbeat Event.low_power_idle_end h = IsHeartbeat.wakes

IsHeartbeat-suppressible : {e : Event} → IsHeartbeat e → is_suppressible e ≡ true
unfolding is_suppressible
IsHeartbeat-suppressible (IsHeartbeat.tick n) = refl
IsHeartbeat-suppressible IsHeartbeat.sleeps = refl
IsHeartbeat-suppressible IsHeartbeat.wakes = refl

true-false : true ≡ false → ⊥
true-false e = cc

-- For every inner sink: `Scheduling` leaves it as if it had received just the reports other than the ticks
-- and the two ends of an idle sleep, every other event and every note of exits in its place.
pub run-scheduling :
    {S : Type 0} (t : Trace S) (rs : List Report) (s : S)
    → (qs : List Report) × Projects rs qs × (run (scheduling t) rs s ≡ run t qs s)
unfolding run report scheduling
run-scheduling t [] s = ([], Projects.done, refl)
run-scheduling t (Report.exits n ∷ rs) s =
    let (qs, p, e) = run-scheduling t rs (t.note_exits n s) in
    (Report.exits n ∷ qs, Projects.exits n p, e)
run-scheduling t (Report.happening at e ∷ rs) s = elim (Bool-cases (is_suppressible e)) [
  | inl drop ↦
      let (qs, p, f) = run-scheduling t rs s in
      (qs, Projects.dropped at e (suppressible-IsHeartbeat e drop) p, rw (drop) f)
  | inr keep ↦
      let (qs, p, f) = run-scheduling t rs (t.event at e s) in
      (
        Report.happening at e ∷ qs,
        Projects.kept at e (λ h. true-false (sym (IsHeartbeat-suppressible h) ∙ keep)) p,
        rw (keep) f,
      )
]
